-- ===== src/Search/Query/RoundTrip.antt =====
-- What a printed list of terms parses to.
use notekeeper_open.Base.{
  ℕ, ◌≡◌, refl, Bool, true, false, not, Option, none, some, List, [], ◌∷◌, ◌++◌, QString, is_empty,
  ◌==◌, ==_iff, Bool-cases, inl, inr, if◌then◌else◌, All, arith, ◌∙◌,
}
use mathlib.Core.List.{append-nil, append_assoc}
use notekeeper_open.Search.Unicode.{Unicode}
use notekeeper_open.Search.Query.{
  SearchTerm, Scan, start, is_backslash, end_term, read_char, scan, parse_query,
}

-- A term in the query syntax: `-qualifier:"text" `, with the parts that it has.
unfoldable pub print_term : SearchTerm → QString
print_term t =
    (if t.is_negated then b'-' ∷ [] else [])
    ++ ((if is_empty t.qualifier then [] else t.qualifier ++ b':' ∷ [])
        ++ (b'"' ∷ (t.text ++ (b'"' ∷ b' ' ∷ []))))

unfoldable pub print_query : List SearchTerm → QString
unfolding print_term
print_query [] = []
print_query (t ∷ ts) = print_term t ++ print_query ts

-- The character before the place that the scan has come to.
unfoldable pub last_of : Option ℕ → QString → Option ℕ
last_of p [] = p
last_of p (c ∷ s) = last_of (some c) s

abbrev NoQuote : QString → Type 0
NoQuote s = All (λ c. (c == b'"') ≡ false) s

module _ (u : Unicode) where
  abbrev IsPlain : QString → Type 0
  IsPlain s = All (λ c. u.is_letter_or_number c ≡ true) s

  -- A qualifier of letters and numbers; a text that is not empty, holds no quote, and does not end
  -- in a backslash, which would escape the closing quote.
  pub record IsPrintable (t : SearchTerm) : Type 0 where
    pub qualifier_plain : IsPlain t.qualifier
    pub text_unquoted : NoQuote t.text
    pub text_present : is_empty t.text ≡ false
    pub text_closed : is_backslash (last_of (some b'"') t.text) ≡ false

  scan-append : (s : Scan) (a b : QString) → scan u s (a ++ b) ≡ scan u (scan u s a) b
  unfolding scan
  scan-append s [] b = refl
  scan-append s (c ∷ a) b = scan-append (record (read_char u s c) { previous = some c }) a b

  scan-cons :
      (s : Scan) (c : ℕ) (a : QString)
      → scan u s (c ∷ a) ≡ scan u (record (read_char u s c) { previous = some c }) a
  unfolding scan
  scan-cons s c a = refl

  scan-nil : (s : Scan) → scan u s [] ≡ s
  unfolding scan
  scan-nil s = refl

  letter-ne :
      (c d : ℕ)
      → u.is_letter_or_number c ≡ true
      → u.is_letter_or_number d ≡ false
      → (c == d) ≡ false
  letter-ne c d h k = elim (Bool-cases (c == d)) [ inl e ↦ cc ((==_iff c d).0 e) | inr e ↦ e ]

  read_plain :
      (s : Scan) (c : ℕ)
      → u.is_letter_or_number c ≡ true
      → s.is_within_quotes ≡ false
      → read_char u s c ≡ record s { current_word = s.current_word ++ c ∷ [] }
  unfolding read_char
  read_plain s c h k = ground (
    arith,
    letter-ne c b'"' h u.quote_other,
    letter-ne c b'-' h u.minus_other,
    letter-ne c b':' h u.colon_other,
  )

  read_quoted :
      (s : Scan) (c : ℕ)
      → (c == b'"') ≡ false
      → s.is_within_quotes ≡ true
      → read_char u s c ≡ record s { current_word = s.current_word ++ c ∷ [] }
  unfolding read_char
  read_quoted s c h k = ground arith

  scan_plain :
      (s : Scan) (a : QString)
      → IsPlain a
      → s.is_within_quotes ≡ false
      → scan u s a
        ≡ record s { current_word = s.current_word ++ a; previous = last_of s.previous a }
  unfolding scan last_of
  scan_plain s [] h k = rw append-nil
  scan_plain s (c ∷ a) h k = rw (read_plain s c h.0 k) (
      scan_plain (record s { current_word = s.current_word ++ c ∷ []; previous = some c }) a h.1 k
      ∙ rw append_assoc)

  scan_quoted :
      (s : Scan) (a : QString)
      → NoQuote a
      → s.is_within_quotes ≡ true
      → scan u s a
        ≡ record s { current_word = s.current_word ++ a; previous = last_of s.previous a }
  unfolding scan last_of
  scan_quoted s [] h k = rw append-nil
  scan_quoted s (c ∷ a) h k = rw (read_quoted s c h.0 k) (
      scan_quoted (record s { current_word = s.current_word ++ c ∷ []; previous = some c }) a h.1 k
      ∙ rw append_assoc)

  -- The scan between two terms.
  abbrev between : List SearchTerm → QString → Bool → Option ℕ → Scan
  between ts q n p = record start { terms = ts; qualifier = q; is_negated_term = n; previous = p }

  read_open :
      (s : Scan)
      → is_backslash s.previous ≡ false
      → read_char u s b'"' ≡ record s { is_within_quotes = not s.is_within_quotes }
  unfolding read_char
  read_open s h = ground arith

  read_space :
      (s : Scan)
      → s.is_within_quotes ≡ false
      → is_empty s.current_word ≡ false
      → read_char u s b' '
        ≡ between
            (s.terms
              ++ record {
                qualifier = s.qualifier;
                text = s.current_word;
                is_negated = s.is_negated_term;
              }
                ∷ [])
            []
            false
            s.previous
  unfolding read_char
  read_space s h k = ground (arith, u.space_other)

  scan_text :
      (ts : List SearchTerm) (q a : QString) (n : Bool) (p : Option ℕ)
      → NoQuote a
      → is_empty a ≡ false
      → is_backslash (last_of (some b'"') a) ≡ false
      → is_backslash p ≡ false
      → scan u (between ts q n p) (b'"' ∷ (a ++ (b'"' ∷ b' ' ∷ [])))
        ≡ between
            (ts ++ record { qualifier = q; text = a; is_negated = n } ∷ [])
            []
            false
            (some b' ')
  scan_text ts q a n p unquoted present closed h =
      let s : Scan = between ts q n p in
      let s1 : Scan = record s { is_within_quotes = true; previous = some b'"' } in
      let s2 : Scan = record s1 { current_word = a; previous = last_of (some b'"') a } in
      let s3 : Scan = record s2 { is_within_quotes = false; previous = some b'"' } in
      rw (
        scan-cons s,
        read_open s h,
        scan-append s1 a (b'"' ∷ b' ' ∷ []),
        scan_quoted s1 a unquoted refl,
        scan-cons s2,
        read_open s2 closed,
        scan-cons s3,
        read_space s3 refl present,
        scan-nil,
      )

  scan_minus :
      (ts : List SearchTerm) (n : Bool) (p : Option ℕ)
      → is_backslash p ≡ false
      → (p' : Option ℕ) × (is_backslash p' ≡ false)
        × (scan u (between ts [] false p) (if n then b'-' ∷ [] else []) ≡ between ts [] n p')
  unfolding scan read_char
  scan_minus ts true p h = (some b'-', refl, refl)
  scan_minus ts false p h = (p, h, refl)

  read_colon :
      (s : Scan)
      → s.is_within_quotes ≡ false
      → read_char u s b':' ≡ record s { qualifier = s.current_word; current_word = [] }
  unfolding read_char
  read_colon s h = ground arith

  scan_qualifier :
      (ts : List SearchTerm) (q : QString) (n : Bool) (p : Option ℕ)
      → IsPlain q
      → is_backslash p ≡ false
      → (p' : Option ℕ) × (is_backslash p' ≡ false)
        × (scan u (between ts [] n p) (if is_empty q then [] else q ++ b':' ∷ [])
            ≡ between ts q n p')
  scan_qualifier ts [] n p plain h = (p, h, scan-nil (between ts [] n p))
  scan_qualifier ts (c ∷ q) n p plain h =
      let s : Scan = between ts [] n p in
      let s1 : Scan = record s { current_word = c ∷ q; previous = last_of p (c ∷ q) } in
      (
        some b':',
        refl,
        rw (
          scan-append s (c ∷ q) (b':' ∷ []),
          scan_plain s (c ∷ q) plain refl,
          scan-cons s1,
          read_colon s1 refl,
          scan-nil,
        ),
      )

  scan_term :
      (ts : List SearchTerm) (t : SearchTerm) (p : Option ℕ)
      → IsPrintable t
      → is_backslash p ≡ false
      → scan u (between ts [] false p) (print_term t) ≡ between (ts ++ t ∷ []) [] false (some b' ')
  unfolding print_term
  scan_term ts t p h k =
      let (p1, k1, e1) = scan_minus ts t.is_negated p k in
      let (p2, k2, e2) = scan_qualifier ts t.qualifier t.is_negated p1 h.qualifier_plain k1 in
      rw (scan-append, e1, scan-append, e2)
        (scan_text ts t.qualifier t.text t.is_negated p2 h.text_unquoted h.text_present
          h.text_closed k2)

  scan_query :
      (ts us : List SearchTerm) (p : Option ℕ)
      → All IsPrintable us
      → is_backslash p ≡ false
      → (end_term (scan u (between ts [] false p) (print_query us))).terms ≡ ts ++ us
  unfolding print_query
  scan_query ts [] p h k = rw (scan-nil, append-nil) (unfold end_term in refl)
  scan_query ts (t ∷ us) p h k =
      rw (scan-append, scan_term ts t p h.0 k)
        (scan_query (ts ++ t ∷ []) us (some b' ') h.1 refl ∙ append_assoc ts (t ∷ []) us)

  -- Parsing a printed query gives its terms back, in order, with their qualifiers, texts and signs,
  -- when each qualifier is made of letters and numbers, and each text is not empty, holds no quote
  -- and does not end in a backslash.
  pub parse_query-print_query :
      (ts : List SearchTerm) → All IsPrintable ts → parse_query u (print_query ts) ≡ ts
  unfolding parse_query
  parse_query-print_query ts h = scan_query [] ts none h refl
