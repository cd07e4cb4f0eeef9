-- ===== src/Search/Match/Spec.antt =====
-- The matcher against a description without indices: the words of the term, one after the other,
-- stand somewhere in the words of the note.
use notekeeper_open.Base.{
  ℕ, zero, suc, ◌+◌, ◌-◌, ◌<◌, ◌≡◌, ◌↔◌, refl, ap, sym, ◌∙◌, Bool, true, false, ◌&&◌, ◌||◌, none,
  some, List, [], ◌∷◌, ◌++◌, QString, length, get_elem?, drop, is_empty, ltb, ◌==◌, if◌then◌else◌,
  arith, Bool-cases, Option-cases, inl, inr,
}
use notekeeper_open.Search.Unicode.{Unicode}
use notekeeper_open.Search.Words.{words, words_loop, push_word}
use notekeeper_open.Search.Match.{
  is_word_match, sequence_loop, is_sequence_match, match_loop, match_words, is_text_matching,
  ends_with_star,
}

module _ {ℓ} {A : Type ℓ} where
  drop-none : (i : ℕ) (xs : List A) → get_elem? xs i ≡ none → drop i xs ≡ []
  drop-none zero [] h = refl
  drop-none (suc i) [] h = refl
  drop-none zero (x ∷ xs) h = cc
  drop-none (suc i) (x ∷ xs) h = drop-none i xs h

  drop-some :
      (i : ℕ) (xs : List A) (x : A) → get_elem? xs i ≡ some x → drop i xs ≡ x ∷ drop (suc i) xs
  drop-some zero [] x h = cc
  drop-some (suc i) [] x h = cc
  drop-some zero (y ∷ xs) x h = cc
  drop-some (suc i) (y ∷ xs) x h = drop-some i xs x h

  length-drop : (i : ℕ) (xs : List A) → length (drop i xs) ≡ length xs - i
  length-drop zero xs = omega arith
  length-drop (suc i) [] = omega arith
  length-drop (suc i) (x ∷ xs) = omega (arith, length-drop i xs)

module _ (u : Unicode) (prefix_match : Bool) where
  -- The term's words match the first words of the note.
  aligned : List QString → List QString → Bool
  aligned [] note = true
  aligned (t ∷ ts) [] = false
  aligned (t ∷ ts) (n ∷ note) =
      if is_word_match u t n (prefix_match && is_empty ts) then aligned ts note else false

  occurs : List QString → List QString → Bool
  occurs ts [] = false
  occurs ts (n ∷ note) = aligned ts (n ∷ note) || occurs ts note

  aligned_short : (ts note : List QString) → length note < length ts → aligned ts note ≡ false
  unfolding aligned
  aligned_short [] note h = absurd (omega arith)
  aligned_short (t ∷ ts) [] h = refl
  aligned_short (t ∷ ts) (n ∷ note) h = ground (arith, aligned_short ts note)

  last_index :
      (i len : ℕ) (left : List QString)
      → i + suc (length left) ≡ len
      → (i == len - 1) ≡ is_empty left
  last_index i len [] h = ground arith
  last_index i len (t ∷ left) h = ground arith

  sequence_loop-aligned :
      (note : List QString) (len ni i : ℕ) (left : List QString)
      → i + length left ≡ len
      → sequence_loop u len note ni prefix_match i left ≡ aligned left (drop (ni + i) note)
  unfolding sequence_loop aligned
  sequence_loop-aligned note len ni i [] h = refl
  sequence_loop-aligned note len ni i (t ∷ left) h =
      let ih = sequence_loop-aligned note len ni (suc i) left (omega arith) in
      let e : ni + suc i ≡ suc (ni + i) = omega arith in
      elim (Option-cases (get_elem? note (ni + i))) [
        | inl miss ↦ rw (drop-none (ni + i) note miss) (rw (miss, sequence_loop))
        | inr (w, hit) ↦
            rw (drop-some (ni + i) note w hit)
              (rw (hit, sequence_loop) (rw (last_index i len left (omega arith), ih, e)))
      ]

  is_sequence_match-aligned :
      (t : QString) (ts note : List QString) (ni : ℕ)
      → is_sequence_match u (t ∷ ts) note ni prefix_match ≡ aligned (t ∷ ts) (drop ni note)
  unfolding is_sequence_match
  is_sequence_match-aligned t ts note ni =
      let e : ni + 0 ≡ ni = omega arith in
      elim (Bool-cases (ltb (length note) (length (t ∷ ts) + ni))) [
        | inl short ↦
            rw (short, aligned_short (t ∷ ts) (drop ni note) (ground (arith, length-drop ni note)))
        | inr long ↦
            rw long
              (sequence_loop-aligned note (length (t ∷ ts)) ni 0 (t ∷ ts) (omega arith) ∙ rw e)
      ]

  one_word : (t : QString) (ts : List QString) → (length (t ∷ ts) == 1) ≡ is_empty ts
  one_word t [] = refl
  one_word t (x ∷ ts) = ground arith

  drop_tail :
      (ni : ℕ) (note : List QString) (n : QString) (left : List QString)
      → drop ni note ≡ n ∷ left
      → drop (suc ni) note ≡ left
  drop_tail zero [] n left h = cc
  drop_tail zero (x ∷ note) n left h = cc
  drop_tail (suc ni) [] n left h = cc
  drop_tail (suc ni) (x ∷ note) n left h = drop_tail ni note n left h

  match_loop-occurs :
      (t : QString) (ts note : List QString) (ni : ℕ) (left : List QString)
      → drop ni note ≡ left
      → match_loop u (t ∷ ts) t prefix_match note ni left ≡ occurs (t ∷ ts) left
  unfolding match_loop occurs aligned
  match_loop-occurs t ts note ni [] h = refl
  match_loop-occurs t ts note ni (n ∷ left) h =
      let ih = match_loop-occurs t ts note (suc ni) left (drop_tail ni note n left h) in
      let sequence : is_sequence_match u (t ∷ ts) note ni prefix_match
          ≡ aligned (t ∷ ts) (n ∷ left) =
        is_sequence_match-aligned t ts note ni ∙ ap (aligned (t ∷ ts)) h in
      ground (arith, ih, sequence, one_word t ts)

  -- The words of the term match these words one for one, the last of them perhaps by its beginning.
  abbrev pub IsAligned : List QString → List QString → Type 0
  IsAligned [] mid = ⊥
  IsAligned (t ∷ ts) [] = ⊥
  IsAligned (t ∷ []) (n ∷ []) = is_word_match u t n prefix_match ≡ true
  IsAligned (t ∷ []) (n ∷ n' ∷ mid) = ⊥
  IsAligned (t ∷ t' ∷ ts) (n ∷ mid) = (is_word_match u t n false ≡ true) × IsAligned (t' ∷ ts) mid

  abbrev pub Found : List QString → List QString → Type 0
  Found ts note =
      (before : List QString) × (mid : List QString) × (after : List QString) × (note
        ≡ before ++ (mid ++ after))
      × IsAligned ts mid

  AlignedPrefix : List QString → List QString → Type 0
  AlignedPrefix ts note =
      (mid : List QString) × (after : List QString) × (note ≡ mid ++ after) × IsAligned ts mid

  aligned_found :
      (t : QString) (ts note : List QString)
      → aligned (t ∷ ts) note ≡ true
      → AlignedPrefix (t ∷ ts) note
  unfolding aligned AlignedPrefix
  aligned_found t ts [] h = cc
  aligned_found t [] (n ∷ note) h = (n ∷ [], note, refl, ground arith)
  aligned_found t (t' ∷ ts) (n ∷ note) h =
      let (mid, after, e, a) = aligned_found t' ts note (ground arith) in
      (n ∷ mid, after, ap (◌∷◌ n) e, (ground arith, a))

  found_aligned :
      (ts mid after : List QString) → IsAligned ts mid → aligned ts (mid ++ after) ≡ true
  unfolding aligned
  found_aligned [] mid after h = absurd h
  found_aligned (t ∷ ts) [] after h = absurd h
  found_aligned (t ∷ []) (n ∷ []) after h = ground arith
  found_aligned (t ∷ []) (n ∷ n' ∷ mid) after h = absurd h
  found_aligned (t ∷ t' ∷ ts) (n ∷ mid) after h =
      ground (arith, found_aligned (t' ∷ ts) mid after h.1)

  occurs-Found :
      (t : QString) (ts note : List QString) → occurs (t ∷ ts) note ≡ true → Found (t ∷ ts) note
  unfolding occurs AlignedPrefix
  occurs-Found t ts [] h = cc
  occurs-Found t ts (n ∷ note) h = elim (Bool-cases (aligned (t ∷ ts) (n ∷ note))) [
    | inl e ↦ let (mid, after, p, a) = aligned_found t ts (n ∷ note) e in ([], mid, after, p, a)
    | inr e ↦
        let (before, mid, after, p, a) = occurs-Found t ts note (ground arith) in
        (n ∷ before, mid, after, ap (◌∷◌ n) p, a)
  ]

  found_occurs :
      (ts before mid after : List QString)
      → IsAligned ts mid
      → occurs ts (before ++ (mid ++ after)) ≡ true
  unfolding occurs
  found_occurs [] [] mid after h = absurd h
  found_occurs (t ∷ ts) [] [] after h = absurd h
  found_occurs (t ∷ ts) [] (n ∷ mid) after h =
      ground (arith, found_aligned (t ∷ ts) (n ∷ mid) after h)
  found_occurs ts (n ∷ before) mid after h = ground (arith, found_occurs ts before mid after h)

  match_words-Found :
      (ts note : List QString) → (match_words u ts prefix_match note ≡ true) ↔ Found ts note
  unfolding match_words
  match_words-Found [] note = (λ h. cc, λ f. absurd f.4)
  match_words-Found (t ∷ ts) note =
      let e = match_loop-occurs t ts note 0 note refl in
      (
        λ h. occurs-Found t ts note (sym e ∙ h),
        λ f. e ∙ ap (occurs (t ∷ ts)) f.3 ∙ found_occurs (t ∷ ts) f.0 f.1 f.2 f.4,
      )

-- A term's text matches a note exactly when the text's words stand one after the other somewhere in
-- the note's words, where a text that ends in a star lets the last word match by its beginning.
pub is_text_matching-Found :
    (u : Unicode) (text : QString) (note_words : List QString)
    → (is_text_matching u text note_words ≡ true)
      ↔ Found u (ends_with_star text) (words u text) note_words
unfolding is_text_matching words words_loop push_word
is_text_matching-Found u [] note_words = (λ h. cc, λ f. absurd f.4)
is_text_matching-Found u (c ∷ text) note_words =
    match_words-Found u (ends_with_star (c ∷ text)) (words u (c ∷ text)) note_words
