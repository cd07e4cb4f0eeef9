-- ===== src/Search/Query.antt =====
-- SearchQuery::parseQuery: one pass over the query, character by character.
pub mod RoundTrip
use notekeeper_open.Base.{
  ℕ, Bool, true, false, not, ◌&&◌, ◌||◌, Option, none, some, List, [], ◌∷◌, ◌++◌, QString, is_empty,
  ◌==◌, if◌then◌else◌,
}
use notekeeper_open.Search.Unicode.{Unicode}

pub record SearchTerm : Type 0 where
  pub qualifier : QString
  pub text : QString
  pub is_negated : Bool

-- The local variables of the loop; `previous` is `queryString.at(i - 1)`.
pub record Scan : Type 0 where
  pub terms : List SearchTerm
  pub qualifier : QString
  pub current_word : QString
  pub is_within_quotes : Bool
  pub is_negated_term : Bool
  pub previous : Option ℕ

abbrev pub start : Scan
start = record {
  terms = [];
  qualifier = [];
  current_word = [];
  is_within_quotes = false;
  is_negated_term = false;
  previous = none;
}

abbrev pub is_backslash : Option ℕ → Bool
is_backslash none = false
is_backslash (some c) = c == b'\\'

-- The term that ends here is appended, if it has a qualifier or a text.
unfoldable pub end_term : Scan → Scan
end_term s =
    if not (is_empty s.qualifier) || not (is_empty s.current_word)
    then record s {
      terms =
          s.terms
          ++ record {
            qualifier = s.qualifier;
            text = s.current_word;
            is_negated = s.is_negated_term;
          }
            ∷ [];
      qualifier = [];
      current_word = [];
      is_negated_term = false;
    }
    else record s { current_word = [] }

module _ (u : Unicode) where
  unfoldable pub is_separator : ℕ → Bool
  is_separator c =
      not (u.is_letter_or_number c)
      && not (c == b'_')
      && not (c == b'"')
      && not (c == b'-')
      && not (c == b'*')

  -- The body of the loop, without the move to the next character.
  unfoldable pub read_char : Scan → ℕ → Scan
  unfolding is_separator end_term
  read_char s c =
      if c == b'"'
      then (if is_backslash s.previous
          then s
          else record s { is_within_quotes = not s.is_within_quotes })
      else if not s.is_within_quotes && c == b'-' && is_empty s.qualifier && is_empty s.current_word
      then record s { is_negated_term = true }
      else if not s.is_within_quotes && c == b':'
      then record s { qualifier = s.current_word; current_word = [] }
      else if not s.is_within_quotes && is_separator c
      then end_term s
      else record s { current_word = s.current_word ++ c ∷ [] }

  unfoldable pub scan : Scan → QString → Scan
  scan s [] = s
  scan s (c ∷ rest) = scan (record (read_char s c) { previous = some c }) rest

  -- After the loop the last term is appended in the same way.
  unfoldable pub parse_query : QString → List SearchTerm
  unfolding scan end_term
  parse_query q = (end_term (scan start q)).terms
