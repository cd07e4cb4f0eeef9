-- ===== src/Search/Match.antt =====
-- Matching the words of a term against the words of a note: isWordMatch, isSequenceMatch and
-- SearchTerm::isTextMatching of src/searchlocalnotesthread.cpp.
pub mod Spec
use notekeeper_open.Base.{
  ℕ, suc, ◌+◌, ◌-◌, Bool, true, false, ◌&&◌, Option, none, some, List, [], ◌∷◌, map, QString,
  length, get_elem?, is_empty, ltb, ◌==◌, if◌then◌else◌, text_eq,
}
use notekeeper_open.Search.Unicode.{Unicode}
use notekeeper_open.Search.Words.{words}

-- QString::startsWith, and `endsWith('*')`.
unfoldable pub starts_with : QString → QString → Bool
starts_with s [] = true
starts_with [] (p ∷ prefix) = false
starts_with (c ∷ s) (p ∷ prefix) = if c == p then starts_with s prefix else false

unfoldable pub ends_with_star : QString → Bool
ends_with_star [] = false
ends_with_star (c ∷ []) = c == b'*'
ends_with_star (c ∷ d ∷ s) = ends_with_star (d ∷ s)

module _ (u : Unicode) where
  -- Without regard to case, the texts are compared by their foldings.
  unfoldable pub is_word_match : QString → QString → Bool → Bool
  is_word_match term_word note_word word_prefix_match =
      if word_prefix_match
      then starts_with (map u.fold (u.simplified note_word)) (map u.fold (u.simplified term_word))
      else text_eq (map u.fold (u.simplified note_word)) (map u.fold (u.simplified term_word))

  -- The `forever` loop at the index `i`, over the term words that are left.
  unfoldable pub sequence_loop : ℕ → List QString → ℕ → Bool → ℕ → List QString → Bool
  sequence_loop term_length note_words ni sequence_prefix_match i [] = true
  sequence_loop term_length note_words ni sequence_prefix_match i (term_word ∷ left) =
      let rest = sequence_loop term_length note_words ni sequence_prefix_match (suc i) left in
      elim (get_elem? note_words (ni + i)) [
        | none ↦ false
        | some note_word ↦
            if is_word_match term_word note_word (sequence_prefix_match && i == term_length - 1)
            then rest
            else false
      ]

  -- The first test is `term.length() > note.length() - ni`, with both sides moved into ℕ.
  unfoldable pub is_sequence_match : List QString → List QString → ℕ → Bool → Bool
  unfolding sequence_loop
  is_sequence_match term_words note_words ni sequence_prefix_match =
      if ltb (length note_words) (length term_words + ni)
      then false
      else sequence_loop (length term_words) note_words ni sequence_prefix_match 0 term_words

  -- The loop over the note's words; `left` are the words from `ni` on.
  unfoldable pub match_loop : List QString → QString → Bool → List QString → ℕ → List QString → Bool
  match_loop term_words first sequence_prefix_match note_words ni [] = false
  match_loop term_words first sequence_prefix_match note_words ni (note_word ∷ left) =
      let later = match_loop term_words first sequence_prefix_match note_words (suc ni) left in
      if is_word_match first note_word (sequence_prefix_match && length term_words == 1)
      then (if is_sequence_match term_words note_words ni sequence_prefix_match
          then true
          else later)
      else later

  unfoldable pub match_words : List QString → Bool → List QString → Bool
  match_words [] sequence_prefix_match note_words = false
  match_words (first ∷ more) sequence_prefix_match note_words =
      match_loop (first ∷ more) first sequence_prefix_match note_words 0 note_words

  unfoldable pub is_text_matching : QString → List QString → Bool
  unfolding match_words
  is_text_matching text note_words =
      if is_empty text then false else match_words (words u text) (ends_with_star text) note_words
