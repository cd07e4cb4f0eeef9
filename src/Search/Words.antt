-- ===== src/Search/Words.antt =====
-- The function `words` of src/searchlocalnotesthread.cpp, which cuts a text into words.
pub mod Cut
use notekeeper_open.Base.{
  ℕ, ◌≡◌, refl, Bool, true, false, not, ◌||◌, List, [], ◌∷◌, ◌++◌, QString, is_empty, if◌then◌else◌,
  All, All-append, keep, keep_yes, keep_no, ◌∙◌, sym, Bool-cases, inl, inr,
}
use mathlib.Core.List.{append-nil, append_assoc}
use notekeeper_open.Search.Unicode.{Unicode}

-- `if (!word.isEmpty()) wordList << word;`
unfoldable pub push_word : List QString → QString → List QString
push_word word_list word = if is_empty word then word_list else word_list ++ word ∷ []

module _ (u : Unicode) where
  unfoldable pub is_separator_char : ℕ → Bool
  is_separator_char c = u.is_space c || u.is_punct c || u.is_symbol c

  unfoldable pub words_loop : List QString → QString → QString → List QString
  unfolding push_word is_separator_char
  words_loop word_list word [] = push_word word_list word
  words_loop word_list word (c ∷ text) =
      words_loop (if is_separator_char c then push_word word_list word else word_list)
        (if is_separator_char c then [] else word ++ c ∷ []) text

  unfoldable pub words : QString → List QString
  unfolding words_loop
  words text = words_loop [] [] text

  abbrev pub IsSolid : QString → Type 0
  IsSolid w = All (λ c. is_separator_char c ≡ false) w

  push_word-eq-append : (l : List QString) (w : QString) → push_word l w ≡ l ++ push_word [] w
  unfolding push_word
  push_word-eq-append l [] = rw append-nil
  push_word-eq-append l (c ∷ w) = refl

  words_loop_list :
      (l : List QString) (w text : QString) → words_loop l w text ≡ l ++ words_loop [] w text
  unfolding words_loop
  words_loop_list l w [] = push_word-eq-append l w
  words_loop_list l w (c ∷ text) = elim (Bool-cases (is_separator_char c)) [
    | inl e ↦ rw (
      e,
      words_loop_list (push_word l w) [] text,
      words_loop_list (push_word [] w) [] text,
      push_word-eq-append l w,
      append_assoc,
    )
    | inr e ↦ rw e (words_loop_list l (w ++ c ∷ []) text)
  ]

  pub words_loop-cons_sep :
      (l : List QString) (w : QString) (c : ℕ) (text : QString)
      → is_separator_char c ≡ true
      → words_loop l w (c ∷ text) ≡ push_word l w ++ words_loop [] [] text
  words_loop-cons_sep l w c text e =
      unfold words_loop in rw e (words_loop_list (push_word l w) [] text)

  pub words_loop-cons_solid :
      (l : List QString) (w : QString) (c : ℕ) (text : QString)
      → is_separator_char c ≡ false
      → words_loop l w (c ∷ text) ≡ words_loop l (w ++ c ∷ []) text
  unfolding words_loop
  words_loop-cons_solid l w c text e = rw e
