-- ===== src/Search/Words/Cut.antt =====
-- Where `words` of src/searchlocalnotesthread.cpp cuts a text.
use mathlib.Core.List.{append-nil, append_assoc}
use notekeeper_open.Base.{
  ℕ, ◌≡◌, refl, subst, true, false, List, [], ◌∷◌, ◌++◌, QString, is_empty, All, All-append,
  Bool-cases, inl, inr,
}
use notekeeper_open.Search.Unicode.{Unicode}
use notekeeper_open.Search.Words.{
  is_separator_char, push_word, words_loop, words, IsSolid, words_loop-cons_sep,
  words_loop-cons_solid,
}

module _ (u : Unicode) where
  abbrev pub IsGap : QString → Type 0
  IsGap s = All (λ c. is_separator_char u c ≡ true) s

  -- A word ends where the text does, or at a separator.
  abbrev pub IsBoundary : QString → Type 0
  IsBoundary [] = Unit
  IsBoundary (c ∷ text) = is_separator_char u c ≡ true

  -- The words of a text in order: after a gap of separators, which may be empty, a word goes on to the
  -- next boundary.
  pub data IsCut : QString → List QString → Type 0 where
    only_gap : (gap : QString) → IsGap gap → IsCut gap []
    next_word :
        (gap word rest : QString) (words : List QString)
        → IsGap gap
        → is_empty word ≡ false
        → IsSolid u word
        → IsBoundary rest
        → IsCut rest words
        → IsCut (gap ++ (word ++ rest)) (word ∷ words)

  separator-IsCut :
      (c : ℕ) {text : QString} {ws : List QString}
      → is_separator_char u c ≡ true
      → IsCut text ws
      → IsCut (c ∷ text) ws
  separator-IsCut c h (only_gap gap g) = only_gap (c ∷ gap) (h, g)
  separator-IsCut c h (next_word gap word rest ws g e s b r) =
      next_word (c ∷ gap) word rest ws (h, g) e s b r

  push_word-IsCut :
      (w rest : QString) (ws : List QString)
      → IsSolid u w
      → IsBoundary rest
      → IsCut rest ws
      → IsCut (w ++ rest) (push_word [] w ++ ws)
  unfolding push_word
  push_word-IsCut [] rest ws s b r = r
  push_word-IsCut (c ∷ w) rest ws s b r = next_word [] (c ∷ w) rest ws tt refl s b r

  words_loop-IsCut : (w text : QString) → IsSolid u w → IsCut (w ++ text) (words_loop u [] w text)
  words_loop-IsCut w [] s =
      unfold words_loop in
      subst (IsCut (w ++ [])) (append-nil (push_word [] w))
        (push_word-IsCut w [] [] s tt (only_gap [] tt))
  words_loop-IsCut w (c ∷ text) s = elim (Bool-cases (is_separator_char u c)) [
    | inl e ↦ rw (words_loop-cons_sep u [] w c text e) (
        push_word-IsCut w (c ∷ text) (words_loop u [] [] text) s e
          (separator-IsCut c e (words_loop-IsCut [] text tt)))
    | inr e ↦ rw (words_loop-cons_solid u [] w c text e) (
        subst (λ (t : QString). IsCut t (words_loop u [] (w ++ c ∷ []) text))
          (append_assoc w (c ∷ []) text)
          (words_loop-IsCut (w ++ c ∷ []) text
            (All-append (λ d. is_separator_char u d ≡ false) w (c ∷ []) s (e, tt))))
  ]

  -- The words of a text are the longest stretches without a separator, none of them empty, in order.
  pub words-IsCut : (text : QString) → IsCut text (words u text)
  unfolding words
  words-IsCut text = words_loop-IsCut [] text tt
