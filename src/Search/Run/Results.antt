-- ===== src/Search/Run/Results.antt =====
-- What the thread emits: the notes that match, in order, the progress, and the end of the search.
use native.Mathlib.Nat.{div-le_of_le-mul}
use notekeeper_open.Base.{
  ℕ, suc, ◌+◌, ◌*◌, ◌/◌, ◌%◌, ◌^◌, contains, ◌≤◌, ◌<◌, ◌≡◌, refl, ◌∙◌, Bool, true, false, not, ◌&&◌,
  List, [], ◌∷◌, ◌++◌, QString, length, is_empty, take, keep, if◌then◌else◌, arith, Bool-cases, inl,
  inr,
}
use notekeeper_open.Search.Unicode.{Unicode}
use notekeeper_open.Search.Query.{SearchTerm, parse_query}
use notekeeper_open.Search.Run.{
  Notes, Signal, matching_note, progress_percentage, finished, note_matched, note_loop, search_in,
  search_notebooks, run, in_order, percentage, int_div, notebooks_in_query,
}

-- The notes that a run reported.
unfoldable pub matches_of : List Signal → List QString
matches_of [] = []
matches_of (matching_note note_id ∷ signals) = note_id ∷ matches_of signals
matches_of (progress_percentage p ∷ signals) = matches_of signals
matches_of (finished x ∷ signals) = matches_of signals

-- Progress stays within 100 percent, and `finished` comes once, at the end.
abbrev pub IsReport : List Signal → Type 0
IsReport [] = ⊥
IsReport (matching_note note_id ∷ signals) = IsReport signals
IsReport (progress_percentage p ∷ signals) = (p ≤ 100) × IsReport signals
IsReport (finished x ∷ []) = Unit
IsReport (finished x ∷ signal ∷ signals) = ⊥

-- So many notes that a hundred times their number is an int.
abbrev pub most_notes : ℕ
most_notes = 21474836

length-keep : (p : QString → Bool) (xs : List QString) → length (keep p xs) ≤ length xs
length-keep p [] = omega arith
length-keep p (x ∷ xs) = ground (arith, length-keep p xs)

length-in_order :
    (ids all : List QString) → length all ≤ most_notes → length (in_order ids all) ≤ most_notes
unfolding in_order
length-in_order ids all h = ground (arith, length-keep (contains ids) all)

module _ (u : Unicode) (n : Notes) (terms : List SearchTerm) where
  -- A note that the loop reports: it has an id, and matches the query.
  unfoldable pub is_hit : QString → Bool
  is_hit note_id = not (is_empty note_id) && note_matched u n terms note_id

  quotient_le : (searched count : ℕ) → searched < count → (searched + 1) * 100 / count ≤ 100
  quotient_le searched count h =
      div-le_of_le-mul count {m = (searched + 1) * 100} {n = 100} (grind arith)

  -- The product fits an int.
  fits_int :
      (searched count : ℕ)
      → searched < count
      → count ≤ most_notes
      → percentage ((searched + 1) % 2 ^ 32) count ≡ (searched + 1) * 100 / count
  unfolding percentage int_div
  fits_int searched count h k =
      let exact : (searched + 1) % 2 ^ 32 * 100 % 2 ^ 32 ≡ (searched + 1) * 100 = omega arith in
      rw exact (ground (arith, h, k))

  percentage_le :
      (searched count : ℕ)
      → searched < count
      → count ≤ most_notes
      → percentage ((searched + 1) % 2 ^ 32) count ≤ 100
  percentage_le searched count h k = rw (fits_int searched count h k) (quotient_le searched count h)

  IsReport-emit :
      (matched : Bool) (note_id : QString) (p : ℕ) (rest : List Signal)
      → p ≤ 100
      → IsReport rest
      → IsReport
          ((if matched then matching_note note_id ∷ [] else []) ++ progress_percentage p ∷ rest)
  IsReport-emit true note_id p rest h r = (h, r)
  IsReport-emit false note_id p rest h r = (h, r)

  note_loop-IsReport :
      (cancelled : ℕ → Bool) (count round unsearched searched : ℕ) (note_ids : List QString)
      → searched + length note_ids ≤ count
      → count ≤ most_notes
      → IsReport (note_loop u n terms cancelled count round unsearched searched note_ids)
  unfolding note_loop
  note_loop-IsReport cancelled count round unsearched searched [] h k = tt
  note_loop-IsReport cancelled count round unsearched searched (note_id ∷ note_ids) h k =
      elim (Bool-cases (is_empty note_id)) [
        | inl e ↦ rw e (
            note_loop-IsReport cancelled count (suc round) unsearched searched note_ids
              (omega arith) k)
        | inr e ↦ elim (Bool-cases (cancelled round)) [
          | inl c ↦ rw (e, c) tt
          | inr c ↦
              rw (e, c)
                (IsReport-emit _ note_id _ _ (percentage_le searched count (omega arith) k) (
                  note_loop-IsReport cancelled count (suc round) _ ((searched + 1) % 2 ^ 32)
                    note_ids (omega arith) k))
        ]
      ]

  -- The notes that the loop comes to before it reads that the search is cancelled.
  unfoldable pub rounds : (ℕ → Bool) → ℕ → List QString → ℕ
  rounds cancelled round [] = 0
  rounds cancelled round (note_id ∷ note_ids) =
      let rest = rounds cancelled (suc round) note_ids in
      if not (is_empty note_id) && cancelled round then 0 else suc rest

  note_loop-matches :
      (cancelled : ℕ → Bool) (count round unsearched searched : ℕ) (note_ids : List QString)
      → matches_of (note_loop u n terms cancelled count round unsearched searched note_ids)
        ≡ keep is_hit (take (rounds cancelled round note_ids) note_ids)
  unfolding note_loop matches_of is_hit rounds
  note_loop-matches cancelled count round unsearched searched [] = refl
  note_loop-matches cancelled count round unsearched searched (note_id ∷ note_ids) = ground (
    arith,
    note_loop-matches cancelled count (suc round) unsearched searched note_ids,
    note_loop-matches cancelled count (suc round) ((unsearched + 1) % 2 ^ 32)
        ((searched + 1) % 2 ^ 32) note_ids,
    note_loop-matches cancelled count (suc round) unsearched ((searched + 1) % 2 ^ 32) note_ids,
  )

  rounds_never :
      (cancelled : ℕ → Bool) (round : ℕ) (note_ids : List QString)
      → ((k : ℕ) → cancelled k ≡ false)
      → take (rounds cancelled round note_ids) note_ids ≡ note_ids
  unfolding rounds
  rounds_never cancelled round [] h = refl
  rounds_never cancelled round (note_id ∷ note_ids) h =
      ground (arith, h round, rounds_never cancelled (suc round) note_ids h)

  search_in-IsReport :
      (cancelled : ℕ → Bool) (note_ids : List QString)
      → length note_ids ≤ most_notes
      → IsReport (search_in u n terms cancelled note_ids)
  unfolding search_in
  search_in-IsReport cancelled note_ids h =
      note_loop-IsReport cancelled (length note_ids % 2 ^ 32) 0 0 0 note_ids (omega arith)
        (omega arith)

  search_notebooks-IsReport :
      (cancelled : ℕ → Bool) (names : List QString)
      → length n.all_note_ids ≤ most_notes
      → IsReport (search_notebooks u n terms cancelled names)
  unfolding search_notebooks
  search_notebooks-IsReport cancelled [] h = search_in-IsReport cancelled n.all_note_ids h
  search_notebooks-IsReport cancelled (name ∷ []) h =
      elim (Bool-cases (is_empty (n.notebook_id_for_name name))) [
        | inl e ↦ rw e tt
        | inr e ↦ rw e (
            search_in-IsReport cancelled
              (in_order (n.notebook_note_ids (n.notebook_id_for_name name)) n.all_note_ids)
              (length-in_order (n.notebook_note_ids (n.notebook_id_for_name name)) n.all_note_ids
                h))
      ]
  search_notebooks-IsReport cancelled (name ∷ name' ∷ names) h = tt

  -- A search over a list of notes reports, in the order of the list, exactly the notes that have an
  -- id, match the query, and stand before the place where the search is cancelled.
  pub search_in-matches :
      (cancelled : ℕ → Bool) (note_ids : List QString)
      → matches_of (search_in u n terms cancelled note_ids)
        ≡ keep is_hit (take (rounds cancelled 0 note_ids) note_ids)
  unfolding search_in
  search_in-matches cancelled note_ids =
      note_loop-matches cancelled (length note_ids % 2 ^ 32) 0 0 0 note_ids

module _ (u : Unicode) (n : Notes) (query : QString) where
  -- Whatever the query and whenever it is cancelled, a search over at most 21,474,836 notes, so that a
  -- hundred times their number is an int, reports progress between 0 and 100 percent and emits
  -- its end once, as the last signal.
  pub run-IsReport :
      (cancelled : ℕ → Bool)
      → length n.all_note_ids ≤ most_notes
      → IsReport (run u n query cancelled)
  unfolding run
  run-IsReport cancelled h =
      search_notebooks-IsReport u n (parse_query u query) cancelled
        (notebooks_in_query u (parse_query u query)) h

  -- A query without a `notebook:` term, never cancelled, reports exactly the notes with an id that
  -- match, in the order of the list of all notes.
  pub run-matches :
      (cancelled : ℕ → Bool)
      → ((k : ℕ) → cancelled k ≡ false)
      → notebooks_in_query u (parse_query u query) ≡ []
      → matches_of (run u n query cancelled)
        ≡ keep (is_hit u n (parse_query u query)) n.all_note_ids
  unfolding run
  run-matches cancelled h e =
      rw (e, search_notebooks)
        (search_in-matches u n (parse_query u query) cancelled n.all_note_ids
          ∙ rw (rounds_never u n (parse_query u query) cancelled 0 n.all_note_ids h))
