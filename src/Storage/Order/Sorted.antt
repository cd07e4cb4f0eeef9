-- ===== src/Storage/Order/Sorted.antt =====
-- Inserting at the position that the code computes keeps a list sorted, latest first.
use notekeeper_open.Base.{
  ℕ, suc, ◌+◌, ◌-◌, ◌≤◌, ◌≡◌, ap, Bool, true, List, [], ◌∷◌, QString, length, ltb, if◌then◌else◌,
  insert_at, arith, Bool-cases, inl, inr, contains, text_dec, if_pos, if_neg, keep, keep_yes,
  keep_no,
}
use notekeeper_open.Base.Members.{remove_one, remove_one-contains, contains-keep, text_eq_refl}
use notekeeper_open.Storage.Order.{position_loop, note_insertion_position, insert_in_order}

module _ (timestamp_of : QString → ℕ) where
  -- Latest first.
  abbrev pub IsSorted : List QString → Type 0
  IsSorted [] = Unit
  IsSorted (x ∷ []) = Unit
  IsSorted (x ∷ y ∷ note_ids) = (timestamp_of y ≤ timestamp_of x) × IsSorted (y ∷ note_ids)

  -- The same insertion without positions: before the first note that is older.
  unfoldable pub insert_sorted : QString → List QString → List QString
  insert_sorted note_id [] = note_id ∷ []
  insert_sorted note_id (x ∷ note_ids) =
      if ltb (timestamp_of x) (timestamp_of note_id)
      then note_id ∷ x ∷ note_ids
      else x ∷ insert_sorted note_id note_ids

  position_loop-le :
      (t required i : ℕ) (note_ids : List QString)
      → required ≡ i + length note_ids
      → (i ≤ position_loop timestamp_of t required i note_ids)
        × (position_loop timestamp_of t required i note_ids ≤ required)
  unfolding position_loop
  position_loop-le t required i [] h = omega arith
  position_loop-le t required i (x ∷ note_ids) h =
      ground (arith, position_loop-le t required (suc i) note_ids (omega arith))

  insert_at-eq-insert_sorted :
      (note_id : QString) (required i : ℕ) (note_ids : List QString)
      → required ≡ i + length note_ids
      → insert_at
          (position_loop timestamp_of (timestamp_of note_id) required i note_ids - i)
          note_id
          note_ids
        ≡ insert_sorted note_id note_ids
  unfolding position_loop insert_sorted
  insert_at-eq-insert_sorted note_id required i [] h =
      let e : required - i ≡ 0 = omega arith in rw e
  insert_at-eq-insert_sorted note_id required i (x ∷ note_ids) h =
      let t = timestamp_of note_id in
      let later = position_loop timestamp_of t required (suc i) note_ids in
      let k : required ≡ suc i + length note_ids = omega arith in
      elim (Bool-cases (ltb (timestamp_of x) t)) [
        | inl older ↦ let z : i - i ≡ 0 = omega arith in rw (older, z)
        | inr newer ↦
            let s : later - i ≡ suc (later - suc i) =
              omega (arith, position_loop-le t required (suc i) note_ids k) in
            rw (newer, s)
              (ap (◌∷◌ x) (insert_at-eq-insert_sorted note_id required (suc i) note_ids k))
      ]

  -- The position found by the loop is the place before the first older note.
  pub insert_in_order-eq-insert_sorted :
      (note_id : QString) (note_ids : List QString)
      → insert_in_order timestamp_of note_id note_ids ≡ insert_sorted note_id note_ids
  unfolding insert_in_order
  insert_in_order-eq-insert_sorted note_id note_ids =
      let t = timestamp_of note_id in
      let p = position_loop timestamp_of t (length note_ids) 0 note_ids in
      let e : p - 0 ≡ p = omega arith in
      rw (← e) (insert_at-eq-insert_sorted note_id (length note_ids) 0 note_ids (omega arith))

  pub position-le :
      (note_id : QString) (note_ids : List QString)
      → note_insertion_position timestamp_of note_id note_ids ≤ length note_ids
  unfolding note_insertion_position
  position-le note_id note_ids =
      (position_loop-le (timestamp_of note_id) (length note_ids) 0 note_ids (omega arith)).1

  insert_sorted-IsSorted :
      (note_id : QString) (note_ids : List QString)
      → IsSorted note_ids
      → IsSorted (insert_sorted note_id note_ids)
  unfolding insert_sorted
  insert_sorted-IsSorted note_id [] h = tt
  insert_sorted-IsSorted note_id (x ∷ []) h = ground arith
  insert_sorted-IsSorted note_id (x ∷ y ∷ note_ids) h =
      ground (arith, insert_sorted-IsSorted note_id (y ∷ note_ids) h.1)

  -- Inserting a note at the computed position keeps a list sorted by time, latest first.
  pub insert_in_order-IsSorted :
      (note_id : QString) (note_ids : List QString)
      → IsSorted note_ids
      → IsSorted (insert_in_order timestamp_of note_id note_ids)
  insert_in_order-IsSorted note_id note_ids h =
      rw insert_in_order-eq-insert_sorted (insert_sorted-IsSorted note_id note_ids h)

  IsSorted-head :
      (x : QString) (note_ids : List QString) (a : QString)
      → IsSorted (x ∷ note_ids)
      → contains note_ids a ≡ true
      → timestamp_of a ≤ timestamp_of x
  unfolding contains
  IsSorted-head x [] a h k = cc
  IsSorted-head x (y ∷ note_ids) a h k = ground (arith, IsSorted-head y note_ids a h.1)

  IsSorted-cons :
      (x : QString) (note_ids : List QString)
      → ((a : QString) → contains note_ids a ≡ true → timestamp_of a ≤ timestamp_of x)
      → IsSorted note_ids
      → IsSorted (x ∷ note_ids)
  unfolding contains
  IsSorted-cons x [] h s = tt
  IsSorted-cons x (y ∷ note_ids) h s = (h y (ground arith), s)

  IsSorted-tail :
      (x : QString) (note_ids : List QString) → IsSorted (x ∷ note_ids) → IsSorted note_ids
  IsSorted-tail x [] h = tt
  IsSorted-tail x (y ∷ note_ids) h = h.1

  pub remove_one-IsSorted :
      (note_ids : List QString) (a : QString) → IsSorted note_ids → IsSorted (remove_one note_ids a)
  unfolding remove_one
  remove_one-IsSorted [] a h = tt
  remove_one-IsSorted (x ∷ note_ids) a h = elim (text_dec x a) [
    | yes p ↦ rw (if_pos _ p) (IsSorted-tail x note_ids h)
    | no p ↦ rw (if_neg _ p) (
        IsSorted-cons x (remove_one note_ids a)
          (λ b k. IsSorted-head x note_ids b h (remove_one-contains note_ids a b k))
          (remove_one-IsSorted note_ids a (IsSorted-tail x note_ids h)))
  ]

  pub keep-IsSorted :
      (p : QString → Bool) (note_ids : List QString)
      → IsSorted note_ids
      → IsSorted (keep p note_ids)
  keep-IsSorted p [] h = tt
  keep-IsSorted p (x ∷ note_ids) h = elim (Bool-cases (p x)) [
    | inl e ↦ rw (keep_yes p x note_ids e) (
        IsSorted-cons x (keep p note_ids)
          (λ b k. IsSorted-head x note_ids b h (ground (arith, contains-keep p note_ids b)))
          (keep-IsSorted p note_ids (IsSorted-tail x note_ids h)))
    | inr e ↦ rw (keep_no p x note_ids e) (keep-IsSorted p note_ids (IsSorted-tail x note_ids h))
  ]

-- A list stays sorted while the times of its own notes stay.
pub IsSorted-agree :
    (timestamp_of timestamp_of' : QString → ℕ) (note_ids : List QString)
    → ((a : QString) → contains note_ids a ≡ true → timestamp_of' a ≡ timestamp_of a)
    → IsSorted timestamp_of note_ids
    → IsSorted timestamp_of' note_ids
unfolding contains
IsSorted-agree f g [] h s = tt
IsSorted-agree f g (x ∷ []) h s = tt
IsSorted-agree f g (x ∷ y ∷ note_ids) h s = (
  ground (arith, h x, h y, text_eq_refl x, text_eq_refl y),
  IsSorted-agree f g (y ∷ note_ids) (λ a k. h a (ground arith)) s.1,
)
