-- ===== src/Storage/Notes/Listed.antt =====
-- The list of all notes in its order, latest first, after a note's time has changed.
use notekeeper_open.Base.{
  ℕ, zero, suc, ◌≡◌, refl, sym, subst, false, Option, none, some, List, [], ◌∷◌, QString, is_empty,
  contains, if◌then◌else◌, arith, Bool-cases, inl, inr, All, text_dec, text_eq, index_of, insert_at,
  IsDistinct,
}
use notekeeper_open.Base.Split.{IsId}
use notekeeper_open.Base.Members.{
  remove_one, index_of-none, index_of-some, contains-remove_one, contains-insert_at,
}
use notekeeper_open.Storage.Order.{insert_in_order, note_insertion_position}
use notekeeper_open.Storage.Order.Sorted.{
  IsSorted, insert_in_order-IsSorted, remove_one-IsSorted, IsSorted-agree,
}
use notekeeper_open.Storage.Signals.{Qt}
use notekeeper_open.Storage.Ini.{
  Store, text, number, value, set_value, to_string, notes_list, note_gist, note_ids, title,
  updated_time,
}
use notekeeper_open.Storage.Collection.{ids_list}
use notekeeper_open.Storage.Collection.Laws.{HasIds, remove_one-IsId, ids_list-set}
use notekeeper_open.Storage.Collection.Members.{IsIdList}
use notekeeper_open.Storage.Notes.{
  timestamp_of, set_note_ids, move_in_list, update_notes_list_order, update_note_title,
  legalized_note_title,
}

-- The list after its note `note_id` was moved to its place.
abbrev pub reordered : (QString → ℕ) → QString → List QString → List QString
reordered time note_id ids =
    if contains ids note_id then insert_in_order time note_id (remove_one ids note_id) else ids

insert_at-IsId :
    (i : ℕ) (a : QString) (xs : List QString) → IsId a → All IsId xs → All IsId (insert_at i a xs)
insert_at-IsId zero a xs h k = (h, k)
insert_at-IsId (suc i) a [] h k = (h, tt)
insert_at-IsId (suc i) a (x ∷ xs) h k = (k.0, insert_at-IsId i a xs h k.1)

abbrev pub all_ids : Store → List QString
all_ids s = ids_list s notes_list note_ids

-- Latest first.
abbrev pub IsInOrder : Store → Type 0
IsInOrder s = IsSorted (timestamp_of s) (all_ids s)

module _ (s : Store) (note_id : QString) where
  timestamp_of-move_in_list :
      (ids : List QString) (o : Option ℕ) (a : QString)
      → timestamp_of (move_in_list s note_id ids o) a ≡ timestamp_of s a
  unfolding move_in_list set_note_ids timestamp_of value set_value
  timestamp_of-move_in_list ids none a = refl
  timestamp_of-move_in_list ids (some pos) a = refl

  pub timestamp_of-update_notes_list_order :
      (a : QString) → timestamp_of (update_notes_list_order s note_id) a ≡ timestamp_of s a
  unfolding update_notes_list_order
  timestamp_of-update_notes_list_order a = elim (Bool-cases (is_empty note_id)) [
    | inl e ↦ rw e refl
    | inr e ↦ rw e (timestamp_of-move_in_list (all_ids s) (index_of (all_ids s) note_id) a)
  ]

  ids_list-move_in_list :
      (o : Option ℕ)
      → index_of (all_ids s) note_id ≡ o
      → HasIds s notes_list note_ids
      → IsId note_id
      → all_ids (move_in_list s note_id (all_ids s) o)
        ≡ reordered (timestamp_of s) note_id (all_ids s)
  unfolding move_in_list set_note_ids
  ids_list-move_in_list none e h i = rw (index_of-none (all_ids s) note_id e) refl
  ids_list-move_in_list (some pos) e h i =
      let (c, r) = index_of-some (all_ids s) note_id pos e in
      let inserted = insert_in_order (timestamp_of s) note_id (remove_one (all_ids s) note_id) in
      rw (c, r)
        (ids_list-set s notes_list note_ids notes_list note_ids inserted (
          unfold insert_in_order in
          insert_at-IsId
            (note_insertion_position (timestamp_of s) note_id (remove_one (all_ids s) note_id))
            note_id (remove_one (all_ids s) note_id) i (remove_one-IsId (all_ids s) note_id h)))

  pub ids_list-update_notes_list_order :
      HasIds s notes_list note_ids
      → IsId note_id
      → all_ids (update_notes_list_order s note_id) ≡ reordered (timestamp_of s) note_id (all_ids s)
  unfolding update_notes_list_order
  ids_list-update_notes_list_order h i =
      rw i.0 (ids_list-move_in_list (index_of (all_ids s) note_id) refl h i)

  -- Moving a note to its place keeps the same notes in the list of all notes, when that is a
  -- list of different ids and the note's id is an id.
  pub contains-update_notes_list_order :
      (a : QString)
      → IsIdList s notes_list note_ids
      → IsId note_id
      → contains (all_ids (update_notes_list_order s note_id)) a ≡ contains (all_ids s) a
  unfolding insert_in_order
  contains-update_notes_list_order a h i = rw (ids_list-update_notes_list_order h.ids i) (
      ground (
        arith,
        contains-insert_at
            (note_insertion_position (timestamp_of s) note_id (remove_one (all_ids s) note_id))
            note_id (remove_one (all_ids s) note_id) a,
        contains-remove_one (all_ids s) note_id a h.distinct,
      ))

-- A list of ids sorted by the times of another store, where only the note's own time differs.
reordered-IsSorted :
    (time time' : QString → ℕ) (note_id : QString) (ids : List QString)
    → ((a : QString) → text_eq note_id a ≡ false → time' a ≡ time a)
    → IsDistinct ids
    → IsSorted time ids
    → IsSorted time' (reordered time' note_id ids)
reordered-IsSorted time time' note_id ids agree d h = elim (Bool-cases (contains ids note_id)) [
  | inl c ↦ rw c (
      insert_in_order-IsSorted time' note_id (remove_one ids note_id) (
        IsSorted-agree time time' (remove_one ids note_id)
          (λ a k. agree a (ground (arith, contains-remove_one ids note_id a d)))
          (remove_one-IsSorted time ids note_id h)))
  | inr c ↦
      rw c (IsSorted-agree time time' ids (λ a k. agree a (ground (arith, text_dec note_id a))) h)
]

module _ (s : Store) (now : ℕ) (note_id new_title : QString) where
  abbrev retitled : Store
  retitled =
      set_value (set_value s (note_gist note_id) title (text new_title)) (note_gist note_id)
        updated_time (number now)

  timestamp_of-retitled :
      (a : QString) → text_eq note_id a ≡ false → timestamp_of retitled a ≡ timestamp_of s a
  unfolding timestamp_of value set_value
  timestamp_of-retitled a h = ground (arith, h)

  all_ids-retitled : all_ids retitled ≡ all_ids s
  unfolding ids_list value set_value
  all_ids-retitled = refl

  retitled-IsInOrder :
      IsId note_id
      → IsIdList s notes_list note_ids
      → IsInOrder s
      → IsInOrder (update_notes_list_order retitled note_id)
  retitled-IsInOrder i h k =
      IsSorted-agree (timestamp_of retitled) _ _
        (λ a c. timestamp_of-update_notes_list_order retitled note_id a)
        (rw
          (
            ids_list-update_notes_list_order retitled note_id (rw all_ids-retitled h.ids) i,
            all_ids-retitled,
          )
          (reordered-IsSorted (timestamp_of s) (timestamp_of retitled) note_id (all_ids s)
            timestamp_of-retitled h.distinct k))

update_note_title-store :
    (qt : Qt) (s : Store) (now : ℕ) (note_id raw_title : QString)
    → IsId note_id
    → (update_note_title qt s now note_id raw_title).0 ≡ (
        if text_eq
          (to_string (value s (note_gist note_id) title))
          (legalized_note_title qt raw_title)
        then s
        else update_notes_list_order
            (retitled s now note_id (legalized_note_title qt raw_title))
            note_id)
unfolding update_note_title
update_note_title-store qt s now note_id raw_title i =
    elim (Bool-cases (
      text_eq (to_string (value s (note_gist note_id) title))
        (legalized_note_title qt raw_title))) [
          | inl q ↦ rw q (ground (arith, i.0, q))
          | inr q ↦ rw q (ground (arith, i.0, q))
        ]

-- Giving a note another title, at any time, keeps the list of all notes sorted, latest first, by the
-- times of its notes, whether the title differs or not, when the list is one of different ids.
pub update_note_title-IsInOrder :
    (qt : Qt) (s : Store) (now : ℕ) (note_id raw_title : QString)
    → IsId note_id
    → IsIdList s notes_list note_ids
    → IsInOrder s
    → IsInOrder (update_note_title qt s now note_id raw_title).0
update_note_title-IsInOrder qt s now note_id raw_title i h k =
    let new_title = legalized_note_title qt raw_title in
    subst IsInOrder (sym (update_note_title-store qt s now note_id raw_title i))
      (elim (Bool-cases (text_eq (to_string (value s (note_gist note_id) title)) new_title)) [
        | inl q ↦ rw q k
        | inr q ↦ rw q (retitled-IsInOrder s now note_id new_title i h k)
      ])
