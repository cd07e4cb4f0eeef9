-- ===== src/NotesList/Order.antt =====
-- The notes of the list stand by time, latest first.
use notekeeper_open.Base.{
  ◌≡◌, ◌≢◌, refl, Option-cases, true, false, Option, none, some, List, [], QString, is_empty,
  contains, index_of, IsDistinct, inl, inr,
}
use notekeeper_open.Base.Members.{index_of-none, remove_one}
use notekeeper_open.Storage.Order.Sorted.{
  IsSorted, insert_in_order-IsSorted, remove_one-IsSorted, keep-IsSorted, IsSorted-agree,
}
use notekeeper_open.NotesList.{
  NotesListType, all_notes, trash_notes, loaded_ids, ordered_ids, fill, load, Storage, Model,
  Update,
}
use notekeeper_open.NotesList.Effect.{
  Effect, stays, redraws, inserts, removes, moves, notify-Effect,
}
use notekeeper_open.NotesList.Slots.{
  Notice, display_data_changed, notify, note_display_data_changed,
}
use notekeeper_open.NotesList.Distinct.{removed_absent, removed_ids, inserted_ids}

Effect-IsSorted :
    (st : Storage) (m : Model) (u : Update)
    → Effect st m u
    → IsSorted st.timestamp_of m.note_ids
    → IsSorted st.timestamp_of u.0.note_ids
Effect-IsSorted st m u (stays e) h = rw e h
Effect-IsSorted st m u (redraws note_id pos p e) h = rw e h
Effect-IsSorted st m u (inserts note_id a e) h =
    rw (e, inserted_ids) (insert_in_order-IsSorted st.timestamp_of note_id m.note_ids h)
Effect-IsSorted st m u (removes note_id pos p e) h =
    rw (e, removed_ids m note_id pos p) (remove_one-IsSorted st.timestamp_of m.note_ids note_id h)
Effect-IsSorted st m u (moves note_id pos p e) h =
    rw (e, inserted_ids, removed_ids m note_id pos p)
      (insert_in_order-IsSorted st.timestamp_of note_id (remove_one m.note_ids note_id)
        (remove_one-IsSorted st.timestamp_of m.note_ids note_id h))

-- Every notice keeps a list sorted by the storage's times, latest first, that is so before.
pub notify-IsSorted :
    (st : Storage) (n : Notice) (m : Model)
    → IsSorted st.timestamp_of m.note_ids
    → IsSorted st.timestamp_of (notify st n m).0.note_ids
notify-IsSorted st n m h = Effect-IsSorted st m (notify st n m) (notify-Effect st m n) h

absent_ne :
    (note_ids : List QString) (a b : QString)
    → contains note_ids a ≡ false
    → contains note_ids b ≡ true
    → a ≢ b
absent_ne note_ids a b h k e = cc

-- When the time of one note has changed, the notice of it restores the order of the list, which
-- was sorted by the old times and has no note twice.
pub display_data_changed-IsSorted :
    (st st' : Storage) (note_id : QString) (m : Model)
    → is_empty note_id ≡ false
    → ((a : QString) → note_id ≢ a → st'.timestamp_of a ≡ st.timestamp_of a)
    → IsDistinct m.note_ids
    → IsSorted st.timestamp_of m.note_ids
    → IsSorted st'.timestamp_of (notify st' (display_data_changed note_id true) m).0.note_ids
unfolding notify note_display_data_changed
display_data_changed-IsSorted st st' note_id m present same d h =
    elim (Option-cases (index_of m.note_ids note_id)) [
      | inl miss ↦
          rw (present, miss)
            (IsSorted-agree st.timestamp_of st'.timestamp_of m.note_ids
              (λ a k.
                same a (absent_ne m.note_ids note_id a (index_of-none m.note_ids note_id miss) k))
              h)
      | inr (pos, hit) ↦
          let rest = remove_one m.note_ids note_id in
          rw (present, hit)
            (rw (inserted_ids, removed_ids m note_id pos hit)
              (insert_in_order-IsSorted st'.timestamp_of note_id rest (
                IsSorted-agree st.timestamp_of st'.timestamp_of rest
                  (λ a k. same a (absent_ne rest note_id a (removed_absent m.note_ids note_id d) k))
                  (remove_one-IsSorted st.timestamp_of m.note_ids note_id h))))
    ]

ordered_ids-IsSorted :
    (st : Storage) (type : NotesListType) (new_ids : List QString)
    → type ≢ trash_notes
    → IsSorted st.timestamp_of (st.list_note_ids all_notes [])
    → IsSorted st.timestamp_of (ordered_ids st type new_ids)
unfolding ordered_ids
ordered_ids-IsSorted st trash_notes new_ids h s = absurd (h refl)
ordered_ids-IsSorted st all_notes new_ids h s = s
ordered_ids-IsSorted st _ new_ids h s =
    keep-IsSorted st.timestamp_of (contains new_ids) (st.list_note_ids all_notes []) s

fill-IsSorted :
    (st : Storage) (o : Option (List QString)) (m : Model)
    → m.list_type ≢ trash_notes
    → IsSorted st.timestamp_of (st.list_note_ids all_notes [])
    → IsSorted st.timestamp_of m.note_ids
    → IsSorted st.timestamp_of (fill st o m).0.note_ids
unfolding fill
fill-IsSorted st none m h s e = e
fill-IsSorted st (some new_ids) m h s e = ordered_ids-IsSorted st m.list_type new_ids h s

-- A list that is loaded, of any type but the trash, is sorted by the storage's times, latest first,
-- if the list of all notes is.
pub load-IsSorted :
    (st : Storage) (m : Model)
    → m.list_type ≢ trash_notes
    → IsSorted st.timestamp_of (st.list_note_ids all_notes [])
    → IsSorted st.timestamp_of (load st m).0.note_ids
unfolding load
load-IsSorted st m h s =
    fill-IsSorted st (loaded_ids st m.list_type m.query) (record m { note_ids = [] }) h s tt
