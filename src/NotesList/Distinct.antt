-- ===== src/NotesList/Distinct.antt =====
-- No note stands twice in the list; and what a notice leaves of the query.
use notekeeper_open.Base.{
  ℕ, ◌≡◌, refl, sym, subst, Bool, false, not, Option, none, some, List, [], ◌∷◌, QString, length,
  ltb, arith, contains, index_of, IsDistinct, keep, All, Bool-cases, inl, inr,
}
use notekeeper_open.Base.Members.{
  append-IsDistinct, index_of-some, insert_at-IsDistinct, remove_one, remove_one-IsDistinct,
  keep-IsDistinct, contains-remove_one, contains-keep, text_eq_refl,
}
use notekeeper_open.Storage.Order.{note_insertion_position, insert_in_order}
use notekeeper_open.NotesList.{
  NotesListType, all_notes, trash_notes, loaded_ids, ordered_ids, fill, load, Storage, Model,
  Update, insert_note, remove_note_at, set_notes_list_query, clear_notes_list_query, clear,
  append_note_ids,
}
use notekeeper_open.NotesList.Effect.{
  Effect, stays, redraws, inserts, removes, moves, notify-Effect,
}
use notekeeper_open.NotesList.Slots.{
  Notice, notify, Command, notice, set_query, clear_query, clear_list, append, step, play,
}

pub removed_ids :
    (m : Model) (note_id : QString) (pos : ℕ)
    → index_of m.note_ids note_id ≡ some pos
    → (remove_note_at pos m).0.note_ids ≡ remove_one m.note_ids note_id
unfolding remove_note_at
removed_ids m note_id pos p = (index_of-some m.note_ids note_id pos p).1

pub inserted_ids :
    (st : Storage) (m : Model) (note_id : QString)
    → (insert_note st note_id m).0.note_ids ≡ insert_in_order st.timestamp_of note_id m.note_ids
unfolding insert_note insert_in_order
inserted_ids st m note_id = refl

insert_in_order-IsDistinct :
    (timestamp_of : QString → ℕ) (note_id : QString) (note_ids : List QString)
    → contains note_ids note_id ≡ false
    → IsDistinct note_ids
    → IsDistinct (insert_in_order timestamp_of note_id note_ids)
unfolding insert_in_order
insert_in_order-IsDistinct timestamp_of note_id note_ids a d =
    insert_at-IsDistinct (note_insertion_position timestamp_of note_id note_ids) note_id note_ids a
      d

pub removed_absent :
    (note_ids : List QString) (note_id : QString)
    → IsDistinct note_ids
    → contains (remove_one note_ids note_id) note_id ≡ false
removed_absent note_ids note_id d =
    ground (arith, contains-remove_one note_ids note_id note_id d, text_eq_refl note_id)

Effect-IsDistinct :
    (st : Storage) (m : Model) (u : Update)
    → Effect st m u
    → IsDistinct m.note_ids
    → IsDistinct u.0.note_ids
Effect-IsDistinct st m u (stays e) d = rw e d
Effect-IsDistinct st m u (redraws note_id pos p e) d = rw e d
Effect-IsDistinct st m u (inserts note_id a e) d =
    rw (e, inserted_ids) (insert_in_order-IsDistinct st.timestamp_of note_id m.note_ids a d)
Effect-IsDistinct st m u (removes note_id pos p e) d =
    rw (e, removed_ids m note_id pos p) (remove_one-IsDistinct m.note_ids note_id d)
Effect-IsDistinct st m u (moves note_id pos p e) d =
    rw (e, inserted_ids, removed_ids m note_id pos p)
      (insert_in_order-IsDistinct st.timestamp_of note_id (remove_one m.note_ids note_id)
        (removed_absent m.note_ids note_id d) (remove_one-IsDistinct m.note_ids note_id d))

-- The lists that the storage holds have no note twice.
abbrev pub HasDistinctLists : Storage → Type 0
HasDistinctLists st =
    (type : NotesListType) (query : QString) → IsDistinct (st.list_note_ids type query)

ordered_ids-IsDistinct :
    (st : Storage) (type : NotesListType) (query : QString) (new_ids : List QString)
    → HasDistinctLists st
    → loaded_ids st type query ≡ some new_ids
    → IsDistinct (ordered_ids st type new_ids)
unfolding ordered_ids loaded_ids
ordered_ids-IsDistinct st trash_notes query new_ids h e =
    let p : st.list_note_ids trash_notes [] ≡ new_ids = cc in subst IsDistinct p (h trash_notes [])
ordered_ids-IsDistinct st all_notes query new_ids h e = h all_notes []
ordered_ids-IsDistinct st _ query new_ids h e =
    keep-IsDistinct (contains new_ids) (st.list_note_ids all_notes []) (h all_notes [])

fill-IsDistinct :
    (st : Storage) (o : Option (List QString)) (m : Model)
    → HasDistinctLists st
    → o ≡ loaded_ids st m.list_type m.query
    → IsDistinct m.note_ids
    → IsDistinct (fill st o m).0.note_ids
unfolding fill
fill-IsDistinct st none m h e d = d
fill-IsDistinct st (some new_ids) m h e d =
    ordered_ids-IsDistinct st m.list_type m.query new_ids h (sym e)

load-IsDistinct :
    (st : Storage) (m : Model) → HasDistinctLists st → IsDistinct (load st m).0.note_ids
unfolding load
load-IsDistinct st m h =
    fill-IsDistinct st (loaded_ids st m.list_type m.query) (record m { note_ids = [] }) h refl tt

append_note_ids-IsDistinct :
    (new_ids : List QString) (m : Model)
    → IsDistinct new_ids
    → IsDistinct m.note_ids
    → IsDistinct (append_note_ids new_ids m).0.note_ids
unfolding append_note_ids
append_note_ids-IsDistinct new_ids m h d = elim (Bool-cases (ltb 0 (length m.note_ids))) [
  | inl e ↦ rw e (
      append-IsDistinct m.note_ids (keep fresh new_ids) d (keep-IsDistinct fresh new_ids h)
        (λ a k. ground (arith, contains-keep fresh new_ids a)))
  | inr e ↦ rw (e, empty m.note_ids e) h
]
  where
    fresh : QString → Bool
    fresh note_id = not (contains m.note_ids note_id)

    empty : (xs : List QString) → ltb 0 (length xs) ≡ false → xs ≡ []
    empty [] e = refl
    empty (x ∷ xs) e = absurd (ground arith)

-- What is asked of a command: the storage's lists, and a list of search results, have no repeats.
abbrev pub IsSound : Storage × Command → Type 0
IsSound (st, append note_ids) = IsDistinct note_ids
IsSound (st, set_query type query) = HasDistinctLists st
IsSound (st, _) = Unit

step-IsDistinct :
    (st : Storage) (c : Command) (m : Model)
    → IsSound (st, c)
    → IsDistinct m.note_ids
    → IsDistinct (step st c m).0.note_ids
unfolding step
step-IsDistinct st (notice n) m h d =
    Effect-IsDistinct st m (notify st n m) (notify-Effect st m n) d
step-IsDistinct st (set_query type query) m h d =
    unfold set_notes_list_query in
    ground (arith, load-IsDistinct st (record m { list_type = type; query = query }) h)
step-IsDistinct st clear_query m h d = unfold clear_notes_list_query in tt
step-IsDistinct st clear_list m h d = unfold clear in tt
step-IsDistinct st (append note_ids) m h d = append_note_ids-IsDistinct note_ids m h d

-- Over any run of notices and calls no note comes to stand twice in the list, when the storage's
-- own lists and the lists of search results have no repeats.
pub play-IsDistinct :
    (commands : List (Storage × Command)) (m : Model)
    → All IsSound commands
    → IsDistinct m.note_ids
    → IsDistinct (play commands m).0.note_ids
unfolding play
play-IsDistinct [] m h d = d
play-IsDistinct ((st, c) ∷ commands) m h d =
    play-IsDistinct commands (step st c m).0 h.1 (step-IsDistinct st c m h.0 d)

pub notify-IsDistinct :
    (st : Storage) (n : Notice) (m : Model)
    → IsDistinct m.note_ids
    → IsDistinct (notify st n m).0.note_ids
notify-IsDistinct st n m d = Effect-IsDistinct st m (notify st n m) (notify-Effect st m n) d

Effect-same_query :
    (st : Storage) (m : Model) (u : Update)
    → Effect st m u
    → (u.0.list_type ≡ m.list_type) × (u.0.query ≡ m.query)
unfolding insert_note remove_note_at
Effect-same_query st m u (stays e) = rw e (refl, refl)
Effect-same_query st m u (redraws note_id pos p e) = rw e (refl, refl)
Effect-same_query st m u (inserts note_id a e) = rw e (refl, refl)
Effect-same_query st m u (removes note_id pos p e) = rw e (refl, refl)
Effect-same_query st m u (moves note_id pos p e) = rw e (refl, refl)

-- A notice leaves the type and the query of the list.
pub notify-same_query :
    (st : Storage) (m : Model) (n : Notice)
    → ((notify st n m).0.list_type ≡ m.list_type) × ((notify st n m).0.query ≡ m.query)
notify-same_query st m n = Effect-same_query st m (notify st n m) (notify-Effect st m n)
