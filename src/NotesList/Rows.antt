-- ===== src/NotesList/Rows.antt =====
-- The rows that a view is told of are the rows of the model: replaying the signals of an update on
-- a count of rows gives the model's count, and every range of rows is in bounds.
use notekeeper_open.Base.{
  ℕ, zero, suc, ◌+◌, ◌-◌, ◌<◌, ◌≡◌, refl, ap, sym, ◌&&◌, Option, none, some, List, [], ◌∷◌, ◌++◌,
  QString, length, is_empty, ltb, leb, if◌then◌else◌, arith, index_of, contains, ◌∙◌,
  length-insert_at, length-remove_at, length-append, keep, not,
}
use notekeeper_open.Storage.Order.{note_insertion_position}
use notekeeper_open.Storage.Order.Sorted.{position-le}
use notekeeper_open.NotesList.Effect.{
  Effect, stays, redraws, inserts, removes, moves, notify-Effect,
}
use notekeeper_open.NotesList.Slots.{
  Notice, notify, Command, notice, set_query, clear_query, clear_list, append, step, play,
}
use notekeeper_open.NotesList.{
  NotesListType, loaded_ids, Storage, Model, ViewSignal, rows_removed, rows_inserted, data_changed,
  note_count_changed, Update, and_then, insert_note, remove_note_at, clear, load, fill,
  set_notes_list_query, append_note_ids, clear_notes_list_query,
}

-- The rows of a view after the signals, or `none` where a range is not one of its rows.
unfoldable pub row_count : ℕ → List ViewSignal → Option ℕ
row_count n [] = some n
row_count n (rows_removed first last ∷ signals) =
    let rest = row_count (n - (last + 1 - first)) signals in
    if leb first last && ltb last n then rest else none
row_count n (rows_inserted first last ∷ signals) =
    let rest = row_count (n + (last + 1 - first)) signals in
    if leb first last && leb first n then rest else none
row_count n (data_changed pos ∷ signals) =
    let rest = row_count n signals in if ltb pos n then rest else none
row_count n (note_count_changed ∷ signals) = row_count n signals

abbrev pub InStep : Model → Update → Type 0
InStep m u = row_count (length m.note_ids) u.1 ≡ some (length u.0.note_ids)

row_count-append :
    (n k : ℕ) (a b : List ViewSignal)
    → row_count n a ≡ some k
    → row_count n (a ++ b) ≡ row_count k b
unfolding row_count
row_count-append n k [] b h = ground arith
row_count-append n k (rows_removed f l ∷ a) b h =
    ground (arith, row_count-append (n - (l + 1 - f)) k a b)
row_count-append n k (rows_inserted f l ∷ a) b h =
    ground (arith, row_count-append (n + (l + 1 - f)) k a b)
row_count-append n k (data_changed p ∷ a) b h = ground (arith, row_count-append n k a b)
row_count-append n k (note_count_changed ∷ a) b h = row_count-append n k a b h

and_then-InStep :
    (m : Model) (u : Update) (f : Model → Update)
    → InStep m u
    → InStep u.0 (f u.0)
    → InStep m (and_then u f)
and_then-InStep m u f h k =
    row_count-append (length m.note_ids) (length u.0.note_ids) u.1 (f u.0).1 h ∙ k

insert_note-InStep :
    (st : Storage) (note_id : QString) (m : Model) → InStep m (insert_note st note_id m)
unfolding insert_note row_count
insert_note-InStep st note_id m =
    let pos = note_insertion_position st.timestamp_of note_id m.note_ids in
    ground (
      arith,
      position-le st.timestamp_of note_id m.note_ids,
      length-insert_at pos note_id m.note_ids,
    )

index_of-lt : (xs : List QString) (a : QString) (i : ℕ) → index_of xs a ≡ some i → i < length xs
unfolding index_of
index_of-lt [] a i h = cc
index_of-lt (x ∷ xs) a zero h = omega arith
index_of-lt (x ∷ xs) a (suc i) h = ground (arith, index_of-lt xs a i)

remove_note_at-InStep :
    (pos : ℕ) (m : Model) → pos < length m.note_ids → InStep m (remove_note_at pos m)
unfolding remove_note_at row_count
remove_note_at-InStep pos m h = ground (arith, length-remove_at pos m.note_ids)

removed_all :
    (xs : List QString) (rest : List ViewSignal)
    → row_count
        (length xs)
        ((if is_empty xs then [] else rows_removed 0 (length xs - 1) ∷ []) ++ rest)
      ≡ row_count 0 rest
unfolding row_count
removed_all [] rest = refl
removed_all (x ∷ xs) rest = ground arith

inserted_all :
    (k last : ℕ) (xs : List QString) (rest : List ViewSignal)
    → last ≡ k + length xs - 1
    → row_count k ((if is_empty xs then [] else rows_inserted k last ∷ []) ++ rest)
      ≡ row_count (k + length xs) rest
unfolding row_count
inserted_all k last [] rest h = let e : k + 0 ≡ k = omega arith in rw e
inserted_all k last (x ∷ xs) rest h =
    let e : k + (last + 1 - k) ≡ k + suc (length xs) = omega arith in rw e (ground arith)

clear-InStep : (m : Model) → InStep m (clear m)
unfolding clear
clear-InStep m = removed_all m.note_ids (note_count_changed ∷ []) ∙ unfold row_count in refl

fill-InStep :
    (st : Storage) (new_ids : Option (List QString)) (m : Model)
    → m.note_ids ≡ []
    → InStep m (fill st new_ids m)
unfolding fill
fill-InStep st none m h = unfold row_count in refl
fill-InStep st (some new_ids) m h =
    let updated = (fill st (some new_ids) m).0.note_ids in
    rw h (
      inserted_all 0 (length updated - 1) updated (note_count_changed ∷ []) (omega arith)
      ∙ unfold row_count in ground arith)

emptied-InStep :
    (xs : List QString)
    → row_count (length xs) (if is_empty xs then [] else rows_removed 0 (length xs - 1) ∷ [])
      ≡ some 0
unfolding row_count
emptied-InStep [] = refl
emptied-InStep (x ∷ xs) = ground arith

load-InStep : (st : Storage) (m : Model) → InStep m (load st m)
unfolding load
load-InStep st m =
    and_then-InStep m
      (
        record m { note_ids = [] },
        if is_empty m.note_ids then [] else rows_removed 0 (length m.note_ids - 1) ∷ [],
      )
      (fill st (loaded_ids st m.list_type m.query)) (emptied-InStep m.note_ids)
      (fill-InStep st (loaded_ids st m.list_type m.query) (record m { note_ids = [] }) refl)

set_notes_list_query-InStep :
    (st : Storage) (type : NotesListType) (query : QString) (m : Model)
    → InStep m (set_notes_list_query st type query m)
unfolding set_notes_list_query row_count
set_notes_list_query-InStep st type query m =
    ground (arith, load-InStep st (record m { list_type = type; query = query }))

append_note_ids-InStep : (new_ids : List QString) (m : Model) → InStep m (append_note_ids new_ids m)
unfolding append_note_ids
append_note_ids-InStep new_ids m =
    let count = length m.note_ids in
    let note_ids =
      if ltb 0 count
      then keep (λ note_id. not (contains m.note_ids note_id)) new_ids
      else new_ids in
    inserted_all count (count + length note_ids - 1) note_ids (note_count_changed ∷ []) refl
    ∙ unfold row_count in ap some (sym (length-append m.note_ids note_ids))

module _ (st : Storage) where
  move_note-InStep :
      (note_id : QString) (m : Model) (pos : ℕ)
      → index_of m.note_ids note_id ≡ some pos
      → InStep m (and_then (remove_note_at pos m) (insert_note st note_id))
  move_note-InStep note_id m pos h =
      and_then-InStep m (remove_note_at pos m) (insert_note st note_id)
        (remove_note_at-InStep pos m (index_of-lt m.note_ids note_id pos h))
        (insert_note-InStep st note_id (remove_note_at pos m).0)

  Effect-InStep : (m : Model) (u : Update) → Effect st m u → InStep m u
  Effect-InStep m u (stays e) = rw e (unfold row_count in refl)
  Effect-InStep m u (redraws note_id pos p e) =
      rw e (unfold row_count in ground (arith, index_of-lt m.note_ids note_id pos p))
  Effect-InStep m u (inserts note_id a e) = rw e (insert_note-InStep st note_id m)
  Effect-InStep m u (removes note_id pos p e) =
      rw e (remove_note_at-InStep pos m (index_of-lt m.note_ids note_id pos p))
  Effect-InStep m u (moves note_id pos p e) = rw e (move_note-InStep note_id m pos p)

  -- After any notice the rows that the view was told of are the rows of the list.
  pub notify-InStep : (n : Notice) (m : Model) → InStep m (notify st n m)
  notify-InStep n m = Effect-InStep m (notify st n m) (notify-Effect st m n)

step-InStep : (st : Storage) (c : Command) (m : Model) → InStep m (step st c m)
unfolding step
step-InStep st (notice n) m = notify-InStep st n m
step-InStep st (set_query type query) m = set_notes_list_query-InStep st type query m
step-InStep st clear_query m = unfold clear_notes_list_query in clear-InStep m
step-InStep st clear_list m = clear-InStep m
step-InStep st (append note_ids) m = append_note_ids-InStep note_ids m

-- Over any run of notices and calls, with a storage that changes in between, the rows removed and
-- inserted stay within the rows that there are, and add up to the rows of the list.
pub play-InStep : (commands : List (Storage × Command)) (m : Model) → InStep m (play commands m)
unfolding play
play-InStep [] m = unfold row_count in refl
play-InStep ((st, c) ∷ commands) m =
    and_then-InStep m (step st c m) (play commands) (step-InStep st c m)
      (play-InStep commands (step st c m).0)
