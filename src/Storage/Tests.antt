-- ===== src/Storage/Tests.antt =====
-- The storage manager at concrete inputs.
mod Contents
mod Data
use notekeeper_open.Base.{
  ◌≤◌, ◌<◌, ◌^◌, ◌≡◌, refl, sym, true, false, ◌||◌, none, some, [], ◌∷◌, QString, lit, text_eq,
  text_dec, contains, is_empty, length, get_elem?, if◌then◌else◌, arith, Bool-cases, inl, inr,
}
use notekeeper_open.Base.Split.{IsId, ids_of, split, join}
use notekeeper_open.Base.Members.{remove_one, text_eq_refl}
use notekeeper_open.NotesList.{Model, notes_in_notebook}
use notekeeper_open.NotesList.Slots.{trashedness_changed}
use notekeeper_open.Storage.Order.{insert_in_order, note_timestamp}
use notekeeper_open.Storage.Order.Sorted.{
  IsSorted, insert_sorted, insert_in_order-eq-insert_sorted, insert_in_order-IsSorted,
}
use notekeeper_open.Storage.Signals.{notice, Qt}
use notekeeper_open.Storage.Ini.{
  notes_list, notes_by_guid, note_gist, notebooks_list, notebook_ini, favourites_list, trash_list,
  recents_ini, note_ids, notebook_ids, notebook_id, default_notebook_id, guid, entry, updated_time,
  recent_searches, invalid, text, texts, number, Store, value, set_value, at_key,
}
use notekeeper_open.Storage.Collection.{ids_list, add_object_id, remove_object_id}
use notekeeper_open.Storage.Collection.Laws.{
  HasIds, add_to, ids_list-add_object_id, ids_list-remove_object_id,
}
use notekeeper_open.Storage.Collection.Members.{IsIdList}
use notekeeper_open.Storage.Objects.{print_06x}
use notekeeper_open.Storage.Notebooks.{set_notebook_for_note, get_default_notebook_id}
use notekeeper_open.Storage.Notebooks.Placed.{notebook_of, IsPlaced, set_notebook_for_note-IsPlaced}
use notekeeper_open.Storage.Notebooks.Expunge.{move_notes, expunge_notebook}
use notekeeper_open.Storage.Notebooks.Emptied.{move_notes-empties}
use notekeeper_open.Storage.Notebooks.Default.{expunge_notebook_default}
use notekeeper_open.Storage.Notes.{
  timestamp_of, guid_for_note_id, note_id_for_guid, update_notes_list_order, update_note_title,
  is_note_content_up_to_date,
}
use notekeeper_open.Storage.Notes.Listed.{
  IsInOrder, all_ids, contains-update_notes_list_order, update_note_title-IsInOrder,
}
use notekeeper_open.Storage.Trash.{expunge_note_from_trash, is_trash_note, move_note_to_trash}
use notekeeper_open.Storage.Trash.{is_favourite_note, set_favourite_note}
use notekeeper_open.Storage.Trash.Favourites.{IsFlagged, set_favourite_note-IsFlagged}
use notekeeper_open.Storage.Trash.Guids.{expunge_note_from_trash_forgets_guids}
use notekeeper_open.Storage.Trash.Lists.{IsTidy, is_listed, move_note_to_trash-lists}
use notekeeper_open.Storage.Recents.{recent_search_queries, set_recent_search_query}
use notekeeper_open.Storage.Recents.Bounds.{
  set_recent_search_query_bound, set_recent_search_query_front,
}
use notekeeper_open.Storage.Interface.Views.{deliver, IsShown, set_notebook_for_note-IsShown}
use notekeeper_open.Storage.Tests.Data.{
  plain_qt, n1, n2, b1, b2, two_notes, n1-IsId, n2-IsId, b1-IsId, b2-IsId, n3-IsId, two_notes-all,
  two_notes-IsTidy, two_notes-notebooks, two_notes-IsInOrder, one_note, one_note-IsIdList,
  one_note-placed, one_note-IsPlaced,
}

-- The note that is emptied out of its notebook.
emptied : ids_list (move_notes one_note b2 (n1 ∷ [])).0 (notebook_ini b2) note_ids ≡ n1 ∷ []
unfolding move_notes ids_list value set_value ids_of split text_dec join contains one_note
emptied = refl

insert_in_order-eq-insert_sorted_example :
    insert_in_order (timestamp_of two_notes) n2 (n1 ∷ [])
    ≡ insert_sorted (timestamp_of two_notes) n2 (n1 ∷ [])
insert_in_order-eq-insert_sorted_example =
    insert_in_order-eq-insert_sorted (timestamp_of two_notes) n2 (n1 ∷ [])

set_notebook_for_note-IsPlaced_example : IsPlaced (set_notebook_for_note one_note n1 b2).0
set_notebook_for_note-IsPlaced_example =
    set_notebook_for_note-IsPlaced one_note n1 b2 n1-IsId one_note-IsPlaced

move_notes-empties_example :
    ids_list
      (move_notes one_note b2 (ids_list one_note (notebook_ini b1) note_ids)).0
      (notebook_ini b1)
      note_ids
    ≡ []
unfolding text_dec
move_notes-empties_example = move_notes-empties one_note b1 b2 refl refl refl one_note-IsPlaced

expunge_notebook_default_example :
    expunge_notebook two_notes (get_default_notebook_id two_notes) ≡ (two_notes, [])
unfolding ids_list value ids_of split contains text_dec two_notes
expunge_notebook_default_example =
    expunge_notebook_default two_notes b2 two_notes-notebooks refl refl

update_note_title-IsInOrder_example :
    IsInOrder (update_note_title plain_qt two_notes 3 n1 (lit "red")).0
update_note_title-IsInOrder_example =
    update_note_title-IsInOrder plain_qt two_notes 3 n1 (lit "red") n1-IsId two_notes-all
      two_notes-IsInOrder

expunge_note_from_trash_forgets_guids_example :
    note_id_for_guid (expunge_note_from_trash two_notes (lit "n3")).0 (lit "g1") ≡ []
unfolding expunge_note_from_trash value ids_of split contains text_dec two_notes
expunge_note_from_trash_forgets_guids_example =
    expunge_note_from_trash_forgets_guids two_notes (lit "n3") (lit "g1") refl

move_note_to_trash-lists_example :
    (let (s', done, events) = move_note_to_trash two_notes n1 in
      (is_listed s' notes_list n2
        ≡ (if text_eq n1 n2 then false else is_listed two_notes notes_list n2))
      × (is_listed s' favourites_list n2
          ≡ (if text_eq n1 n2 then false else is_listed two_notes favourites_list n2))
      × (is_listed s' trash_list n2 ≡ (text_eq n1 n2 || is_listed two_notes trash_list n2))
      × (done ≡ true)
      × (events ≡ notice (trashedness_changed n1 true) ∷ []))
unfolding is_trash_note value two_notes
move_note_to_trash-lists_example =
    move_note_to_trash-lists two_notes n1 n2 n1-IsId two_notes-IsTidy refl

two_notes-IsFlagged : IsFlagged two_notes
unfolding is_favourite_note value two_notes ids_list ids_of split contains
two_notes-IsFlagged = record { list = two_notes-IsTidy.favourites; flagged = λ a. refl }

set_favourite_note-IsFlagged_example : IsFlagged (set_favourite_note two_notes n1 true).0
set_favourite_note-IsFlagged_example =
    set_favourite_note-IsFlagged two_notes n1 true n1-IsId two_notes-IsFlagged

abbrev shown_b1 : Model
shown_b1 = record { list_type = notes_in_notebook; query = b1; note_ids = n1 ∷ [] }

shown_b1-IsShown : IsShown one_note shown_b1
unfolding ids_list value ids_of split contains text_dec one_note
shown_b1-IsShown = record {
  type_of = refl;
  notebook = refl;
  distinct = (refl, tt);
  shown = λ a. refl;
}

set_notebook_for_note-IsShown_example :
    (let (s', moved, events) = set_notebook_for_note one_note n1 b2 in
      IsShown s' (deliver s' events shown_b1).0)
set_notebook_for_note-IsShown_example =
    set_notebook_for_note-IsShown one_note n1 b2 shown_b1 n1-IsId one_note-IsPlaced shown_b1-IsShown
