-- ===== src/NotesList/Slots.antt =====
-- The slots of NotesListModel, which keep the list up to date.
use notekeeper_open.Base.{
  ℕ, Bool, false, not, ◌&&◌, Option, none, some, List, [], ◌∷◌, QString, is_empty, if◌then◌else◌,
  text_eq, contains, index_of,
}
use notekeeper_open.NotesList.{
  NotesListType, all_notes, notes_in_notebook, notes_with_tag, favourite_notes, trash_notes,
  type_eq, Storage, Model, data_changed, Update, unchanged, and_then, insert_note, remove_note_at,
  set_notes_list_query, clear_notes_list_query, clear, append_note_ids,
}

-- `int pos = m_noteIdsList.indexOf(noteId)`: the case `pos < 0`, and the case of a position.
unfoldable pub by_position : Option ℕ → Update → (ℕ → Update) → Update
by_position none absent present = absent
by_position (some pos) absent present = present pos

module _ (st : Storage) where
  unfoldable pub note_created : QString → Model → Update
  unfolding insert_note
  note_created note_id m =
      if is_empty note_id
      then unchanged m
      else if not (type_eq m.list_type all_notes)
      then unchanged m
      else if contains m.note_ids note_id
      then unchanged m
      else insert_note st note_id m

  unfoldable pub note_expunged : QString → Model → Update
  unfolding by_position remove_note_at
  note_expunged note_id m =
      if is_empty note_id
      then unchanged m
      else by_position (index_of m.note_ids note_id) (unchanged m) (λ pos. remove_note_at pos m)

  unfoldable pub note_display_data_changed : QString → Bool → Model → Update
  unfolding by_position insert_note remove_note_at
  note_display_data_changed note_id timestamp_changed m =
      if is_empty note_id
      then unchanged m
      else by_position (index_of m.note_ids note_id) (unchanged m) (λ pos.
        if timestamp_changed
        then and_then (remove_note_at pos m) (insert_note st note_id)
        else (m, data_changed pos ∷ []))

  -- A note that is in the list and should not be is removed; one that is missing is inserted.
  unfoldable pub settle : QString → Bool → Model → Update
  unfolding by_position insert_note remove_note_at
  settle note_id belongs m =
      by_position (index_of m.note_ids note_id)
        (if belongs then insert_note st note_id m else unchanged m)
        (λ pos. if belongs then unchanged m else remove_note_at pos m)

  unfoldable pub notebook_for_note_changed : QString → QString → Model → Update
  unfolding settle
  notebook_for_note_changed note_id notebook_id m =
      if is_empty note_id
      then unchanged m
      else if is_empty notebook_id
      then unchanged m
      else if type_eq m.list_type notes_in_notebook
      then settle note_id (text_eq notebook_id m.query) m
      else unchanged m

  unfoldable pub tags_for_note_changed : QString → List QString → Model → Update
  unfolding settle
  tags_for_note_changed note_id tag_ids m =
      if is_empty note_id
      then unchanged m
      else if type_eq m.list_type notes_with_tag
      then settle note_id (contains tag_ids m.query) m
      else unchanged m

  unfoldable pub note_favouriteness_changed : QString → Bool → Model → Update
  unfolding settle
  note_favouriteness_changed note_id is_favourite m =
      if is_empty note_id
      then unchanged m
      else if type_eq m.list_type favourite_notes
      then settle note_id is_favourite m
      else unchanged m

  -- Whether a note that left the trash is put back, by the type of the list. The list of all notes
  -- has no case of its own.
  unfoldable pub applies_to : NotesListType → QString → QString → Bool
  applies_to notes_in_notebook query note_id = text_eq (st.notebook_for_note note_id) query
  applies_to notes_with_tag query note_id = contains (st.tags_on_note note_id) query
  applies_to favourite_notes query note_id = st.is_favourite_note note_id
  applies_to trash_notes query note_id = st.is_trash_note note_id
  applies_to _ query note_id = false

  unfoldable pub note_trashedness_changed : QString → Bool → Model → Update
  unfolding by_position settle applies_to insert_note remove_note_at
  note_trashedness_changed note_id is_trashed m =
      if is_empty note_id
      then unchanged m
      else if type_eq m.list_type trash_notes
      then settle note_id is_trashed m
      else by_position (index_of m.note_ids note_id)
          (if not is_trashed && applies_to m.list_type m.query note_id
            then insert_note st note_id m
            else unchanged m)
          (λ pos. if is_trashed then remove_note_at pos m else unchanged m)

-- The signals of the storage manager that the model listens to.
pub data Notice : Type 0 where
  created : QString → Notice
  expunged : QString → Notice
  display_data_changed : QString → Bool → Notice
  notebook_changed : QString → QString → Notice
  tags_changed : QString → List QString → Notice
  favouriteness_changed : QString → Bool → Notice
  trashedness_changed : QString → Bool → Notice

unfoldable pub notify : Storage → Notice → Model → Update
notify st (created note_id) m = note_created st note_id m
notify st (expunged note_id) m = note_expunged st note_id m
notify st (display_data_changed note_id t) m = note_display_data_changed st note_id t m
notify st (notebook_changed note_id notebook_id) m =
    notebook_for_note_changed st note_id notebook_id m
notify st (tags_changed note_id tag_ids) m = tags_for_note_changed st note_id tag_ids m
notify st (favouriteness_changed note_id f) m = note_favouriteness_changed st note_id f m
notify st (trashedness_changed note_id t) m = note_trashedness_changed st note_id t m

-- All that happens to the model: a notice, or a call from the user interface.
pub data Command : Type 0 where
  notice : Notice → Command
  set_query : NotesListType → QString → Command
  clear_query : Command
  clear_list : Command
  append : List QString → Command

unfoldable pub step : Storage → Command → Model → Update
step st (notice n) m = notify st n m
step st (set_query type query) m = set_notes_list_query st type query m
step st clear_query m = clear_notes_list_query m
step st clear_list m = clear m
step st (append note_ids) m = append_note_ids note_ids m

-- A run: at each command the storage is what it has become by then.
unfoldable pub play : List (Storage × Command) → Model → Update
unfolding step
play [] m = unchanged m
play ((st, c) ∷ commands) m = and_then (step st c m) (play commands)
