-- ===== src/Storage/Notes.antt =====
-- Notes: createNote, updateNoteTitle, updateNoteTitleAndContent, updateNotesListOrder,
-- isNoteContentUpToDate and the guids of notes, of src/storage/storagemanager.cpp. The clock's time is
-- an argument, and so is the content.
pub mod Listed
use notekeeper_open.Base.{
  ℕ, zero, suc, Bool, true, false, not, ◌&&◌, ◌||◌, Option, none, some, List, [], ◌∷◌, ◌++◌,
  QString, lit, is_empty, contains, text_eq, index_of, remove_at, take, ◌==◌, if◌then◌else◌,
}
use notekeeper_open.Base.Split.{join, ids_of}
use notekeeper_open.NotesList.{
  NotesListType, all_notes, notes_in_notebook, notes_with_tag, favourite_notes, trash_notes,
}
use notekeeper_open.NotesList.Slots.{created, display_data_changed}
use notekeeper_open.Storage.Order.{note_timestamp, insert_in_order}
use notekeeper_open.Storage.Signals.{Event, notice, Done, Qt}
use notekeeper_open.Storage.Ini.{
  notes_list, notes_by_guid, note_gist, note_content, notebook_ini, tag_ini, favourites_list,
  trash_list, root_list, sync_ini, Key, note_ids, max_note_id, title, created_here, created_time,
  updated_time, attributes_source, attributes_source_application, attributes_source_url, guid,
  entry, sync_usn, sync_content_hash, base_content_usn_misspelled, base_content_hash, content,
  content_hash, content_valid, notes_to_push, deferred_conflicts, QVariant, Store, text, flag,
  number, to_string, to_bool, to_int, to_long_long, value, set_value, set_values, remove_key,
}
use notekeeper_open.Storage.Collection.{ids_list, add_object_id, remove_object_id}
use notekeeper_open.Storage.Objects.{create_storage_object}
use notekeeper_open.Storage.Notebooks.{set_notebook_for_note, get_default_notebook_id}

-- The time by which a store lists a note.
unfoldable pub timestamp_of : Store → QString → ℕ
unfolding note_timestamp
timestamp_of s note_id =
    note_timestamp (to_long_long (value s (note_gist note_id) updated_time))
      (to_long_long (value s (note_gist note_id) created_time))

unfoldable pub set_note_ids : Store → List QString → Store
unfolding set_value
set_note_ids s ids = set_value s notes_list note_ids (text (join b',' ids))

unfoldable pub move_in_list : Store → QString → List QString → Option ℕ → Store
unfolding set_note_ids insert_in_order timestamp_of
move_in_list s note_id ids none = s
move_in_list s note_id ids (some pos) =
    set_note_ids s (insert_in_order (timestamp_of s) note_id (remove_at pos ids))

unfoldable pub update_notes_list_order : Store → QString → Store
unfolding move_in_list ids_list
update_notes_list_order s note_id =
    let ids = ids_list s notes_list note_ids in
    if is_empty note_id then s else move_in_list s note_id ids (index_of ids note_id)

-- The text before the first newline.
unfoldable pub first_line : QString → QString
first_line [] = []
first_line (c ∷ t) = let rest = first_line t in if c == 10 then [] else c ∷ rest

unfoldable pub guid_for_note_id : Store → QString → QString
guid_for_note_id s note_id =
    if is_empty note_id then [] else to_string (value s (note_gist note_id) guid)

unfoldable pub note_id_for_guid : Store → QString → QString
note_id_for_guid s g = if is_empty g then [] else to_string (value s notes_by_guid (entry g))

unfoldable pub set_note_guid : Store → QString → QString → Store
unfolding set_value
set_note_guid s note_id new_guid =
    if is_empty note_id
    then s
    else set_value (set_value s (note_gist note_id) guid (text new_guid)) notes_by_guid
        (entry new_guid) (text note_id)

-- Lists of ids in sync.ini: the new id goes to the end.
unfoldable pub add_to_sync_ids_list : Store → Key → QString → Store × Bool
unfolding ids_list set_value
add_to_sync_ids_list s k id =
    let ids = ids_list s sync_ini k in
    if contains ids id
    then (s, false)
    else (set_value s sync_ini k (text (join b',' (ids ++ id ∷ []))), true)

unfoldable pub retrieve_sync_ids_list : Store → Key → List QString
unfolding ids_list
retrieve_sync_ids_list s k = ids_list s sync_ini k

unfoldable pub clear_sync_ids_list : Store → Key → Store
unfolding remove_key
clear_sync_ids_list s k = remove_key s sync_ini k

unfoldable pub set_note_has_unpushed_changes : Store → QString → Bool → Store
unfolding add_object_id remove_object_id
set_note_has_unpushed_changes s note_id unpushed =
    if is_empty note_id
    then s
    else if unpushed
    then (add_object_id s root_list notes_to_push note_id).0
    else (remove_object_id s root_list notes_to_push note_id).0

unfoldable pub note_has_unpushed_changes : Store → QString → Bool
unfolding ids_list
note_has_unpushed_changes s note_id =
    if is_empty note_id then false else contains (ids_list s root_list notes_to_push) note_id

-- The ids of the notes of a list, by its type.
unfoldable pub list_note_ids : Store → NotesListType → QString → List QString
unfolding ids_list
list_note_ids s all_notes object_id = ids_list s notes_list note_ids
list_note_ids s notes_in_notebook object_id =
    if is_empty object_id then [] else ids_list s (notebook_ini object_id) note_ids
list_note_ids s favourite_notes object_id = ids_list s favourites_list note_ids
list_note_ids s trash_notes object_id = ids_list s trash_list note_ids
list_note_ids s notes_with_tag object_id =
    if is_empty object_id then [] else ids_list s (tag_ini object_id) note_ids
list_note_ids s _ object_id = []

module _ (qt : Qt) where
  unfoldable pub legalized_note_title : QString → QString
  unfolding first_line
  legalized_note_title raw_title =
      let cut = take 255 (qt.trimmed (first_line raw_title)) in
      if is_empty cut then lit "-" else cut

  abbrev pub content_pairs : QString → List (Key × QVariant)
  content_pairs new_content =
      (content, text new_content)
      ∷ (content_hash, text (qt.md5_hex new_content))
      ∷ (content_valid, flag true)
      ∷ []

  source_pairs : Option QString → List (Key × QVariant)
  source_pairs none = []
  source_pairs (some source) = (attributes_source, text source) ∷ []

  unfoldable pub create_note : Store → ℕ → QString → QString → QString → Done QString
  unfolding create_storage_object set_notebook_for_note legalized_note_title source_pairs
  create_note s now raw_title new_content source_url =
      let url = if is_empty source_url then [] else (attributes_source_url, text source_url) ∷ [] in
      let gist =
        (title, text (legalized_note_title raw_title))
          ∷ (created_time, number now)
          ∷ (updated_time, number now)
          ∷ source_pairs qt.source
        ++ (attributes_source_application, text (lit "Notekeeper")) ∷ url
        ++ (created_here, flag true) ∷ [] in
      let (s₁, note_id) =
        create_storage_object s (lit "nt") notes_list max_note_id note_ids
          ((note_gist, gist) ∷ (note_content, content_pairs new_content) ∷ []) in
      let (s₂, moved, events) = set_notebook_for_note s₁ note_id (get_default_notebook_id s₁) in
      (s₂, note_id, notice (created note_id) ∷ events)

  unfoldable pub update_note_title : Store → ℕ → QString → QString → Done Bool
  unfolding legalized_note_title update_notes_list_order set_value
  update_note_title s now note_id raw_title =
      let new_title = legalized_note_title raw_title in
      if is_empty note_id
      then (s, false, [])
      else if text_eq (to_string (value s (note_gist note_id) title)) new_title
      then (s, false, [])
      else let s₁ = set_value s (note_gist note_id) title (text new_title) in
        let s₂ = set_value s₁ (note_gist note_id) updated_time (number now) in
        (update_notes_list_order s₂ note_id, true, notice (display_data_changed note_id true) ∷ [])

  -- The content of a note is valid and has this hash.
  abbrev pub has_content : Store → QString → QString → Bool
  has_content s note_id hash =
      to_bool (value s (note_content note_id) content_valid)
      && text_eq (to_string (value s (note_content note_id) content_hash)) hash

  -- `base_hash` is the hash that the note was opened with; another one by now is a conflict.
  unfoldable pub update_note_title_and_content :
      Store → ℕ → QString → QString → QString → QString → Done Bool
  unfolding legalized_note_title update_notes_list_order add_to_sync_ids_list set_value set_values
  update_note_title_and_content s now note_id raw_title new_content base_hash =
      let new_title = legalized_note_title raw_title in
      let current_base = to_string (value s (note_gist note_id) base_content_hash) in
      let same_title = text_eq new_title (to_string (value s (note_gist note_id) title)) in
      let gist =
        (updated_time, number now)
        ∷ (base_content_hash, text base_hash)
        ∷ (if same_title then [] else (title, text new_title) ∷ []) in
      let s₁ = set_values s (note_gist note_id) gist in
      let same_content = has_content s₁ note_id (qt.md5_hex new_content) in
      let s₂ =
        if same_content
        then s₁
        else set_values s₁ (note_content note_id) (content_pairs new_content) in
      let conflict = not (is_empty current_base) && not (text_eq current_base base_hash) in
      let s₃ = if conflict then (add_to_sync_ids_list s₂ deferred_conflicts note_id).0 else s₂ in
      if is_empty note_id
      then (s, false, [])
      else if same_title && same_content
      then (s₃, false, [])
      else (
        update_notes_list_order s₃ note_id,
        true,
        notice (display_data_changed note_id true) ∷ [],
      )

  unfoldable pub is_note_content_up_to_date : Store → QString → Bool
  unfolding guid_for_note_id
  is_note_content_up_to_date s note_id =
      let note_guid = guid_for_note_id s note_id in
      let sync_hash = to_string (value s (note_gist note_id) sync_content_hash) in
      let base_hash = to_string (value s (note_gist note_id) base_content_hash) in
      if is_empty note_id
      then false
      else if is_empty note_guid
      then true
      else if to_int (value s (note_gist note_id) sync_usn) == 0
      then false
      else if to_int (value s (note_gist note_id) base_content_usn_misspelled) == 0
      then false
      else if is_empty sync_hash
      then false
      else if is_empty base_hash
      then false
      else if not (text_eq sync_hash base_hash)
      then false
      else if to_bool (value s (note_content note_id) content_valid)
      then true
      else qt.is_cached note_guid base_hash
