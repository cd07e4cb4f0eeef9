-- ===== src/Storage/Editing.antt =====
-- Edits of a note's content in place: saveCheckboxStates, appendTextToNote and
-- appendAttachmentToNote of src/storage/storagemanager.cpp. What EvernoteMarkup makes of the content
-- is a parameter, none where it fails; the clock's time is an argument.
pub mod Saved
use notekeeper_open.Base.{
  ◌%◌, ◌^◌, ℕ, Bool, true, false, not, ◌&&◌, ◌||◌, ◌==◌, Option, none, some, List, [], ◌∷◌, QString,
  is_empty, length, text_eq, update, if◌then◌else◌,
}
use notekeeper_open.NotesList.Slots.{display_data_changed}
use notekeeper_open.Storage.Ini.{
  note_gist, note_content, deferred_conflicts, updated_time, base_content_hash, Store, text, number,
  set_value, set_values,
}
use notekeeper_open.Storage.Signals.{notice, Done, Qt}
use notekeeper_open.Storage.Notes.{update_notes_list_order, add_to_sync_ids_list}
use notekeeper_open.Storage.Contents.{stored_content, is_valid_content, stored_hash, base_hash_of}
use notekeeper_open.Storage.Attachments.{Attachment, add_attachment_data}

-- updateCheckboxStatesInEnml, appendTextToEnml and appendAttachmentToEnml.
pub record Markup : Type 0 where
  pub update_checkbox_states : QString → List Bool → Option QString
  pub append_text : QString → QString → Option QString
  pub append_attachment : QString → QString → Attachment → Option QString

-- The files of a note's attachments, by their names, with their sizes.
abbrev pub Files : Type 0
Files = QString → Option ℕ

-- Where a file of another size stands under the name, it is removed.
has_file : Option ℕ → ℕ → Bool
has_file none size = false
has_file (some n) size = n == size

move_file : Files → QString → ℕ → Bool → Files × Bool
unfolding update has_file
move_file files name size renames =
    if has_file (files name) size
    then (files, true)
    else if renames
    then (update files name (some size), true)
    else (update files name none, false)

-- The content is another than the valid one that is stored.
unfoldable pub is_content_changed : Store → QString → QString → Bool
is_content_changed s note_id hash =
    not (is_valid_content s note_id) || not (text_eq (stored_hash s note_id) hash)

-- A synchronisation has fetched another content since the note was opened.
unfoldable pub is_overtaken : Store → QString → QString → Bool
is_overtaken s note_id base_hash =
    let current_base = base_hash_of s note_id in
    not (is_empty current_base) && not (text_eq current_base base_hash)

module _ (qt : Qt) (markup : Markup) where
  -- The new content of a note that was opened with `base_hash`; another one by now is a conflict, to
  -- be resolved later.
  unfoldable pub save_edited_content : Store → ℕ → QString → QString → QString → Done Bool
  unfolding update_notes_list_order add_to_sync_ids_list set_value set_values is_content_changed
      is_overtaken
  save_edited_content s now note_id new_content base_hash =
      let hash = qt.md5_hex new_content in
      let s₁ = set_values s (note_content note_id) (stored_content new_content hash) in
      let s₂ = set_value s₁ (note_gist note_id) base_content_hash (text base_hash) in
      let s₃ = set_value s₂ (note_gist note_id) updated_time (number now) in
      let s₄ =
        if is_overtaken s₁ note_id base_hash
        then (add_to_sync_ids_list s₃ deferred_conflicts note_id).0
        else s₃ in
      if is_content_changed s note_id hash
      then (
        update_notes_list_order s₄ note_id,
        true,
        notice (display_data_changed note_id true) ∷ [],
      )
      else (s, true, [])

  save_if_updated : Store → ℕ → QString → QString → Option QString → Done Bool
  unfolding save_edited_content
  save_if_updated s now note_id base_hash none = (s, false, [])
  save_if_updated s now note_id base_hash (some new_content) =
      save_edited_content s now note_id new_content base_hash

  unfoldable pub save_checkbox_states :
      Store → ℕ → QString → List Bool → QString → QString → Done Bool
  unfolding save_if_updated
  save_checkbox_states s now note_id states enml base_hash =
      if is_empty note_id
      then (s, false, [])
      else save_if_updated s now note_id base_hash (markup.update_checkbox_states enml states)

  unfoldable pub append_text_to_note : Store → ℕ → QString → QString → QString → QString → Done Bool
  unfolding save_if_updated
  append_text_to_note s now note_id new_text enml base_hash =
      if is_empty note_id || is_empty new_text
      then (s, false, [])
      else save_if_updated s now note_id base_hash (markup.append_text enml new_text)

  -- The attachment's entry: no guid yet, the hash and the size of the file, and a name.
  abbrev pub entry_for : Attachment → QString → QString → Attachment
  entry_for attributes file_name copy = record attributes {
    guid = [];
    hash = qt.md5_hex copy;
    bytes = length copy;
    file = if is_empty attributes.file then file_name else attributes.file;
  }

  -- The size is written as an int, which is held as its 32 bits.
  as_written : Attachment → Attachment
  as_written a = record a { bytes = a.bytes % 2 ^ 32 }

  append_copy :
      Files
      → Store
      → ℕ
      → QString
      → Bool
      → Attachment
      → QString
      → QString
      → QString
      → QString
      → Files × Done Bool
  unfolding move_file add_attachment_data save_if_updated as_written
  append_copy files s now note_id renames attributes file_name enml base_hash copy =
      let new = entry_for attributes file_name copy in
      let (files', there) = move_file files new.hash new.bytes renames in
      if not there then (files', (s, false, [])) else (
        files',
        save_if_updated (add_attachment_data s note_id (as_written new)) now note_id base_hash
            (markup.append_attachment enml new.hash new),
      )

  -- The data of the file, where it can be read and copied whole; `renames` is whether the copy can be
  -- moved to its place.
  unfoldable pub append_attachment_to_note :
      Files
      → Store
      → ℕ
      → QString
      → Option QString
      → Bool
      → Attachment
      → QString
      → QString
      → QString
      → Files × Done Bool
  unfolding append_copy
  append_attachment_to_note files s now note_id none renames attributes file_name enml base_hash =
      (files, (s, false, []))
  append_attachment_to_note files s now note_id (some copy) renames attributes file_name enml
        base_hash =
      if is_empty note_id
      then (files, (s, false, []))
      else append_copy files s now note_id renames attributes file_name enml base_hash copy
