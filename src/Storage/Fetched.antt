-- ===== src/Storage/Fetched.antt =====
-- What comes from the server and goes there: noteData, setSyncedNoteGist, setFetchedNoteContent,
-- setPushedNote and the contents that are kept for reading offline, of
-- src/storage/storagemanager.cpp. The disk cache is part of the state.
use notekeeper_open.Base.{
  ℕ, ◌+◌, Bool, true, false, not, ◌&&◌, ◌||◌, ◌==◌, Option, none, some, List, [], ◌∷◌, ◌++◌, map,
  QString, lit, is_empty, text_eq, if◌then◌else◌,
}
use notekeeper_open.Base.Split.{ids_of}
use notekeeper_open.NotesList.Slots.{created, display_data_changed}
use notekeeper_open.Storage.Ini.{
  notes_list, notes_by_guid, note_gist, note_content, root_list, Key, note_ids, max_note_id, title,
  notebook_id, tag_ids, favourite, trashed, guid, entry, created_time, updated_time, sync_usn,
  sync_content_hash, base_content_usn, base_content_hash, content, content_hash, content_valid,
  notebooks_to_push, tags_to_push, unresolved_notes, attributes_source,
  attributes_source_application, attributes_source_url, attributes_subject_date,
  attributes_latitude, attributes_longitude, attributes_author, attributes_share_date,
  attributes_content_class, QVariant, Store, text, number, to_string, to_bool, to_int, to_long_long,
  value, set_value, set_values,
}
use notekeeper_open.Storage.Signals.{notice, Done}
use notekeeper_open.Storage.Cache.{Disk, Cache, retrieve_note_content}
use notekeeper_open.Storage.Collection.{ids_list, add_object_id, remove_object_id}
use notekeeper_open.Storage.Objects.{create_storage_object}
use notekeeper_open.Storage.Notebooks.{notebook_name}
use notekeeper_open.Storage.Tags.{tag_name}
use notekeeper_open.Storage.Notes.{
  update_notes_list_order, note_id_for_guid, note_has_unpushed_changes,
}

-- The names of a note's tags, and how many there are.
unfoldable pub tag_names_loop : Store → QString → ℕ → List QString → QString × ℕ
unfolding tag_name
tag_names_loop s names count [] = (names, count)
tag_names_loop s names count (t ∷ ts) =
    let name = tag_name s t in
    let longer = if is_empty names then name else names ++ lit ", " ++ name in
    let skipped = is_empty t || is_empty name in
    tag_names_loop s (if skipped then names else longer) (if skipped then count else count + 1) ts

-- The content of a note with its hash, from its ini file or from the disk cache.
unfoldable pub available_content :
    Disk → Store → Cache → QString → Cache × Option (QString × QString)
unfolding retrieve_note_content
available_content d s c note_id =
    let r = retrieve_note_content d c (to_string (value s (note_gist note_id) guid)) in
    if to_bool (value s (note_content note_id) content_valid)
    then (
      c,
      some (
        to_string (value s (note_content note_id) content),
        to_string (value s (note_content note_id) content_hash),
      ),
    )
    else (
      r.cache,
      if not (is_empty r.md5)
            && text_eq r.md5 (to_string (value s (note_gist note_id) sync_content_hash))
          then some (r.content, r.md5)
          else none,
    )

-- The map that noteData returns; the content with its hash, where it is on the device.
pub record NoteMap : Type 0 where
  pub note_title : QString
  pub is_favourite : Bool
  pub is_trashed : Bool
  pub notebook : QString
  pub notebook_name_shown : QString
  pub tags : List QString
  pub tag_names : QString
  pub tag_count : ℕ
  pub note_guid : QString
  pub usn : ℕ
  pub sync_hash : QString
  pub created_at : ℕ
  pub updated_at : ℕ
  pub base_usn : ℕ
  pub base_hash : QString
  pub attributes : List (Key × QVariant)
  pub content_data : Option (QString × QString)

abbrev attribute_keys : List Key
attribute_keys =
    attributes_subject_date ∷ attributes_latitude ∷ attributes_longitude ∷ attributes_author
    ∷ attributes_source ∷ attributes_source_url ∷ attributes_source_application
    ∷ attributes_share_date ∷ attributes_content_class ∷ []

unfoldable pub note_data : Disk → Store → Cache → QString → Cache × Option NoteMap
unfolding tag_names_loop available_content notebook_name
note_data d s c note_id =
    let gist = value s (note_gist note_id) in
    let notebook = to_string (gist notebook_id) in
    let tags = ids_of (to_string (gist tag_ids)) in
    let (names, count) = tag_names_loop s [] 0 tags in
    let (c', available) = available_content d s c note_id in
    if is_empty note_id then (c, none) else (
      c',
      some (record {
        note_title = to_string (gist title);
        is_favourite = to_bool (gist favourite);
        is_trashed = to_bool (gist trashed);
        notebook = notebook;
        notebook_name_shown = if is_empty notebook then [] else notebook_name s notebook;
        tags = tags;
        tag_names = names;
        tag_count = count;
        note_guid = to_string (gist guid);
        usn = to_int (gist sync_usn);
        sync_hash = to_string (gist sync_content_hash);
        created_at = to_long_long (gist created_time);
        updated_at = to_long_long (gist updated_time);
        base_usn = to_int (gist base_content_usn);
        base_hash = to_string (gist base_content_hash);
        attributes = map (λ (k : Key). (k, gist k)) attribute_keys;
        content_data = available;
      }),
    )

-- The content of the ini file, and whether it is valid, where `ok` is set.
unfoldable pub enml_content_from_content_ini : Store → QString → QString × Option Bool
enml_content_from_content_ini s note_id =
    let valid = to_bool (value s (note_content note_id) content_valid) in
    if is_empty note_id
    then ([], none)
    else (if valid then to_string (value s (note_content note_id) content) else [], some valid)

unfoldable pub set_guid_mapping : Store → QString → QString → Store
unfolding set_value
set_guid_mapping s new_guid note_id = set_value s notes_by_guid (entry new_guid) (text note_id)

-- A note's gist as the server has it: the id of the note, and whether its usn has changed.
unfoldable pub set_synced_note_gist :
    Store → QString → QString → ℕ → QString → ℕ → ℕ → List (Key × QVariant) → Done (QString × Bool)
unfolding note_id_for_guid create_storage_object set_values set_guid_mapping update_notes_list_order
set_synced_note_gist s note_guid new_title usn hash created_at updated_at note_attributes =
    let gist =
      (title, text new_title)
      ∷ (guid, text note_guid)
      ∷ (sync_usn, number usn)
      ∷ (sync_content_hash, text hash)
      ∷ (created_time, number created_at)
      ∷ (updated_time, number updated_at)
      ∷ note_attributes in
    let known = note_id_for_guid s note_guid in
    let (s₁, new_id) =
      create_storage_object s (lit "nt") notes_list max_note_id note_ids ((note_gist, gist) ∷ []) in
    let moved = not (to_long_long (value s (note_gist known) updated_time) == updated_at) in
    let s₂ = set_guid_mapping (set_values s (note_gist known) gist) note_guid known in
    if is_empty known
    then (set_guid_mapping s₁ note_guid new_id, (new_id, true), notice (created new_id) ∷ [])
    else (
      if moved then update_notes_list_order s₂ known else s₂,
      (known, not (to_int (value s (note_gist known) sync_usn) == usn)),
      notice (display_data_changed known moved) ∷ [],
    )

-- Lists of the ids of what is to be pushed, and of the notes whose offline status is to be settled.
unfoldable pub mark_in_root : Store → Key → QString → Bool → Store
unfolding add_object_id remove_object_id
mark_in_root s k id marked =
    if is_empty id
    then s
    else if marked
    then (add_object_id s root_list k id).0
    else (remove_object_id s root_list k id).0

unfoldable pub set_notebook_has_unpushed_changes : Store → QString → Bool → Store
unfolding mark_in_root
set_notebook_has_unpushed_changes s b unpushed = mark_in_root s notebooks_to_push b unpushed

unfoldable pub notebooks_with_unpushed_changes : Store → List QString
unfolding ids_list
notebooks_with_unpushed_changes s = ids_list s root_list notebooks_to_push

unfoldable pub set_tag_has_unpushed_changes : Store → QString → Bool → Store
unfolding mark_in_root
set_tag_has_unpushed_changes s t unpushed = mark_in_root s tags_to_push t unpushed

unfoldable pub tags_with_unpushed_changes : Store → List QString
unfolding ids_list
tags_with_unpushed_changes s = ids_list s root_list tags_to_push

unfoldable pub set_offline_status_change_unresolved_note : Store → QString → Bool → Store
unfolding mark_in_root
set_offline_status_change_unresolved_note s note_id changed =
    mark_in_root s unresolved_notes note_id changed

unfoldable pub offline_status_change_unresolved_notes : Store → List QString
unfolding ids_list
offline_status_change_unresolved_notes s = ids_list s root_list unresolved_notes

unfoldable pub note_has_unpushed_content_changes : Disk → Store → Cache → QString → Bool
unfolding note_has_unpushed_changes available_content
note_has_unpushed_content_changes d s c note_id =
    let base = to_string (value s (note_gist note_id) base_content_hash) in
    if is_empty note_id
    then false
    else if note_has_unpushed_changes s note_id
    then elim ((available_content d s c note_id).1) [
      | none ↦ false
      | some (found, hash) ↦
          if is_empty hash then false else if is_empty base then true else not (text_eq hash base)
    ]
    else false
