-- ===== src/Storage/Trash.antt =====
-- Favourites and the trash: setFavouriteNote to expungeNote and removeNoteReferences of
-- src/storage/storagemanager.cpp.
pub mod Guids
pub mod Favourites
pub mod Lists
use notekeeper_open.Base.{
  Bool, true, false, not, ◌&&◌, List, [], ◌∷◌, ◌++◌, QString, is_empty, text_eq, if◌then◌else◌,
}
use notekeeper_open.Base.Split.{ids_of}
use notekeeper_open.NotesList.Slots.{favouriteness_changed, trashedness_changed, expunged}
use notekeeper_open.Storage.Signals.{Event, notice, Done}
use notekeeper_open.Storage.Ini.{
  notes_list, notes_by_guid, note_gist, note_content, note_attachments, favourites_list, trash_list,
  note_ids, notebook_id, tag_ids, favourite, trashed, entry, Store, text, flag, to_string, to_bool,
  value, set_value, remove_key, remove_file,
}
use notekeeper_open.Storage.Collection.{add_object_id, remove_object_id}
use notekeeper_open.Storage.Notebooks.{
  notebook_exists, remove_note_from_notebook_data, get_default_notebook_id,
}
use notekeeper_open.Storage.Tags.{tag_exists, add_note_to_tag_data, remove_tags_loop, append_id}
use notekeeper_open.Storage.Notes.{
  guid_for_note_id, update_notes_list_order, set_note_has_unpushed_changes,
}

unfoldable pub is_favourite_note : Store → QString → Bool
is_favourite_note s note_id = to_bool (value s (note_gist note_id) favourite)

unfoldable pub is_trash_note : Store → QString → Bool
is_trash_note s note_id = to_bool (value s (note_gist note_id) trashed)

unfoldable pub set_favourite_note : Store → QString → Bool → Done Bool
unfolding add_object_id remove_object_id set_value
set_favourite_note s note_id is_favourite =
    let is_currently = to_bool (value s (note_gist note_id) favourite) in
    let s₁ =
      if is_favourite
      then (add_object_id s favourites_list note_ids note_id).0
      else (remove_object_id s favourites_list note_ids note_id).0 in
    if is_empty note_id
    then (s, false, [])
    else if if is_currently then not is_favourite else is_favourite
    then (
      set_value s₁ (note_gist note_id) favourite (flag is_favourite),
      true,
      notice (favouriteness_changed note_id is_favourite) ∷ [],
    )
    else (s, false, [])

-- The lists that a note is taken out of, as the flags of a StorageConstants::NotesListTypes.
pub record ListTypes : Type 0 where
  pub in_all : Bool
  pub in_notebook : Bool
  pub with_tag : Bool
  pub in_favourites : Bool
  pub in_trash : Bool

unfoldable pub remove_note_references : Store → QString → ListTypes → Store
unfolding notebook_exists remove_note_from_notebook_data remove_tags_loop remove_object_id
remove_note_references s note_id lists =
    let b = to_string (value s (note_gist note_id) notebook_id) in
    let ts = ids_of (to_string (value s (note_gist note_id) tag_ids)) in
    let is_trashed = to_bool (value s (note_gist note_id) trashed) in
    let s₁ =
      if lists.in_notebook && (notebook_exists s b && not is_trashed)
      then (remove_note_from_notebook_data s note_id b).0
      else s in
    let s₂ = if lists.with_tag then remove_tags_loop s₁ note_id ts else s₁ in
    let s₃ = if lists.in_all then (remove_object_id s₂ notes_list note_ids note_id).0 else s₂ in
    let s₄ =
      if lists.in_favourites
      then (remove_object_id s₃ favourites_list note_ids note_id).0
      else s₃ in
    let s₅ = if lists.in_trash then (remove_object_id s₄ trash_list note_ids note_id).0 else s₄ in
    if is_empty note_id then s else s₅

abbrev pub all_but_trash : ListTypes
all_but_trash = record {
  in_all = true;
  in_notebook = true;
  with_tag = true;
  in_favourites = true;
  in_trash = false;
}

abbrev pub every_list : ListTypes
every_list = record {
  in_all = true;
  in_notebook = true;
  with_tag = true;
  in_favourites = true;
  in_trash = true;
}

unfoldable pub move_note_to_trash : Store → QString → Done Bool
unfolding remove_note_references add_object_id set_value
move_note_to_trash s note_id =
    if is_empty note_id
    then (s, false, [])
    else if to_bool (value s (note_gist note_id) trashed)
    then (s, false, [])
    else let s₁ = set_value s (note_gist note_id) trashed (flag true) in
      let s₂ = remove_note_references s₁ note_id all_but_trash in
      (
        (add_object_id s₂ trash_list note_ids note_id).0,
        true,
        notice (trashedness_changed note_id true) ∷ [],
      )

-- The loop that puts a note back under its tags; it collects the tags that still exist.
unfoldable pub restore_tags_loop : Store → QString → List QString → QString → Store × QString
unfolding tag_exists add_note_to_tag_data
restore_tags_loop s note_id [] updated = (s, updated)
restore_tags_loop s note_id (t ∷ ts) updated =
    let exists = tag_exists s t in
    restore_tags_loop (if exists then (add_note_to_tag_data s note_id t).0 else s) note_id ts
      (if exists then append_id updated t else updated)

-- A note whose notebook is gone is given the default notebook.
unfoldable pub settle_notebook : Store → QString → QString → Store
unfolding notebook_exists set_value
settle_notebook s note_id b =
    if notebook_exists s b
    then s
    else set_value s (note_gist note_id) notebook_id (text (get_default_notebook_id s))

unfoldable pub restore_tags : Store → QString → QString → Store
unfolding restore_tags_loop set_value
restore_tags s note_id tag_ids_str =
    let (s₁, updated) = restore_tags_loop s note_id (ids_of tag_ids_str) [] in
    if text_eq tag_ids_str updated
    then s₁
    else set_value s₁ (note_gist note_id) tag_ids (text updated)

unfoldable pub restore_note_from_trash : Store → QString → Done Bool
unfolding settle_notebook restore_tags add_object_id remove_object_id set_value
    update_notes_list_order
restore_note_from_trash s note_id =
    if is_empty note_id
    then (s, false, [])
    else if not (to_bool (value s (note_gist note_id) trashed))
    then (s, false, [])
    else let b = to_string (value s (note_gist note_id) notebook_id) in
      let s₁ = set_value s (note_gist note_id) trashed (flag false) in
      let s₂ = settle_notebook s₁ note_id b in
      let s₃ = restore_tags s₂ note_id (to_string (value s (note_gist note_id) tag_ids)) in
      let s₄ = update_notes_list_order (add_object_id s₃ notes_list note_ids note_id).0 note_id in
      let s₅ =
        if to_bool (value s (note_gist note_id) favourite)
        then (add_object_id s₄ favourites_list note_ids note_id).0
        else s₄ in
      (
        (remove_object_id s₅ trash_list note_ids note_id).0,
        true,
        notice (trashedness_changed note_id false) ∷ [],
      )

-- rmMinusR of the note's directory, as far as the store holds it: gist.ini, content.ini and
-- attachments.ini.
unfoldable pub remove_note_directory : Store → QString → Store
unfolding remove_file
remove_note_directory s note_id =
    remove_file (remove_file (remove_file s (note_gist note_id)) (note_content note_id))
      (note_attachments note_id)

unfoldable pub expunge_note_from_trash : Store → QString → Done Bool
unfolding guid_for_note_id remove_object_id remove_key remove_note_directory
expunge_note_from_trash s note_id =
    let note_guid = guid_for_note_id s note_id in
    let (s₁, removed) = remove_object_id s trash_list note_ids note_id in
    if is_empty note_id
    then (s, false, [])
    else if not (is_empty note_guid)
    then (s, false, [])
    else if removed
    then (
      remove_note_directory (remove_key s₁ notes_by_guid (entry note_guid)) note_id,
      true,
      notice (expunged note_id) ∷ [],
    )
    else (s₁, false, [])

unfoldable pub expunge_note : Store → QString → Store × List Event
unfolding guid_for_note_id remove_note_references remove_key remove_note_directory
    set_note_has_unpushed_changes
expunge_note s note_id =
    if is_empty note_id
    then (s, [])
    else let s₁ = remove_note_references s note_id every_list in
      let note_guid = guid_for_note_id s₁ note_id in
      let s₂ = if is_empty note_guid then s₁ else remove_key s₁ notes_by_guid (entry note_guid) in
      (
        set_note_has_unpushed_changes (remove_note_directory s₂ note_id) note_id false,
        notice (expunged note_id) ∷ [],
      )
