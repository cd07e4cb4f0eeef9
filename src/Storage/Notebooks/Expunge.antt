-- ===== src/Storage/Notebooks/Expunge.antt =====
-- StorageManager::expungeNotebook of src/storage/storagemanager.cpp.
use notekeeper_open.Base.{not, List, [], ◌∷◌, ◌++◌, QString, is_empty, text_eq, if◌then◌else◌}
use notekeeper_open.Storage.Signals.{Event, notebooks_list_changed}
use notekeeper_open.Storage.Ini.{
  notebooks_list, notebooks_names, notebooks_by_guid, notebook_ini, note_ids, notebook_ids, name,
  entry, Store, to_string, value, remove_key, remove_file,
}
use notekeeper_open.Storage.Collection.{ids_list, remove_object_id}
use notekeeper_open.Storage.Notebooks.{
  set_notebook_for_note, guid_for_notebook_id, set_default_notebook_id, get_default_notebook_id,
}

-- The loop that picks a notebook other than the default: the last one stays.
unfoldable pub pick_other : QString → QString → List QString → QString
pick_other default picked [] = picked
pick_other default picked (b ∷ bs) = pick_other default (if text_eq b default then picked else b) bs

-- The loop that moves the notes of the notebook.
unfoldable pub move_notes : Store → QString → List QString → Store × List Event
unfolding set_notebook_for_note
move_notes s to [] = (s, [])
move_notes s to (note_id ∷ rest) =
    let (s₁, moved, events) = set_notebook_for_note s note_id to in
    let (s₂, later) = move_notes s₁ to rest in (s₂, events ++ later)

-- What follows when the default notebook is another: the notes go to that one.
unfoldable pub expunge_notebook_to : Store → QString → QString → Store × List Event
unfolding move_notes ids_list remove_key remove_object_id remove_file guid_for_notebook_id
expunge_notebook_to s b default =
    let (s₁, events) = move_notes s default (ids_list s (notebook_ini b) note_ids) in
    let old_name = to_string (value s₁ (notebook_ini b) name) in
    let s₂ = if is_empty old_name then s₁ else remove_key s₁ notebooks_names (entry old_name) in
    let old_guid = guid_for_notebook_id s₂ b in
    let s₃ = if is_empty old_guid then s₂ else remove_key s₂ notebooks_by_guid (entry old_guid) in
    let s₄ = (remove_object_id s₃ notebooks_list notebook_ids b).0 in
    (remove_file s₄ (notebook_ini b), events ++ notebooks_list_changed ∷ [])

-- The notebook to expunge is the default: it is expunged only if no other is picked.
unfoldable pub expunge_default_notebook : Store → QString → List QString → Store × List Event
unfolding expunge_notebook_to pick_other set_default_notebook_id
expunge_default_notebook s b all =
    let other = pick_other b [] all in
    if is_empty all
    then (s, [])
    else if not (is_empty other)
    then (s, [])
    else expunge_notebook_to (set_default_notebook_id s other) b other

unfoldable pub expunge_notebook : Store → QString → Store × List Event
unfolding expunge_notebook_to expunge_default_notebook ids_list
expunge_notebook s b =
    let default = get_default_notebook_id s in
    if is_empty b
    then (s, [])
    else if text_eq b default
    then expunge_default_notebook s b (ids_list s notebooks_list notebook_ids)
    else expunge_notebook_to s b default
