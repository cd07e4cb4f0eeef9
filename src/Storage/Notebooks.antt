-- ===== src/Storage/Notebooks.antt =====
-- Notebooks: StorageManager::createNotebook to setOfflineNotebookIds, and expungeNotebook, of
-- src/storage/storagemanager.cpp.
pub mod Expunge
pub mod Offline
pub mod Placed
pub mod Emptied
pub mod Default
use notekeeper_open.Base.{
  ℕ, Bool, true, false, not, ◌&&◌, List, [], ◌∷◌, ◌++◌, QString, lit, is_empty, contains, text_eq,
  keep, if◌then◌else◌,
}
use notekeeper_open.Base.Split.{split, ids_of}
use notekeeper_open.NotesList.Slots.{notebook_changed}
use notekeeper_open.Storage.Signals.{Event, notice, notebooks_list_changed, Done, Qt}
use notekeeper_open.Storage.Ini.{
  IniFile, notebooks_list, notebooks_names, notebooks_by_guid, notebook_ini, note_gist, root_list,
  Key, note_ids, notebook_ids, notebook_id, max_notebook_id, name, guid, entry, default_notebook_id,
  offline_notebook_ids, unresolved_notebooks, QVariant, Store, text, to_string, value, set_value,
  remove_key, remove_file,
}
use notekeeper_open.Storage.Collection.{ids_list, add_object_id, remove_object_id}
use notekeeper_open.Storage.Objects.{create_storage_object}

unfoldable pub notebook_exists : Store → QString → Bool
unfolding ids_list
notebook_exists s b =
    if is_empty b then false else contains (ids_list s notebooks_list notebook_ids) b

unfoldable pub add_note_to_notebook_data : Store → QString → QString → Store × Bool
unfolding add_object_id
add_note_to_notebook_data s note_id b =
    if is_empty b then (s, false) else add_object_id s (notebook_ini b) note_ids note_id

unfoldable pub remove_note_from_notebook_data : Store → QString → QString → Store × Bool
unfolding remove_object_id
remove_note_from_notebook_data s note_id b =
    if is_empty b then (s, false) else remove_object_id s (notebook_ini b) note_ids note_id

unfoldable pub notebook_for_note : Store → QString → QString
notebook_for_note s note_id =
    if is_empty note_id then [] else to_string (value s (note_gist note_id) notebook_id)

-- The store of a note that goes from a notebook to another.
unfoldable pub move_note : Store → QString → QString → QString → Store
unfolding set_value remove_note_from_notebook_data add_note_to_notebook_data
move_note s note_id from to =
    let s₁ = set_value s (note_gist note_id) notebook_id (text to) in
    let s₂ = (remove_note_from_notebook_data s₁ note_id from).0 in
    (add_note_to_notebook_data s₂ note_id to).0

unfoldable pub set_notebook_for_note : Store → QString → QString → Done Bool
unfolding move_note
set_notebook_for_note s note_id b =
    if is_empty b
    then (s, false, [])
    else if is_empty note_id
    then (s, false, [])
    else let current = to_string (value s (note_gist note_id) notebook_id) in
      if text_eq current b
      then (s, false, [])
      else (move_note s note_id current b, true, notice (notebook_changed note_id b) ∷ [])

unfoldable pub notebook_name : Store → QString → QString
notebook_name s b = if is_empty b then [] else to_string (value s (notebook_ini b) name)

unfoldable pub set_notebook_name : Store → QString → QString → Store
unfolding set_value
set_notebook_name s b new_name = set_value s (notebook_ini b) name (text new_name)

unfoldable pub set_notebook_guid : Store → QString → QString → Store
unfolding set_value
set_notebook_guid s b new_guid =
    if is_empty b
    then s
    else if is_empty new_guid
    then s
    else set_value (set_value s (notebook_ini b) guid (text new_guid)) notebooks_by_guid
        (entry new_guid) (text b)

unfoldable pub guid_for_notebook_id : Store → QString → QString
guid_for_notebook_id s b = if is_empty b then [] else to_string (value s (notebook_ini b) guid)

unfoldable pub notebook_id_for_guid : Store → QString → QString
notebook_id_for_guid s g = to_string (value s notebooks_by_guid (entry g))

unfoldable pub set_default_notebook_id : Store → QString → Store
unfolding notebook_exists set_value
set_default_notebook_id s b =
    if not (is_empty b) && notebook_exists s b
    then if text_eq (to_string (value s notebooks_list default_notebook_id)) b
      then s
      else set_value s notebooks_list default_notebook_id (text b)
    else s

abbrev pub get_default_notebook_id : Store → QString
get_default_notebook_id s = to_string (value s notebooks_list default_notebook_id)

module _ (qt : Qt) where
  -- A notebook's id by its name: the map's keys are in upper case.
  unfoldable pub named : Store → QString → QString
  named s legal_name = to_string (value s notebooks_names (entry (qt.to_upper legal_name)))

  unfoldable pub notebook_id_for_notebook_name : Store → QString → QString
  unfolding named
  notebook_id_for_notebook_name s raw_name =
      let legal_name = qt.simplified raw_name in
      if is_empty legal_name then [] else named s legal_name

  -- The notebook of that name, and whether it is there already; if it is not, it is made.
  unfoldable pub find_or_make_notebook : Store → QString → QString → Store × QString × Bool
  unfolding named create_storage_object set_value
  find_or_make_notebook s legal_name first_note_id =
      let found = named s legal_name in
      if not (is_empty found)
      then (s, found, true)
      else let (s₁, made) =
          create_storage_object s (lit "nb") notebooks_list max_notebook_id notebook_ids
            ((notebook_ini, (name, text legal_name) ∷ (note_ids, text first_note_id) ∷ []) ∷ []) in
        (set_value s₁ notebooks_names (entry (qt.to_upper legal_name)) (text made), made, false)

  -- The first note goes into the notebook, and out of the notebook that it was in.
  unfoldable pub place_first_note : Store → QString → QString → Bool → Done Unit
  unfolding add_note_to_notebook_data remove_note_from_notebook_data set_value
  place_first_note s first_note_id b already =
      if is_empty first_note_id
      then (s, tt, [])
      else let s₁ = if already then (add_note_to_notebook_data s first_note_id b).0 else s in
        let current = to_string (value s₁ (note_gist first_note_id) notebook_id) in
        let s₂ = set_value s₁ (note_gist first_note_id) notebook_id (text b) in
        let s₃ =
          if is_empty current
          then s₂
          else (remove_note_from_notebook_data s₂ first_note_id current).0 in
        (s₃, tt, notice (notebook_changed first_note_id b) ∷ [])

  unfoldable pub create_notebook : Store → QString → QString → Done QString
  unfolding find_or_make_notebook place_first_note set_default_notebook_id
  create_notebook s raw_name first_note_id =
      if is_empty raw_name
      then (s, [], [])
      else let (s₁, b, already) = find_or_make_notebook s (qt.simplified raw_name) first_note_id in
        let (s₂, u, events) = place_first_note s₁ first_note_id b already in
        let s₃ = if text_eq b (lit "nb000001") then set_default_notebook_id s₂ b else s₂ in
        (s₃, b, events ++ notebooks_list_changed ∷ [])

  -- The map of names is left as it is when a notebook that is there gets another name.
  unfoldable pub set_synced_notebook_data : Store → QString → QString → Done QString
  unfolding create_notebook set_notebook_name set_notebook_guid notebook_id_for_guid
  set_synced_notebook_data s new_guid new_name =
      let found = notebook_id_for_guid s new_guid in
      let (s₁, b, events) =
        if is_empty found
        then create_notebook s new_name []
        else (set_notebook_name s found new_name, found, notebooks_list_changed ∷ []) in
      (set_notebook_guid s₁ b new_guid, b, events)

  unfoldable pub rename_notebook : Store → QString → QString → Done Bool
  unfolding notebook_exists notebook_name named set_notebook_name remove_key set_value
  rename_notebook s b raw_name =
      if is_empty raw_name
      then (s, false, [])
      else if not (notebook_exists s b)
      then (s, false, [])
      else if is_empty (notebook_name s b)
      then (s, false, [])
      else let legal_name = qt.simplified raw_name in
        if not (is_empty (named s legal_name))
        then (s, false, [])
        else let s₁ = set_notebook_name s b legal_name in
          let s₂ = remove_key s₁ notebooks_names (entry (qt.to_upper (notebook_name s b))) in
          (
            set_value s₂ notebooks_names (entry (qt.to_upper legal_name)) (text b),
            true,
            notebooks_list_changed ∷ [],
          )
