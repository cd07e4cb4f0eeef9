-- ===== src/Storage/Notebooks/Offline.antt =====
-- The notebooks kept for reading offline: offlineNotebookIds, setOfflineNotebookIds and
-- setOfflineStatusChangeUnresolvedNotebook of src/storage/storagemanager.cpp.
use notekeeper_open.Base.{
  Bool, true, not, ◌&&◌, List, [], ◌∷◌, ◌++◌, QString, is_empty, contains, text_eq, keep,
  if◌then◌else◌,
}
use notekeeper_open.Base.Split.{split}
use notekeeper_open.Storage.Signals.{Qt}
use notekeeper_open.Storage.Ini.{
  notebooks_list, root_list, unresolved_notebooks, offline_notebook_ids, Store, text, to_string,
  value, set_value,
}
use notekeeper_open.Storage.Collection.{add_object_id, remove_object_id}
use notekeeper_open.Storage.Notebooks.{notebook_exists}

unfoldable pub set_unresolved_notebook : Store → QString → Bool → Store
unfolding add_object_id remove_object_id
set_unresolved_notebook s b changed =
    if is_empty b
    then s
    else if changed
    then (add_object_id s root_list unresolved_notebooks b).0
    else (remove_object_id s root_list unresolved_notebooks b).0

-- The loops that mark each notebook of a list.
unfoldable pub mark_unresolved : Store → List QString → Store
unfolding set_unresolved_notebook
mark_unresolved s [] = s
mark_unresolved s (b ∷ bs) = mark_unresolved (set_unresolved_notebook s b true) bs

unfoldable pub get_offline_notebook_ids : Qt → Store → List QString
unfolding notebook_exists
get_offline_notebook_ids qt s =
    let ids_str = qt.trimmed (to_string (value s notebooks_list offline_notebook_ids)) in
    if is_empty ids_str
    then []
    else keep (λ b. not (is_empty b) && notebook_exists s b) (split b',' ids_str)

-- A QSet as a list, without repetition: `remove` takes out every occurrence.
abbrev pub set_remove : List QString → QString → List QString
set_remove set b = keep (λ a. not (text_eq a b)) set

-- The ids that are kept, as text, those that were not offline, and those still in the set.
abbrev pub OfflineScan : Type 0
OfflineScan = QString × List QString × List QString

unfoldable pub offline_loop :
    Store → List QString → QString → List QString → List QString → OfflineScan
unfolding notebook_exists
offline_loop s current ids_str newly [] = (ids_str, newly, current)
offline_loop s current ids_str newly (b ∷ bs) =
    let already = contains current b in
    let kept = not (is_empty b) && notebook_exists s b in
    let longer = if is_empty ids_str then b else ids_str ++ b',' ∷ b in
    offline_loop s (set_remove current b) (if kept then longer else ids_str)
      (if kept && not already then newly ++ b ∷ [] else newly) bs

unfoldable pub set_offline_notebook_ids : Qt → Store → List QString → Store
unfolding get_offline_notebook_ids offline_loop mark_unresolved set_value
set_offline_notebook_ids qt s bs =
    let (ids_str, newly, dropped) = offline_loop s (get_offline_notebook_ids qt s) [] [] bs in
    let s₁ = mark_unresolved (mark_unresolved s newly) dropped in
    set_value s₁ notebooks_list offline_notebook_ids (text ids_str)
