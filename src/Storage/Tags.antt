-- ===== src/Storage/Tags.antt =====
-- Tags: StorageManager::createTag to tagIdForGuid, and expungeTag, of
-- src/storage/storagemanager.cpp. A QSet of ids is a list without repetition.
pub mod Names
pub mod Expunge
use notekeeper_open.Base.{
  ℕ, Bool, true, false, not, ◌&&◌, List, [], ◌∷◌, ◌++◌, QString, lit, is_empty, contains, text_eq,
  keep, ◌==◌, map, if◌then◌else◌,
}
use notekeeper_open.Base.Split.{split, join, ids_of}
use notekeeper_open.NotesList.Slots.{tags_changed}
use notekeeper_open.Storage.Signals.{Event, notice, tags_list_changed, Done, Qt}
use notekeeper_open.Storage.Ini.{
  tags_list, tags_names, tags_by_guid, tag_ini, note_gist, note_ids, tag_ids, max_tag_id, name,
  guid, entry, Store, text, to_string, value, set_value, remove_key, remove_file,
}
use notekeeper_open.Storage.Collection.{ids_list, add_object_id, remove_object_id}
use notekeeper_open.Storage.Objects.{create_storage_object}

unfoldable pub tag_exists : Store → QString → Bool
unfolding ids_list
tag_exists s t = if is_empty t then false else contains (ids_list s tags_list tag_ids) t

unfoldable pub add_note_to_tag_data : Store → QString → QString → Store × Bool
unfolding add_object_id
add_note_to_tag_data s note_id t =
    if is_empty t then (s, false) else add_object_id s (tag_ini t) note_ids note_id

unfoldable pub remove_note_from_tag_data : Store → QString → QString → Store × Bool
unfolding remove_object_id
remove_note_from_tag_data s note_id t =
    if is_empty t then (s, false) else remove_object_id s (tag_ini t) note_ids note_id

unfoldable pub tags_on_note : Store → QString → List QString
unfolding ids_list
tags_on_note s note_id = ids_list s (note_gist note_id) tag_ids

-- toSet and the removal of an entry.
unfoldable pub to_set : List QString → List QString
to_set [] = []
to_set (t ∷ ts) = t ∷ keep (λ u. not (text_eq u t)) (to_set ts)

abbrev pub set_without : List QString → QString → List QString
set_without set t = keep (λ u. not (text_eq u t)) set

unfoldable pub all_in : List QString → List QString → Bool
all_in [] set = true
all_in (t ∷ ts) set = let rest = all_in ts set in contains set t && rest

unfoldable pub same_set : List QString → List QString → Bool
unfolding all_in
same_set a b = all_in a b && all_in b a

-- The loop over the new tags: it leaves the old tags that are not among them.
unfoldable pub add_tags_loop : Store → QString → List QString → List QString → Store × List QString
unfolding add_note_to_tag_data
add_tags_loop s note_id [] current = (s, current)
add_tags_loop s note_id (t ∷ ts) current =
    let s₁ = if contains current t then s else (add_note_to_tag_data s note_id t).0 in
    add_tags_loop s₁ note_id ts (set_without current t)

-- The loop over the tags that are left.
unfoldable pub remove_tags_loop : Store → QString → List QString → Store
unfolding remove_note_from_tag_data
remove_tags_loop s note_id [] = s
remove_tags_loop s note_id (t ∷ ts) =
    remove_tags_loop (remove_note_from_tag_data s note_id t).0 note_id ts

unfoldable pub set_tags_on_note : Store → QString → List QString → Done Bool
unfolding ids_list set_value to_set same_set add_tags_loop remove_tags_loop
set_tags_on_note s note_id ts =
    if is_empty note_id
    then (s, false, [])
    else let current = to_set (ids_list s (note_gist note_id) tag_ids) in
      let s₁ = set_value s (note_gist note_id) tag_ids (text (join b',' ts)) in
      if same_set ts current
      then (s₁, false, [])
      else let (s₂, left) = add_tags_loop s₁ note_id ts current in
        (remove_tags_loop s₂ note_id left, true, notice (tags_changed note_id ts) ∷ [])

-- The id at the end of the list, as text.
abbrev pub append_id : QString → QString → QString
append_id ids_str id = if is_empty ids_str then id else ids_str ++ b',' ∷ id

unfoldable pub add_tag_to_note : Store → QString → QString → Store × List Event
unfolding add_note_to_tag_data set_value
add_tag_to_note s note_id t =
    let current = to_string (value s (note_gist note_id) tag_ids) in
    if is_empty note_id
    then (s, [])
    else if is_empty t
    then (s, [])
    else if contains (ids_of current) t
    then (s, [])
    else let s₁ = (add_note_to_tag_data s note_id t).0 in
      let s₂ = set_value s₁ (note_gist note_id) tag_ids (text (append_id current t)) in
      (s₂, notice (tags_changed note_id (split b',' (append_id current t))) ∷ [])

unfoldable pub set_tag_name : Store → QString → QString → Store
unfolding set_value
set_tag_name s t new_name =
    if is_empty t
    then s
    else if is_empty new_name
    then s
    else set_value s (tag_ini t) name (text new_name)

unfoldable pub tag_name : Store → QString → QString
tag_name s t = if is_empty t then [] else to_string (value s (tag_ini t) name)

unfoldable pub set_tag_guid : Store → QString → QString → Store
unfolding set_value
set_tag_guid s t new_guid =
    if is_empty t
    then s
    else if is_empty new_guid
    then s
    else set_value (set_value s (tag_ini t) guid (text new_guid)) tags_by_guid (entry new_guid)
        (text t)

unfoldable pub guid_for_tag_id : Store → QString → QString
guid_for_tag_id s t = if is_empty t then [] else to_string (value s (tag_ini t) guid)

unfoldable pub tag_id_for_guid : Store → QString → QString
tag_id_for_guid s g = if is_empty g then [] else to_string (value s tags_by_guid (entry g))
