-- ===== src/Storage/Tags/Expunge.antt =====
-- StorageManager::expungeTag of src/storage/storagemanager.cpp.
use notekeeper_open.Base.{List, [], ◌∷◌, QString, is_empty, if◌then◌else◌}
use notekeeper_open.Storage.Signals.{Event, tags_list_changed}
use notekeeper_open.Storage.Ini.{
  tags_list, tags_names, tags_by_guid, tag_ini, note_gist, note_ids, tag_ids, name, entry, Store,
  to_string, value, remove_key, remove_file,
}
use notekeeper_open.Storage.Collection.{ids_list, remove_object_id}
use notekeeper_open.Storage.Tags.{guid_for_tag_id}

-- The loop that takes the tag off its notes.
unfoldable pub untag_notes : Store → QString → List QString → Store
unfolding remove_object_id
untag_notes s t [] = s
untag_notes s t (note_id ∷ rest) =
    untag_notes (remove_object_id s (note_gist note_id) tag_ids t).0 t rest

unfoldable pub expunge_tag : Store → QString → Store × List Event
unfolding untag_notes ids_list remove_key remove_object_id remove_file guid_for_tag_id
expunge_tag s t =
    if is_empty t
    then (s, [])
    else let s₁ = untag_notes s t (ids_list s (tag_ini t) note_ids) in
      let old_name = to_string (value s₁ (tag_ini t) name) in
      let s₂ = if is_empty old_name then s₁ else remove_key s₁ tags_names (entry old_name) in
      let old_guid = guid_for_tag_id s₂ t in
      let s₃ = if is_empty old_guid then s₂ else remove_key s₂ tags_by_guid (entry old_guid) in
      let s₄ = (remove_object_id s₃ tags_list tag_ids t).0 in
      (remove_file s₄ (tag_ini t), tags_list_changed ∷ [])
