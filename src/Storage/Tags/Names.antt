-- ===== src/Storage/Tags/Names.antt =====
-- Tags by name: createTag, setSyncedTagData and renameTag of src/storage/storagemanager.cpp.
use notekeeper_open.Base.{
  Bool, true, false, not, [], ◌∷◌, ◌++◌, QString, lit, is_empty, ◌==◌, map, if◌then◌else◌,
}
use notekeeper_open.NotesList.Slots.{tags_changed}
use notekeeper_open.Storage.Signals.{notice, tags_list_changed, Done, Qt}
use notekeeper_open.Storage.Ini.{
  tags_list, tags_names, tag_ini, note_gist, note_ids, tag_ids, max_tag_id, name, entry, Store,
  text, to_string, value, set_value, remove_key,
}
use notekeeper_open.Storage.Collection.{add_object_id}
use notekeeper_open.Storage.Objects.{create_storage_object}
use notekeeper_open.Storage.Tags.{
  tag_exists, tag_name, set_tag_name, set_tag_guid, tag_id_for_guid, tags_on_note,
  add_note_to_tag_data,
}

module _ (qt : Qt) where
  unfoldable pub legalized_tag_name : QString → QString
  legalized_tag_name raw_name = map (λ c. if c == b',' then b'-' else c) (qt.simplified raw_name)

  unfoldable pub tag_named : Store → QString → QString
  tag_named s legal_name = to_string (value s tags_names (entry (qt.to_upper legal_name)))

  -- The tag of that name, and whether it is there already; if it is not, it is made.
  unfoldable pub find_or_make_tag : Store → QString → QString → Store × QString × Bool
  unfolding tag_named create_storage_object set_value
  find_or_make_tag s legal_name first_note_id =
      let found = tag_named s legal_name in
      if not (is_empty found)
      then (s, found, true)
      else let (s₁, made) =
          create_storage_object s (lit "tg") tags_list max_tag_id tag_ids
            ((tag_ini, (name, text legal_name) ∷ (note_ids, text first_note_id) ∷ []) ∷ []) in
        (set_value s₁ tags_names (entry (qt.to_upper legal_name)) (text made), made, false)

  unfoldable pub tag_first_note : Store → QString → QString → Bool → Done Unit
  unfolding add_note_to_tag_data add_object_id tags_on_note
  tag_first_note s first_note_id t already =
      if is_empty first_note_id
      then (s, tt, [])
      else let s₁ = if already then (add_note_to_tag_data s first_note_id t).0 else s in
        let s₂ = (add_object_id s₁ (note_gist first_note_id) tag_ids t).0 in
        (s₂, tt, notice (tags_changed first_note_id (tags_on_note s₂ first_note_id)) ∷ [])

  unfoldable pub create_tag : Store → QString → QString → Done QString
  unfolding legalized_tag_name find_or_make_tag tag_first_note
  create_tag s raw_name first_note_id =
      if is_empty raw_name
      then (s, [], [])
      else let (s₁, t, already) = find_or_make_tag s (legalized_tag_name raw_name) first_note_id in
        let (s₂, u, events) = tag_first_note s₁ first_note_id t already in
        (s₂, t, events ++ tags_list_changed ∷ [])

  unfoldable pub set_synced_tag_data : Store → QString → QString → Done QString
  unfolding create_tag set_tag_name set_tag_guid tag_id_for_guid
  set_synced_tag_data s new_guid new_name =
      let found = tag_id_for_guid s new_guid in
      let (s₁, t, events) =
        if is_empty found
        then create_tag s new_name []
        else (set_tag_name s found new_name, found, tags_list_changed ∷ []) in
      (set_tag_guid s₁ t new_guid, t, events)

  unfoldable pub rename_tag : Store → QString → QString → Done Bool
  unfolding tag_exists tag_name tag_named set_tag_name remove_key set_value legalized_tag_name
  rename_tag s t raw_name =
      if is_empty raw_name
      then (s, false, [])
      else if not (tag_exists s t)
      then (s, false, [])
      else if is_empty (tag_name s t)
      then (s, false, [])
      else let legal_name = legalized_tag_name raw_name in
        if not (is_empty (tag_named s legal_name))
        then (s, false, [])
        else let s₁ = set_tag_name s t legal_name in
          let s₂ = remove_key s₁ tags_names (entry (qt.to_upper (tag_name s t))) in
          (
            set_value s₂ tags_names (entry (qt.to_upper legal_name)) (text t),
            true,
            tags_list_changed ∷ [],
          )
