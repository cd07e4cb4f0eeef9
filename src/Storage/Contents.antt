-- ===== src/Storage/Contents.antt =====
-- The contents of notes that are fetched, pushed, and kept for reading offline:
-- setFetchedNoteContent, setPushedNote, noteNeedsToBeAvailableOffline to
-- makeNoteContentUnavailableOfflineIfUnedited, of src/storage/storagemanager.cpp. An operation
-- takes the store and the disk cache.
pub mod Reads
pub mod Edits
use notekeeper_open.Base.{
  ℕ, Bool, true, false, not, ◌&&◌, ◌||◌, ◌==◌, List, [], ◌∷◌, ◌++◌, QString, is_empty, contains,
  text_eq, if◌then◌else◌,
}
use notekeeper_open.NotesList.Slots.{display_data_changed}
use notekeeper_open.Storage.Ini.{
  note_gist, note_content, Key, title, notebook_id, favourite, created_here, guid, updated_time,
  sync_content_hash, base_content_usn, base_content_hash, content, content_hash, content_valid,
  QVariant, Store, text, flag, number, to_string, to_bool, to_long_long, value, set_values,
}
use notekeeper_open.Storage.Signals.{Event, notice, Qt}
use notekeeper_open.Storage.Cache.{
  Disk, Cache, Retrieved, retrieve_note_content, insert_note_content, contains_note_content,
}
use notekeeper_open.Storage.Notebooks.Offline.{get_offline_notebook_ids}
use notekeeper_open.Storage.Notes.{note_id_for_guid, guid_for_note_id}
use notekeeper_open.Storage.Fetched.{
  set_synced_note_gist, set_offline_status_change_unresolved_note,
}

-- The three values of a note's content file, and the same when it holds none.
abbrev pub stored_content : QString → QString → List (Key × QVariant)
stored_content new_content hash =
    (content, text new_content) ∷ (content_hash, text hash) ∷ (content_valid, flag true) ∷ []

abbrev pub no_content : List (Key × QVariant)
no_content = (content_valid, flag false) ∷ (content, text []) ∷ (content_hash, text []) ∷ []

abbrev pub is_valid_content : Store → QString → Bool
is_valid_content s note_id = to_bool (value s (note_content note_id) content_valid)

abbrev pub stored_hash : Store → QString → QString
stored_hash s note_id = to_string (value s (note_content note_id) content_hash)

abbrev pub stored_text : Store → QString → QString
stored_text s note_id = to_string (value s (note_content note_id) content)

abbrev pub base_hash_of : Store → QString → QString
base_hash_of s note_id = to_string (value s (note_gist note_id) base_content_hash)

abbrev pub sync_hash_of : Store → QString → QString
sync_hash_of s note_id = to_string (value s (note_gist note_id) sync_content_hash)

abbrev pub updated_time_of : Store → QString → ℕ
updated_time_of s note_id = to_long_long (value s (note_gist note_id) updated_time)

unfoldable pub note_content_available_offline : Store → QString → Bool
note_content_available_offline s note_id =
    let base = base_hash_of s note_id in
    if is_empty note_id
    then false
    else if is_empty base || not (text_eq (sync_hash_of s note_id) base)
    then false
    else is_valid_content s note_id

-- The gist after a fetch or a push.
abbrev pub new_gist : QString → ℕ → QString → ℕ → List (Key × QVariant)
new_gist new_title usn hash updated_at =
    (title, text new_title)
    ∷ (base_content_usn, number usn)
    ∷ (base_content_hash, text hash)
    ∷ (sync_content_hash, text hash)
    ∷ (updated_time, number updated_at)
    ∷ []

-- The user has edited the content since it was fetched, and the server has another one.
unfoldable pub is_edited_apart : Store → QString → QString → Bool
is_edited_apart s note_id hash =
    let base = base_hash_of s note_id in
    let current = stored_hash s note_id in
    not (is_empty base)
    && not (text_eq base hash)
    && is_valid_content s note_id
    && not (text_eq current base)
    && not (text_eq current hash)

-- What was fetched is what the user has edited.
unfoldable pub is_fetched_before : Store → QString → QString → Bool
is_fetched_before s note_id hash =
    let base = base_hash_of s note_id in
    not (is_empty base) && text_eq base hash && is_valid_content s note_id

module _ (qt : Qt) (d : Disk) where
  unfoldable pub note_needs_to_be_available_offline : Store → QString → Bool
  unfolding get_offline_notebook_ids
  note_needs_to_be_available_offline s note_id =
      let notebook = to_string (value s (note_gist note_id) notebook_id) in
      if is_empty note_id
      then false
      else if to_bool (value s (note_gist note_id) created_here)
      then true
      else if to_bool (value s (note_gist note_id) favourite)
      then true
      else contains (get_offline_notebook_ids qt s) notebook

  -- The content goes to the ini file, or to the disk cache.
  unfoldable pub store_content :
      Store → Cache → QString → QString → QString → QString → Store × Cache
  unfolding note_needs_to_be_available_offline set_values insert_note_content
  store_content s c note_id note_guid new_content hash =
      if note_needs_to_be_available_offline s note_id
      then (set_values s (note_content note_id) (stored_content new_content hash), c)
      else (
        set_values s (note_content note_id) no_content,
        (insert_note_content d qt.md5 c note_guid new_content hash).0,
      )

  -- `resolve` is EvernoteMarkup::resolveConflict for the attachments that were fetched: the resolved
  -- content, and whether both contents could be read.
  module _ (resolve : QString → QString → ℕ → QString × Bool) where
    unfoldable pub is_conflict : Store → QString → QString → QString → Bool
    unfolding is_edited_apart
    is_conflict s note_id new_content hash =
        let (resolved, ok) =
          resolve new_content (stored_text s note_id) (updated_time_of s note_id) in
        is_edited_apart s note_id hash && ok && not (text_eq new_content resolved)

    -- setFetchedNoteContent for a note that is known.
    unfoldable pub fetch_known :
        Store
        → Cache
        → QString
        → QString
        → QString
        → QString
        → QString
        → ℕ
        → ℕ
        → (Store × Cache) × List Event
    unfolding is_fetched_before is_conflict store_content set_values
    fetch_known s c note_id note_guid new_title new_content hash usn updated_at =
        let resolved =
          (resolve new_content (stored_text s note_id) (updated_time_of s note_id)).0 in
        let (s₁, c₁) =
          if is_conflict s note_id new_content hash
          then (
            set_values s (note_content note_id) (stored_content resolved (qt.md5_hex resolved)),
            c,
          )
          else store_content s c note_id note_guid new_content hash in
        if is_fetched_before s note_id hash then ((s, c), []) else (
          (set_values s₁ (note_gist note_id) (new_gist new_title usn hash updated_at), c₁),
          notice (display_data_changed note_id (not (updated_time_of s note_id == updated_at)))
              ∷ [],
        )

    -- A note that is not known is made on the fly; setFetchedNoteContent always returns true.
    unfoldable pub set_fetched_note_content :
        Store
        → Cache
        → QString
        → QString
        → QString
        → QString
        → ℕ
        → ℕ
        → List (Key × QVariant)
        → ((Store × Cache) × List Event) × Bool
    unfolding note_id_for_guid set_synced_note_gist fetch_known
    set_fetched_note_content s c note_guid new_title new_content hash usn updated_at attributes =
        let known = note_id_for_guid s note_guid in
        let (s₁, (new_id, changed), events) =
          set_synced_note_gist s note_guid new_title usn hash updated_at updated_at attributes in
        let (made, more) =
          fetch_known s₁ c new_id note_guid new_title new_content hash usn updated_at in
        if is_empty known
        then ((made, events ++ more), true)
        else (fetch_known s c known note_guid new_title new_content hash usn updated_at, true)

  -- A pushed content leaves the ini file for the cache, unless it was edited meanwhile.
  unfoldable pub set_pushed_note :
      Store
      → Cache
      → QString
      → QString
      → QString
      → QString
      → ℕ
      → ℕ
      → ((Store × Cache) × List Event) × Bool
  unfolding note_needs_to_be_available_offline set_values insert_note_content guid_for_note_id
  set_pushed_note s c note_id new_title new_content hash usn updated_at =
      let s₁ = set_values s (note_gist note_id) (new_gist new_title usn hash updated_at) in
      let moves =
        is_valid_content s₁ note_id
        && text_eq (stored_hash s₁ note_id) hash
        && not (note_needs_to_be_available_offline s₁ note_id) in
      let s₂ = if moves then set_values s₁ (note_content note_id) no_content else s₁ in
      let note_guid = guid_for_note_id s₂ note_id in
      let c₁ =
        if moves && not (is_empty note_guid)
        then (insert_note_content d qt.md5 c note_guid new_content hash).0
        else c in
      if is_empty note_id then (((s, c), []), false) else (
        (
          (s₂, c₁),
          if updated_time_of s note_id == updated_at
              then []
              else notice (display_data_changed note_id true) ∷ [],
        ),
        true,
      )

  unfoldable pub try_make_note_content_available_offline_with_cached_data :
      Store → Cache → QString → (Store × Cache) × Bool
  unfolding guid_for_note_id retrieve_note_content set_values
  try_make_note_content_available_offline_with_cached_data s c note_id =
      let note_guid = guid_for_note_id s note_id in
      let r = retrieve_note_content d c note_guid in
      if is_empty note_id
      then ((s, c), false)
      else if is_valid_content s note_id
      then ((s, c), true)
      else if is_empty note_guid
      then ((s, c), false)
      else if r.found
      then ((set_values s (note_content note_id) (stored_content r.content r.md5), r.cache), true)
      else ((s, r.cache), false)

  unfoldable pub make_note_content_unavailable_offline_if_unedited :
      Store → Cache → QString → Store × Cache
  unfolding guid_for_note_id contains_note_content insert_note_content set_values
  make_note_content_unavailable_offline_if_unedited s c note_id =
      let base = base_hash_of s note_id in
      let hash = stored_hash s note_id in
      let note_guid = guid_for_note_id s note_id in
      if is_empty note_id || is_empty base
      then (s, c)
      else if not (is_valid_content s note_id) || is_empty hash
      then (s, c)
      else if not (text_eq base hash)
      then (s, c)
      else if is_empty note_guid
      then (s, c)
      else (
        set_values s (note_content note_id) no_content,
        if contains_note_content c note_guid hash
            then c
            else (insert_note_content d qt.md5 c note_guid (stored_text s note_id) hash).0,
      )
