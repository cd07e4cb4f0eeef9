-- ===== src/Storage/Offline.antt =====
-- Settling which notes are kept for reading offline: tryResolveOfflineStatusChange with what it does to
-- contents and attachment files, of src/storage/storagemanager.cpp.
use notekeeper_open.Base.{
  ℕ, Bool, true, false, not, ◌&&◌, ◌||◌, ◌==◌, Option, none, some, List, [], ◌∷◌, QString, is_empty,
  length, update, if◌then◌else◌,
}
use notekeeper_open.Storage.Ini.{auth_ini, web_api_url_prefix, Store, to_string, value}
use notekeeper_open.Storage.Signals.{Qt}
use notekeeper_open.Storage.Copy.{Transfer}
use notekeeper_open.Storage.Cache.{
  Disk, Cache, insert_evernote_note_attachment, retrieve_evernote_note_attachment,
  remove_evernote_note_attachment,
}
use notekeeper_open.Storage.Fetched.{
  set_offline_status_change_unresolved_note, offline_status_change_unresolved_notes,
}
use notekeeper_open.Storage.Contents.{
  note_needs_to_be_available_offline, note_content_available_offline,
  try_make_note_content_available_offline_with_cached_data,
  make_note_content_unavailable_offline_if_unedited,
}
use notekeeper_open.Storage.Attachments.{
  Attachment, read_attachments, note_attachments_available_offline,
}

-- The files of a note's attachments by their names, with their data.
abbrev pub FileData : Type 0
FileData = QString → Option QString

unfoldable pub size_of : Option QString → Option ℕ
size_of none = none
size_of (some t) = some (length t)

abbrev pub sizes : FileData → QString → Option ℕ
sizes files name = size_of (files name)

has_length : Option QString → ℕ → Bool
has_length none n = false
has_length (some t) n = length t == n

is_there : Option QString → Bool
is_there none = false
is_there (some t) = true

-- What a file holds after a write, or as it was.
or_kept : Option QString → Option QString → Option QString
or_kept none old = old
or_kept (some t) old = some t

abbrev pub auth_prefix : Store → QString
auth_prefix s = to_string (value s auth_ini web_api_url_prefix)

-- Qt, the disk of the cache, and what the devices do while the attachment of a guid is copied.
module _ (qt : Qt) (d : Disk) (transfer : QString → Transfer) where
  -- One attachment that is to be read offline, from the cache where its file is missing.
  fetch_attachment : QString → Attachment → FileData × Cache → (FileData × Cache) × Bool
  unfolding has_length update or_kept is_there retrieve_evernote_note_attachment
      remove_evernote_note_attachment
  fetch_attachment url_prefix a (files, c) =
      let (c₁, (target, ok)) =
        retrieve_evernote_note_attachment d (transfer a.guid) c url_prefix a.guid true a.bytes in
      let files₁ = update files a.guid (or_kept target (files a.guid)) in
      if has_length (files a.guid) a.bytes
      then ((files, c), true)
      else if ok
      then ((files₁, c₁), true)
      else if is_there (files₁ a.guid)
      then (
        (update files₁ a.guid none, remove_evernote_note_attachment c₁ url_prefix a.guid),
        false,
      )
      else ((files₁, c₁), false)

  fetch_loop : QString → List Attachment → FileData × Cache → (FileData × Cache) × Bool
  unfolding fetch_attachment
  fetch_loop url_prefix [] w = (w, true)
  fetch_loop url_prefix (a ∷ xs) w =
      let (w₁, made) = fetch_attachment url_prefix a w in
      let (w₂, rest) = fetch_loop url_prefix xs w₁ in (w₂, made && rest)

  unfoldable pub try_make_note_attachments_available_offline_with_cached_data :
      Store → FileData × Cache → QString → (FileData × Cache) × Bool
  unfolding fetch_loop read_attachments
  try_make_note_attachments_available_offline_with_cached_data s w note_id =
      if is_empty note_id || is_empty (auth_prefix s)
      then (w, false)
      else fetch_loop (auth_prefix s) (read_attachments s note_id) w

  -- One attachment that need not be read offline: its file goes to the cache and is removed.
  give_up_attachment : QString → Attachment → FileData × Cache → FileData × Cache
  unfolding has_length update is_there insert_evernote_note_attachment
  give_up_attachment url_prefix a (files, c) =
      if not (is_there (files a.guid)) then (files, c) else (
        update files a.guid none,
        if has_length (files a.guid) a.bytes
            then (insert_evernote_note_attachment d (transfer a.guid) c url_prefix a.guid
                (files a.guid) a.bytes).0
            else c,
      )

  give_up_loop : QString → List Attachment → FileData × Cache → FileData × Cache
  unfolding give_up_attachment
  give_up_loop url_prefix [] w = w
  give_up_loop url_prefix (a ∷ xs) w =
      give_up_loop url_prefix xs (give_up_attachment url_prefix a w)

  unfoldable pub make_note_attachments_unavailable_offline :
      Store → FileData × Cache → QString → FileData × Cache
  unfolding give_up_loop read_attachments
  make_note_attachments_unavailable_offline s w note_id =
      if is_empty note_id || is_empty (auth_prefix s)
      then w
      else give_up_loop (auth_prefix s) (read_attachments s note_id) w

  -- The store, the files and the cache after it; whether the note is to be available offline, and
  -- whether it has been made so.
  unfoldable pub try_resolve_offline_status_change :
      Store → FileData × Cache → QString → (Store × FileData × Cache) × (Bool × Bool)
  unfolding note_needs_to_be_available_offline
      try_make_note_content_available_offline_with_cached_data
      try_make_note_attachments_available_offline_with_cached_data note_content_available_offline
      note_attachments_available_offline set_offline_status_change_unresolved_note
      make_note_content_unavailable_offline_if_unedited make_note_attachments_unavailable_offline
  try_resolve_offline_status_change s (files, c) note_id =
      let ((s₁, c₁), content_ok) =
        try_make_note_content_available_offline_with_cached_data qt d s c note_id in
      let ((files₁, c₂), attachments_ok) =
        try_make_note_attachments_available_offline_with_cached_data s₁ (files, c₁) note_id in
      let made =
        content_ok
        && attachments_ok
        && note_content_available_offline s₁ note_id
        && note_attachments_available_offline (sizes files₁) s₁ note_id in
      let (s₂, c₃) = make_note_content_unavailable_offline_if_unedited qt d s c note_id in
      let (files₂, c₄) = make_note_attachments_unavailable_offline s₂ (files, c₃) note_id in
      if is_empty note_id
      then ((s, files, c), (false, false))
      else if note_needs_to_be_available_offline qt d s note_id
      then (
        (
          if made then set_offline_status_change_unresolved_note s₁ note_id false else s₁,
          files₁,
          c₂,
        ),
        (true, made),
      )
      else (
        (set_offline_status_change_unresolved_note s₂ note_id false, files₂, c₄),
        (false, false),
      )

  -- Each note that is listed, with what the one before has left.
  resolve_loop : Store × FileData × Cache → List QString → Store × FileData × Cache
  unfolding try_resolve_offline_status_change
  resolve_loop w [] = w
  resolve_loop (s, files, c) (n ∷ ns) =
      resolve_loop (try_resolve_offline_status_change s (files, c) n).0 ns

  unfoldable pub try_resolve_offline_status_changes :
      Store × FileData × Cache → Store × FileData × Cache
  unfolding resolve_loop offline_status_change_unresolved_notes
  try_resolve_offline_status_changes (s, files, c) =
      resolve_loop (s, files, c) (offline_status_change_unresolved_notes s)
