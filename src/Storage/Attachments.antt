-- ===== src/Storage/Attachments.antt =====
-- The attachments of a note in its attachments.ini: addAttachmentData, removeAttachmentData,
-- attachmentsData, noteAttachmentsTotalSize, and temp.ini's list of files, of
-- src/storage/storagemanager.cpp. An array of QSettings is its size and the fields by index; the
-- files of a note are a function from their names to their sizes.
pub mod Array
pub mod Lists
use notekeeper_open.Base.{
  ℕ, zero, suc, ◌+◌, Bool, true, false, not, ◌&&◌, ◌||◌, ◌==◌, ltb, Option, none, some, List, [],
  ◌∷◌, ◌++◌, map, QString, lit, length, is_empty, contains, text_eq, if◌then◌else◌,
}
use notekeeper_open.Base.Split.{join, ids_of}
use notekeeper_open.Base.Members.{remove_all}
use notekeeper_open.Storage.Ini.{
  IniFile, note_attachments, temp_ini, auth_ini, auth_dat, AttachmentKey, attachment_guid,
  attachment_hash, mime_type, dimensions, duration, size, file_name, Key, attachment,
  attachments_size, unpushed_removals, unremoved_temp_files, username, auth_token, note_store_url,
  web_api_url_prefix, QVariant, Store, text, number, to_string, to_int, value, set_value,
  set_values, remove_file,
}

pub record Attachment : Type 0 where
  pub guid : QString
  pub hash : QString
  pub mime : QString
  pub dims : QVariant
  pub length_in_time : ℕ
  pub bytes : ℕ
  pub file : QString

abbrev pub field : Store → QString → ℕ → AttachmentKey → QVariant
field s n i k = value s (note_attachments n) (attachment i k)

unfoldable pub read_entry : Store → QString → ℕ → Attachment
read_entry s n i = record {
  guid = to_string (field s n i attachment_guid);
  hash = to_string (field s n i attachment_hash);
  mime = to_string (field s n i mime_type);
  dims = field s n i dimensions;
  length_in_time = to_int (field s n i duration);
  bytes = to_int (field s n i size);
  file = to_string (field s n i file_name);
}

-- `count` entries from an index on.
unfoldable pub read_from : Store → QString → ℕ → ℕ → List Attachment
unfolding read_entry
read_from s n i zero = []
read_from s n i (suc count) = read_entry s n i ∷ read_from s n (suc i) count

unfoldable pub read_attachments : Store → QString → List Attachment
unfolding read_from
read_attachments s n = read_from s n 0 (to_int (value s (note_attachments n) attachments_size))

abbrev pub entry_pairs : ℕ → Attachment → List (Key × QVariant)
entry_pairs i a =
    (attachment i attachment_guid, text a.guid)
    ∷ (attachment i attachment_hash, text a.hash)
    ∷ (attachment i mime_type, text a.mime)
    ∷ (attachment i dimensions, a.dims)
    ∷ (attachment i duration, number a.length_in_time)
    ∷ (attachment i size, number a.bytes)
    ∷ (attachment i file_name, text a.file)
    ∷ []

unfoldable pub write_entry : Store → QString → ℕ → Attachment → Store
unfolding set_values
write_entry s n i a = set_values s (note_attachments n) (entry_pairs i a)

unfoldable pub write_from : Store → QString → ℕ → List Attachment → Store
unfolding write_entry
write_from s n i [] = s
write_from s n i (a ∷ xs) = write_from (write_entry s n i a) n (suc i) xs

-- beginWriteArray with the size, and the loop.
unfoldable pub write_attachments : Store → QString → List Attachment → Store
unfolding set_value write_from
write_attachments s n xs =
    write_from (set_value s (note_attachments n) attachments_size (number (length xs))) n 0 xs

-- The existing entries, with those of the incoming hash replaced, and whether there was one.
unfoldable pub replace_loop : Attachment → List Attachment → List Attachment × Bool
replace_loop a [] = ([], false)
replace_loop a (x ∷ xs) =
    let (rest, added) = replace_loop a xs in
    if text_eq x.hash a.hash then (a ∷ rest, true) else (x ∷ rest, added)

unfoldable pub add_attachment_data : Store → QString → Attachment → Store
unfolding read_attachments replace_loop write_attachments
add_attachment_data s n a =
    let (existing, added) = replace_loop a (read_attachments s n) in
    if is_empty a.hash
    then s
    else write_attachments s n (if added then existing else existing ++ a ∷ [])

-- The entries that stay, the guids of those that are removed, and whether one is.
unfoldable pub remove_loop : QString → List Attachment → List Attachment × (List QString × Bool)
remove_loop hash [] = ([], ([], false))
remove_loop hash (x ∷ xs) =
    let (rest, (guids, removed)) = remove_loop hash xs in
    if text_eq x.hash hash
    then (rest, (if is_empty x.guid then guids else x.guid ∷ guids, true))
    else (x ∷ rest, (guids, removed))

unfoldable pub add_removals : Store → QString → List QString → Store
unfolding set_value
add_removals s n guids =
    let unpushed = to_string (value s (note_attachments n) unpushed_removals) in
    let joined = join b',' guids in
    if is_empty guids
    then s
    else set_value s (note_attachments n) unpushed_removals
        (text (if is_empty unpushed then joined else unpushed ++ b',' ∷ joined))

unfoldable pub remove_attachment_data : Store → QString → QString → Store × Bool
unfolding read_attachments remove_loop write_attachments add_removals
remove_attachment_data s n hash =
    let (existing, (guids, removed)) = remove_loop hash (read_attachments s n) in
    if is_empty hash
    then (s, false)
    else if removed
    then (add_removals (write_attachments s n existing) n guids, true)
    else (s, false)

has_size : Option ℕ → ℕ → Bool
has_size none bytes = false
has_size (some n) bytes = n == bytes

-- The file of an attachment: by its hash, or by its guid as in old versions.
unfoldable pub file_of : (QString → Option ℕ) → Attachment → Option QString
unfolding has_size
file_of files a =
    if has_size (files a.hash) a.bytes
    then some a.hash
    else if not (is_empty a.guid) && has_size (files a.guid) a.bytes
    then some a.guid
    else none

unfoldable pub attachments_data :
    (QString → Option ℕ) → Store → QString → List (Attachment × Option QString)
unfolding read_attachments file_of
attachments_data files s n =
    if is_empty n then [] else map (λ (a : Attachment). (a, file_of files a)) (read_attachments s n)

total_of : List Attachment → ℕ
total_of [] = 0
total_of (a ∷ xs) = a.bytes + total_of xs

unfoldable pub note_attachments_total_size : Store → QString → ℕ
unfolding read_attachments total_of
note_attachments_total_size s n = if is_empty n then 0 else total_of (read_attachments s n)

-- Whether every file is there, by the paths that attachmentsData gives.
unfoldable pub all_files_there : List (Attachment × Option QString) → Bool
all_files_there [] = true
all_files_there ((a, none) ∷ xs) = false
all_files_there ((a, some path) ∷ xs) = all_files_there xs

unfoldable pub note_attachments_available_offline : (QString → Option ℕ) → Store → QString → Bool
unfolding attachments_data all_files_there
note_attachments_available_offline files s n =
    if is_empty n then false else all_files_there (attachments_data files s n)

unfoldable pub unremoved_temp_file_list : Store → List QString
unremoved_temp_file_list s = ids_of (to_string (value s temp_ini unremoved_temp_files))

unfoldable pub set_unremoved_temp_file : Store → QString → Bool → Store × Bool
unfolding unremoved_temp_file_list set_value remove_all
set_unremoved_temp_file s path unremoved =
    let paths = unremoved_temp_file_list s in
    let write =
      λ (ps : List QString). set_value s temp_ini unremoved_temp_files (text (join b',' ps)) in
    if is_empty path
    then (s, false)
    else if unremoved
    then if contains paths path then (s, false) else (write (paths ++ path ∷ []), true)
    else if contains paths path
    then (write (remove_all paths path), true)
    else (s, false)

-- isAuthDataValid and purgeEvernoteAuthData, over auth.ini and auth.dat.
unfoldable pub is_auth_data_valid : Store → Bool
is_auth_data_valid s = not (
    is_empty (to_string (value s auth_ini username))
    || is_empty (to_string (value s auth_dat auth_token))
    || is_empty (to_string (value s auth_ini note_store_url))
    || is_empty (to_string (value s auth_ini web_api_url_prefix)))

unfoldable pub purge_evernote_auth_data : Store → Store
unfolding remove_file
purge_evernote_auth_data s = remove_file (remove_file s auth_ini) auth_dat
