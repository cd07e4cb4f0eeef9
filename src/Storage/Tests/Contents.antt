-- ===== src/Storage/Tests/Contents.antt =====
-- A note that is fetched, and attachments that are added and removed, on small stores
-- (src/storage/storagemanager.cpp).
use notekeeper_open.Base.{
  ◌==◌, ◌≤◌, ◌++◌, length, arith, ℕ, ◌≡◌, refl, Bool, true, false, none, some, [], QString, lit,
  text_eq, text_dec, if◌then◌else◌,
}
use notekeeper_open.Storage.Ini.{
  sync_ini, deferred_conflicts, note_gist, note_content, guid, sync_content_hash, base_content_hash,
  content, content_hash, content_valid, invalid, text, flag, Store, value,
}
use notekeeper_open.Storage.Cache.{
  Disk, Cache, contains_note_content, contains_entry, attachment_url,
  insert_evernote_note_attachment,
}
use notekeeper_open.Storage.Notes.{note_id_for_guid}
use notekeeper_open.Storage.Fetched.{available_content}
use notekeeper_open.Storage.Contents.{
  is_fetched_before, set_fetched_note_content, make_note_content_unavailable_offline_if_unedited,
}
use notekeeper_open.Storage.Contents.Reads.{
  fetched_content, set_fetched_note_content-available_content,
}
use notekeeper_open.Storage.Contents.Edits.{given_up_content_is_kept}
use notekeeper_open.Storage.Attachments.{
  Attachment, read_attachments, add_attachment_data, remove_attachment_data,
}
use notekeeper_open.Storage.Attachments.Lists.{
  find, add_attachment_data-find, remove_attachment_data-find,
}
use notekeeper_open.Storage.Tests.Data.{plain_qt, n1, two_notes, n1-IsId}
use notekeeper_open.Base.Split.{ids_of}
use notekeeper_open.Storage.Copy.{Transfer}
use notekeeper_open.Storage.Cache.Whole.{insert_evernote_note_attachment_whole}
use notekeeper_open.Storage.Collection.{ids_list}
use notekeeper_open.Storage.Collection.Laws.{HasIds}
use notekeeper_open.Storage.Editing.{Markup, save_edited_content}
use notekeeper_open.Storage.Editing.Saved.{IsSaved, save_edited_content-IsSaved}

abbrev good_disk : Disk
good_disk = record { prepares = λ u. true; keeps = λ u. true; opens = λ u. true }

abbrev no_cache : Cache
no_cache u = none

abbrev g1 : QString
g1 = lit "g1"

abbrev keep_server : QString → QString → ℕ → QString × Bool
keep_server new old time = (new, true)

set_fetched_note_content-available_content_example :
    (available_content good_disk
      (set_fetched_note_content plain_qt good_disk keep_server two_notes no_cache g1
        (lit "title")
        (lit "text")
        (lit "hash")
        7
        9
        []).0.0.0
      (set_fetched_note_content plain_qt good_disk keep_server two_notes no_cache g1
        (lit "title")
        (lit "text")
        (lit "hash")
        7
        9
        []).0.0.1
      (note_id_for_guid two_notes g1)).1
    ≡ some (
        fetched_content plain_qt good_disk keep_server two_notes
          (note_id_for_guid two_notes g1)
          (lit "text")
          (lit "hash"))
unfolding note_id_for_guid value two_notes text_dec is_fetched_before
set_fetched_note_content-available_content_example =
    set_fetched_note_content-available_content plain_qt good_disk keep_server two_notes no_cache g1
      (lit "title") (lit "text") (lit "hash") 7 9 [] refl refl (refl, refl, refl) refl refl

-- One note, with a content that is as it was fetched.
unfoldable pub kept_note : Store
unfolding text_dec
kept_note (note_content n) content = text (lit "text")
kept_note (note_content n) content_hash = text (lit "hash")
kept_note (note_content n) content_valid = flag true
kept_note (note_gist n) guid = text g1
kept_note (note_gist n) base_content_hash = text (lit "hash")
kept_note (note_gist n) sync_content_hash = text (lit "hash")
kept_note _ _ = invalid

given_up_content_is_kept_example :
    (available_content good_disk
      (make_note_content_unavailable_offline_if_unedited plain_qt good_disk kept_note no_cache n1).0
      (make_note_content_unavailable_offline_if_unedited plain_qt good_disk kept_note no_cache n1).1
      n1).1
    ≡ (available_content good_disk kept_note no_cache n1).1
unfolding value kept_note contains_note_content contains_entry
given_up_content_is_kept_example =
    given_up_content_is_kept plain_qt good_disk kept_note no_cache n1 refl refl (refl, refl, refl)
      (λ k. cc)

abbrev photo : Attachment
photo = record {
  guid = lit "a1";
  hash = lit "h1";
  mime = lit "image/png";
  dims = invalid;
  length_in_time = 0;
  bytes = 100;
  file = [];
}

add_attachment_data-find_example :
    find (lit "h1") (read_attachments (add_attachment_data two_notes n1 photo) n1) ≡ (
      if text_eq (lit "h1") (lit "h1")
      then some photo
      else find (lit "h1") (read_attachments two_notes n1))
add_attachment_data-find_example = add_attachment_data-find two_notes n1 photo (lit "h1") refl

remove_attachment_data-find_example :
    ((other : QString)
      → find other (
          read_attachments
            (remove_attachment_data (add_attachment_data two_notes n1 photo) n1 (lit "h1")).0
            n1)
        ≡ (if text_eq (lit "h1") other
            then none
            else find other (read_attachments (add_attachment_data two_notes n1 photo) n1)))
    × ((remove_attachment_data (add_attachment_data two_notes n1 photo) n1 (lit "h1")).1
        ≡ elim (find (lit "h1") (read_attachments (add_attachment_data two_notes n1 photo) n1)) [
          | none ↦ false
          | some x ↦ true
        ])
remove_attachment_data-find_example =
    remove_attachment_data-find (add_attachment_data two_notes n1 photo) n1 (lit "h1") refl

-- Devices that pass one byte in each read, of which the second takes one byte and is full then.
abbrev one_byte : Transfer
one_byte = record { reads = λ k. some 1; writes = λ k c. if k == 0 then some (length c) else none }

abbrev by_bytes : Transfer
by_bytes = record { reads = λ k. some 1; writes = λ k c. some (length c) }

by_bytes-fair : (k : ℕ) (c : QString) (w : ℕ) → by_bytes.writes k c ≡ some w → w ≤ length c
by_bytes-fair k c w h = ground (arith, h)

inserted_by_bytes :
    (insert_evernote_note_attachment good_disk by_bytes
      (λ url. none)
      (lit "p/")
      (lit "g")
      (some (lit "ab"))
      2).1
    ≡ true
unfolding insert_evernote_note_attachment
inserted_by_bytes = refl

insert_evernote_note_attachment_whole_example :
    (insert_evernote_note_attachment good_disk by_bytes
        (λ url. none)
        (lit "p/")
        (lit "g")
        (some (lit "ab"))
        2).0
      (attachment_url (lit "p/") (lit "g"))
    ≡ some ([], lit "ab")
insert_evernote_note_attachment_whole_example =
    insert_evernote_note_attachment_whole good_disk by_bytes (λ url. none) (lit "p/") (lit "g")
      (lit "ab") by_bytes-fair refl inserted_by_bytes

-- EvernoteMarkup appends a text as it is.
abbrev plain_markup : Markup
plain_markup = record {
  update_checkbox_states = λ enml states. none;
  append_text = λ enml t. some (enml ++ t);
  append_attachment = λ enml url a. some enml;
}

no_conflicts : HasIds two_notes sync_ini deferred_conflicts
unfolding ids_list ids_of value two_notes
no_conflicts = tt

save_edited_content-IsSaved_example :
    IsSaved plain_qt plain_markup two_notes 5 n1
      (lit "text")
      (lit "base")
      (save_edited_content plain_qt plain_markup two_notes 5 n1 (lit "text") (lit "base")).0
save_edited_content-IsSaved_example =
    save_edited_content-IsSaved plain_qt plain_markup two_notes 5 n1 (lit "text") (lit "base")
      no_conflicts n1-IsId
