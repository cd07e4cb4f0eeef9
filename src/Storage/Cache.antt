-- ===== src/Storage/Cache.antt =====
-- SharedDiskCache of src/storage/diskcache/shareddiskcache.cpp: note contents and attachments over a
-- QNetworkDiskCache, which is a map from urls to a stored hash and the data.
pub mod Whole
use notekeeper_open.Storage.Copy.{ℤ, pos, negsuc, Transfer, copy_data}
use notekeeper_open.Base.{
  ℕ, ◌≡◌, refl, Bool, true, false, not, ◌==◌, Option, none, some, [], ◌++◌, QString, arith, lit,
  is_empty, text_eq, text_dec, if◌then◌else◌, update,
}

-- What QNetworkDiskCache does in one call, for each url: whether it hands out a device to write to
-- and to read from, and whether the entry outlives the removals that an insertion brings about.
pub record Disk : Type 0 where
  pub prepares : QString → Bool
  pub opens : QString → Bool
  pub keeps : QString → Bool

abbrev pub Cache : Type 0
Cache = QString → Option (QString × QString)

unfoldable pub cache_insert : Disk → Cache → QString → QString → QString → Cache
unfolding update
cache_insert d c url hash content u =
    if d.keeps u then update c url (some (hash, content)) u else none

unfoldable pub cache_remove : Cache → QString → Cache
unfolding update
cache_remove c url = update c url none

abbrev pub note_url : QString → QString
note_url guid = lit "notecontent://evernote/noteguid/" ++ guid

-- `md5` is QCryptographicHash, for a hash that is not given.
unfoldable pub insert_note_content :
    Disk → (QString → QString) → Cache → QString → QString → QString → Cache × Bool
unfolding cache_insert cache_remove
insert_note_content d md5 c guid content hash =
    let md5hash = if is_empty hash then md5 content else hash in
    let url = note_url guid in
    if not (d.prepares url)
    then (cache_remove c url, false)
    else (cache_insert d c url md5hash content, true)

unfoldable pub contains_entry : Option (QString × QString) → QString → Bool
contains_entry none md5hash = false
contains_entry (some (hash, content)) md5hash =
    if is_empty md5hash then true else text_eq md5hash hash

unfoldable pub contains_note_content : Cache → QString → QString → Bool
unfolding contains_entry
contains_note_content c guid md5hash = contains_entry (c (note_url guid)) md5hash

-- What retrieveNoteContent leaves: the cache, the content and the hash, each empty where it is not
-- set, and what it returns.
pub record Retrieved : Type 0 where
  pub cache : Cache
  pub content : QString
  pub md5 : QString
  pub found : Bool

unfoldable pub retrieve_entry : Disk → Cache → QString → Option (QString × QString) → Retrieved
unfolding cache_remove
retrieve_entry d c url none = record { cache = c; content = []; md5 = []; found = false }
retrieve_entry d c url (some (hash, content)) =
    if not (d.opens url)
    then record { cache = cache_remove c url; content = []; md5 = hash; found = false }
    else record { cache = c; content = content; md5 = hash; found = true }

unfoldable pub retrieve_note_content : Disk → Cache → QString → Retrieved
unfolding retrieve_entry
retrieve_note_content d c guid = retrieve_entry d c (note_url guid) (c (note_url guid))

unfoldable pub remove_note_content : Cache → QString → Cache × Bool
unfolding cache_remove
remove_note_content c guid =
    let url = note_url guid in (cache_remove c url, elim (c url) [ none ↦ false | some e ↦ true ])

abbrev pub attachment_url : QString → QString → QString
attachment_url web_api_url_prefix guid = web_api_url_prefix ++ lit "res/" ++ guid

unfoldable pub contains_evernote_note_attachment : Cache → QString → QString → Bool
contains_evernote_note_attachment c web_api_url_prefix guid =
    elim (c (attachment_url web_api_url_prefix guid)) [ none ↦ false | some e ↦ true ]

unfoldable pub remove_evernote_note_attachment : Cache → QString → QString → Cache
unfolding cache_remove
remove_evernote_note_attachment c web_api_url_prefix guid =
    cache_remove c (attachment_url web_api_url_prefix guid)

unfoldable pub is_size : ℤ → ℕ → Bool
is_size (pos n) size = n == size
is_size (negsuc n) size = false

-- An entry is made only if all bytes were copied.
unfoldable pub copied_to_cache : Disk → Cache → QString → ℕ → Option (QString × ℤ) → Cache × Bool
unfolding cache_insert is_size
copied_to_cache d c url size none = (c, false)
copied_to_cache d c url size (some (content, copied)) =
    if is_size copied size then (cache_insert d c url [] content, true) else (c, false)

-- The source file, where it can be read, its size by the server, and what the two devices do while
-- they are copied.
unfoldable pub insert_evernote_note_attachment :
    Disk → Transfer → Cache → QString → QString → Option QString → ℕ → Cache × Bool
unfolding cache_insert cache_remove copied_to_cache copy_data
insert_evernote_note_attachment d t c web_api_url_prefix guid source size =
    let url = attachment_url web_api_url_prefix guid in
    if not (d.prepares url) then (cache_remove c url, false) else elim source [
      | none ↦ (c, false)
      | some content ↦ copied_to_cache d c url size (copy_data t content)
    ]

-- What retrieveEvernoteNoteAttachment does: the cache, what the target holds, where it could be
-- opened and written to, and whether the size is right.
retrieve_attachment_entry :
    Disk
    → Transfer
    → Cache
    → QString
    → Bool
    → ℕ
    → Option (QString × QString)
    → Cache × (Option QString × Bool)
unfolding cache_remove copy_data is_size
retrieve_attachment_entry d t c url target size none = (c, (none, false))
retrieve_attachment_entry d t c url target size (some (hash, content)) =
    if not (d.opens url)
    then (cache_remove c url, (none, false))
    else if not target
    then (c, (none, false))
    else (
      c,
      elim (copy_data t content) [
        | none ↦ (none, false)
        | some (copy, copied) ↦ (some copy, is_size copied size)
      ],
    )

unfoldable pub retrieve_evernote_note_attachment :
    Disk → Transfer → Cache → QString → QString → Bool → ℕ → Cache × (Option QString × Bool)
unfolding retrieve_attachment_entry
retrieve_evernote_note_attachment d t c web_api_url_prefix guid target size =
    let url = attachment_url web_api_url_prefix guid in
    retrieve_attachment_entry d t c url target size (c url)

pub retrieve_stored :
    (d : Disk) (c : Cache) (guid content hash : QString)
    → d.opens (note_url guid) ≡ true
    → c (note_url guid) ≡ some (hash, content)
    → retrieve_note_content d c guid
      ≡ record { cache = c; content = content; md5 = hash; found = true }
unfolding retrieve_note_content retrieve_entry
retrieve_stored d c guid content hash o h = rw (h, o) refl

-- A note's content is read back as it was inserted, where the cache takes, keeps and opens it.
pub retrieve-insert_note_content :
    (d : Disk) (md5 : QString → QString) (c : Cache) (guid content hash : QString)
    → d.prepares (note_url guid) ≡ true
    → d.keeps (note_url guid) ≡ true
    → d.opens (note_url guid) ≡ true
    → is_empty hash ≡ false
    → retrieve_note_content d (insert_note_content d md5 c guid content hash).0 guid ≡ record {
      cache = (insert_note_content d md5 c guid content hash).0;
      content = content;
      md5 = hash;
      found = true;
    }
unfolding retrieve_note_content retrieve_entry insert_note_content cache_insert update
retrieve-insert_note_content d md5 c guid content hash h k o e =
    ground (arith, text_dec (note_url guid) (note_url guid))
