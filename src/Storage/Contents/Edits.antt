-- ===== src/Storage/Contents/Edits.antt =====
-- What a push, and giving up a content that was kept offline, leave of a note's content
-- (src/storage/storagemanager.cpp).
use notekeeper_open.Base.{
  ◌≡◌, refl, sym, ap, Bool, true, false, not, ◌||◌, some, QString, is_empty, text_eq, arith,
  if◌then◌else◌, Bool-cases, inl, inr, ◌∙◌,
}
use notekeeper_open.Storage.Ini.{
  note_gist, note_content, sync_content_hash, guid, Store, to_string, value, set_values,
}
use notekeeper_open.Storage.Signals.{Qt}
use notekeeper_open.Storage.Cache.{
  Disk, Cache, note_url, retrieve_note_content, retrieve_stored, contains_note_content,
  insert_note_content, retrieve-insert_note_content,
}
use notekeeper_open.Storage.Notes.{guid_for_note_id}
use notekeeper_open.Storage.Fetched.{available_content}
use notekeeper_open.Storage.Contents.{
  no_content, is_valid_content, stored_hash, stored_text, sync_hash_of, base_hash_of,
  make_note_content_unavailable_offline_if_unedited,
}
use notekeeper_open.Storage.Contents.Reads.{
  no_content-read, no_content_apart, available_content-valid, available_content-cached, IsReliable,
}

-- The cache's entry for the note, where it has the hash, is the content in the file.
abbrev pub IsFaithful : Store → Cache → QString → QString → Type 0
IsFaithful s c n note_guid =
    contains_note_content c note_guid (stored_hash s n) ≡ true
    → c (note_url note_guid) ≡ some (stored_hash s n, stored_text s n)

module _ (qt : Qt) (d : Disk) where
  -- The cache after the content was given up hands it out.
  given_up_cached :
      (s : Store) (c : Cache) (n note_guid : QString)
      → IsReliable d note_guid
      → is_empty (stored_hash s n) ≡ false
      → IsFaithful s c n note_guid
      → let c' : Cache =
          if contains_note_content c note_guid (stored_hash s n)
          then c
          else (insert_note_content d qt.md5 c note_guid (stored_text s n) (stored_hash s n)).0 in
        retrieve_note_content d c' note_guid
        ≡ record { cache = c'; content = stored_text s n; md5 = stored_hash s n; found = true }
  given_up_cached s c n note_guid r e f =
      elim (Bool-cases (contains_note_content c note_guid (stored_hash s n))) [
        | inl there ↦
            rw there
              (retrieve_stored d c note_guid (stored_text s n) (stored_hash s n) r.2 (f there))
        | inr absent ↦ rw absent (
            retrieve-insert_note_content d qt.md5 c note_guid (stored_text s n) (stored_hash s n)
              r.0 r.1 r.2 e)
      ]

  -- What is given up: nothing, or a content that was not edited, to the cache.
  data GivenUp (s : Store) (c : Cache) (n : QString) (w : Store × Cache) : Type 0 where
    kept : w ≡ (s, c) → GivenUp s c n w
    moved :
        base_hash_of s n ≡ stored_hash s n
        → is_empty (stored_hash s n) ≡ false
        → guid_for_note_id s n ≡ to_string (value s (note_gist n) guid)
        → w ≡ (
          set_values s (note_content n) no_content,
          if contains_note_content c (guid_for_note_id s n) (stored_hash s n)
              then c
              else (insert_note_content d qt.md5 c
                  (guid_for_note_id s n)
                  (stored_text s n)
                  (stored_hash s n)).0,
        )
        → GivenUp s c n w

  if-GivenUp :
      (s : Store) (c : Cache) (n : QString) (b : Bool) (w : Store × Cache)
      → (b ≡ false → GivenUp s c n w)
      → GivenUp s c n (if b then (s, c) else w)
  if-GivenUp s c n true w h = kept refl
  if-GivenUp s c n false w h = h refl

  make-GivenUp :
      (s : Store) (c : Cache) (n : QString)
      → GivenUp s c n (make_note_content_unavailable_offline_if_unedited qt d s c n)
  unfolding make_note_content_unavailable_offline_if_unedited
  make-GivenUp s c n = if-GivenUp s c n (is_empty n || is_empty (base_hash_of s n)) _ (λ e.
      if-GivenUp s c n (not (is_valid_content s n) || is_empty (stored_hash s n)) _ (λ f.
        if-GivenUp s c n (not (text_eq (base_hash_of s n) (stored_hash s n))) _ (λ g.
          if-GivenUp s c n (is_empty (guid_for_note_id s n)) _ (λ k.
            moved (ground arith) (ground arith) (unfold guid_for_note_id in ground arith) refl))))

  -- Giving up a content that was kept offline loses nothing: what noteData gives of a valid content
  -- is as before. The note has a guid for which the cache is reliable and holds nothing else under
  -- the same hash, and the gist names one hash as the server's and as the content's base.
  pub given_up_content_is_kept :
      (s : Store) (c : Cache) (n : QString)
      → is_valid_content s n ≡ true
      → sync_hash_of s n ≡ base_hash_of s n
      → IsReliable d (guid_for_note_id s n)
      → IsFaithful s c n (guid_for_note_id s n)
      → let w : Store × Cache = make_note_content_unavailable_offline_if_unedited qt d s c n in
        (available_content d w.0 w.1 n).1 ≡ (available_content d s c n).1
  given_up_content_is_kept s c n v h r f = elim (make-GivenUp s c n) [
    | kept p ↦ ap (λ (w : Store × Cache). (available_content d w.0 w.1 n).1) p
    | moved b e g p ↦
        let note_guid : QString = guid_for_note_id s n in
        let s' : Store = set_values s (note_content n) no_content in
        let c' : Cache =
          if contains_note_content c note_guid (stored_hash s n)
          then c
          else (insert_note_content d qt.md5 c note_guid (stored_text s n) (stored_hash s n)).0 in
        let named : to_string (value s' (note_gist n) guid) ≡ note_guid =
          ap to_string (no_content_apart s n guid) ∙ sym g in
        let synced : sync_hash_of s' n ≡ stored_hash s n =
          ap to_string (no_content_apart s n sync_content_hash) ∙ h ∙ b in
        ap (λ (w : Store × Cache). (available_content d w.0 w.1 n).1) p
        ∙ available_content-cached d s' c' n (stored_text s n) (stored_hash s n)
            (no_content-read s n)
            (ap (retrieve_note_content d c') named ∙ given_up_cached s c n note_guid r e f) e synced
        ∙ sym (available_content-valid d s c n v)
  ]
