-- ===== src/Storage/Contents/Reads.antt =====
-- What noteData of src/storage/storagemanager.cpp reads after a content was fetched.
use notekeeper_open.Base.{
  ℕ, ◌≡◌, refl, ap, Bool, true, false, some, List, QString, is_empty, text_dec, arith,
  if◌then◌else◌, Bool-cases, inl, inr, ◌∙◌, if_no,
}
use notekeeper_open.Storage.Ini.{
  note_gist, note_content, Key, guid, file_dec, content, content_hash, content_valid, QVariant,
  Store, to_string, to_bool, value, set_value, set_values,
}
use notekeeper_open.Storage.Signals.{Event, Qt}
use notekeeper_open.Storage.Notes.{note_id_for_guid}
use notekeeper_open.Storage.Cache.{
  Disk, Cache, note_url, retrieve_note_content, insert_note_content, retrieve-insert_note_content,
}
use notekeeper_open.Storage.Fetched.{available_content}
use notekeeper_open.Storage.Contents.{
  stored_content, no_content, new_gist, is_valid_content, stored_hash, stored_text, sync_hash_of,
  base_hash_of, updated_time_of, is_conflict, is_fetched_before, store_content, fetch_known,
  set_fetched_note_content, note_needs_to_be_available_offline,
}

module _ (s : Store) (n : QString) where
  -- What the content file holds after it was written.
  pub stored_content-read :
      (t hash : QString)
      → let s' = set_values s (note_content n) (stored_content t hash) in
        (stored_text s' n ≡ t) × (stored_hash s' n ≡ hash) × (is_valid_content s' n ≡ true)
  unfolding set_values set_value value
  stored_content-read t hash = ground (arith, file_dec (note_content n) (note_content n))

  pub no_content-read : is_valid_content (set_values s (note_content n) no_content) n ≡ false
  unfolding set_values set_value value
  no_content-read = ground (arith, file_dec (note_content n) (note_content n))

  -- A write to the gist leaves the content file, and one to the content file the gist.
  pub content_apart :
      (new_title hash : QString) (usn at : ℕ) (k : Key)
      → value (set_values s (note_gist n) (new_gist new_title usn hash at)) (note_content n) k
        ≡ value s (note_content n) k
  unfolding set_values set_value value
  content_apart new_title hash usn at k = ground (arith, file_dec (note_gist n) (note_content n))

  pub stored_content_apart :
      (t hash : QString) (k : Key)
      → value (set_values s (note_content n) (stored_content t hash)) (note_gist n) k
        ≡ value s (note_gist n) k
  unfolding set_values set_value value
  stored_content_apart t hash k = ground (arith, file_dec (note_content n) (note_gist n))

  pub no_content_apart :
      (k : Key)
      → value (set_values s (note_content n) no_content) (note_gist n) k ≡ value s (note_gist n) k
  unfolding set_values set_value value
  no_content_apart k = ground (arith, file_dec (note_content n) (note_gist n))

  pub new_gist-read :
      (new_title hash : QString) (usn at : ℕ)
      → let s' : Store = set_values s (note_gist n) (new_gist new_title usn hash at) in
        (base_hash_of s' n ≡ hash)
        × (sync_hash_of s' n ≡ hash)
        × (value s' (note_gist n) guid ≡ value s (note_gist n) guid)
  unfolding set_values set_value value
  new_gist-read new_title hash usn at = ground (arith, file_dec (note_gist n) (note_gist n))

-- The content that the device has, in terms of what the two files hold.
pub available_content-valid :
    (d : Disk) (s : Store) (c : Cache) (n : QString)
    → is_valid_content s n ≡ true
    → (available_content d s c n).1 ≡ some (stored_text s n, stored_hash s n)
unfolding available_content
available_content-valid d s c n h = ground arith

pub available_content-cached :
    (d : Disk) (s : Store) (c : Cache) (n t hash : QString)
    → is_valid_content s n ≡ false
    → retrieve_note_content d c (to_string (value s (note_gist n) guid))
      ≡ record { cache = c; content = t; md5 = hash; found = true }
    → is_empty hash ≡ false
    → sync_hash_of s n ≡ hash
    → (available_content d s c n).1 ≡ some (t, hash)
unfolding available_content
available_content-cached d s c n t hash v r e h = rw r (ground (arith, text_dec hash hash))

-- That a note's content is at hand: in its file, or in the cache under its guid.
data IsAtHand (d : Disk) (s : Store) (c : Cache) (n t hash : QString) : Type 0 where
  in_file :
      stored_text s n ≡ t
      → stored_hash s n ≡ hash
      → is_valid_content s n ≡ true
      → IsAtHand d s c n t hash
  in_cache :
      is_valid_content s n ≡ false
      → retrieve_note_content d c (to_string (value s (note_gist n) guid))
        ≡ record { cache = c; content = t; md5 = hash; found = true }
      → IsAtHand d s c n t hash

module _ (d : Disk) (s : Store) (c : Cache) (n t hash : QString) where
  -- It is read once the gist names the hash.
  IsAtHand-available_content :
      IsAtHand d s c n t hash
      → (new_title fetched : QString) (usn at : ℕ)
      → (is_valid_content s n ≡ false → (is_empty hash ≡ false) × (fetched ≡ hash))
      → (available_content d (set_values s (note_gist n) (new_gist new_title usn fetched at)) c n).1
        ≡ some (t, hash)
  IsAtHand-available_content (in_file p q v) new_title fetched usn at f =
      let s' : Store = set_values s (note_gist n) (new_gist new_title usn fetched at) in
      let same : (k : Key) → value s' (note_content n) k ≡ value s (note_content n) k =
        content_apart s n new_title fetched usn at in
      available_content-valid d s' c n (ap to_bool (same content_valid) ∙ v)
      ∙ ground (arith, ap to_string (same content), ap to_string (same content_hash))
  IsAtHand-available_content (in_cache v r) new_title fetched usn at f =
      let s' : Store = set_values s (note_gist n) (new_gist new_title usn fetched at) in
      let (b, h, g) = new_gist-read s n new_title fetched usn at in
      available_content-cached d s' c n t hash
        (ap to_bool (content_apart s n new_title fetched usn at content_valid) ∙ v)
        (ap (λ (x : QVariant). retrieve_note_content d c (to_string x)) g ∙ r) (f v).0 (h ∙ (f v).1)

-- The disk cache takes an entry for a note, keeps it and hands it out.
abbrev pub IsReliable : Disk → QString → Type 0
IsReliable d note_guid =
    (d.prepares (note_url note_guid) ≡ true)
    × (d.keeps (note_url note_guid) ≡ true)
    × (d.opens (note_url note_guid) ≡ true)

module _ (qt : Qt) (d : Disk) (resolve : QString → QString → ℕ → QString × Bool) where
  store_content-IsAtHand :
      (s : Store) (c : Cache) (n note_guid t hash : QString)
      → to_string (value s (note_gist n) guid) ≡ note_guid
      → IsReliable d note_guid
      → is_empty hash ≡ false
      → IsAtHand d
          (store_content qt d s c n note_guid t hash).0
          (store_content qt d s c n note_guid t hash).1
          n
          t
          hash
  unfolding store_content
  store_content-IsAtHand s c n note_guid t hash g r e =
      elim (Bool-cases (note_needs_to_be_available_offline qt d s n)) [
        | inl offline ↦ let (p, q, v) = stored_content-read s n t hash in rw offline (in_file p q v)
        | inr online ↦
            let inserted : Cache = (insert_note_content d qt.md5 c note_guid t hash).0 in
            let named : to_string
                  (value (set_values s (note_content n) no_content) (note_gist n) guid)
                ≡ note_guid =
              ap to_string (no_content_apart s n guid) ∙ g in
            rw online (
              in_cache (no_content-read s n) (
                ap (retrieve_note_content d inserted) named
                ∙ retrieve-insert_note_content d qt.md5 c note_guid t hash r.0 r.1 r.2 e))
      ]

  -- What the note's content is to be: the resolution of a conflict with its own hash, or the fetched
  -- content.
  abbrev pub fetched_content : Store → QString → QString → QString → QString × QString
  fetched_content s n t hash =
      let resolved = (resolve t (stored_text s n) (updated_time_of s n)).0 in
      if is_conflict qt d resolve s n t hash then (resolved, qt.md5_hex resolved) else (t, hash)

  fetch_known-available_content :
      (s : Store) (c : Cache) (n note_guid new_title t hash : QString) (usn at : ℕ)
      → to_string (value s (note_gist n) guid) ≡ note_guid
      → IsReliable d note_guid
      → is_empty hash ≡ false
      → is_fetched_before s n hash ≡ false
      → (available_content d
          (fetch_known qt d resolve s c n note_guid new_title t hash usn at).0.0
          (fetch_known qt d resolve s c n note_guid new_title t hash usn at).0.1
          n).1
        ≡ some (fetched_content s n t hash)
  unfolding fetch_known
  fetch_known-available_content s c n note_guid new_title t hash usn at g r e fresh =
      elim (Bool-cases (is_conflict qt d resolve s n t hash)) [
        | inl conflict ↦
            let resolved : QString = (resolve t (stored_text s n) (updated_time_of s n)).0 in
            let (p, q, v) = stored_content-read s n resolved (qt.md5_hex resolved) in
            rw (fresh, conflict)
              (IsAtHand-available_content d
                (set_values s (note_content n) (stored_content resolved (qt.md5_hex resolved))) c n
                resolved (qt.md5_hex resolved) (in_file p q v) new_title hash usn at (λ w. cc))
        | inr agreed ↦
            let w : Store × Cache = store_content qt d s c n note_guid t hash in
            rw (fresh, agreed)
              (IsAtHand-available_content d w.0 w.1 n t hash
                (store_content-IsAtHand s c n note_guid t hash g r e) new_title hash usn at
                (λ w. (e, refl)))
      ]

  set_fetched_note_content-known :
      (s : Store) (c : Cache) (note_guid new_title t hash : QString) (usn at : ℕ)
      (attributes : List (Key × QVariant))
      → is_empty (note_id_for_guid s note_guid) ≡ false
      → (set_fetched_note_content qt d resolve s c note_guid new_title t hash usn at attributes).0
        ≡ fetch_known qt d resolve s c
            (note_id_for_guid s note_guid)
            note_guid
            new_title
            t
            hash
            usn
            at
  unfolding set_fetched_note_content
  set_fetched_note_content-known s c note_guid new_title t hash usn at attributes known =
      ap (λ (w : ((Store × Cache) × List Event) × Bool). w.0) (if_no _ _ known)

  -- After setFetchedNoteContent for a note that is known, noteData gives the fetched content with its
  -- hash, or, where the user's edits conflict with it, the resolution with its own hash. The cache
  -- takes the note, keeps it and hands it out, the fetched hash is not empty, the note's gist names
  -- the guid, and the content was not fetched before with edits on top of it.
  pub set_fetched_note_content-available_content :
      (s : Store) (c : Cache) (note_guid new_title t hash : QString) (usn at : ℕ)
      (attributes : List (Key × QVariant))
      → is_empty (note_id_for_guid s note_guid) ≡ false
      → to_string (value s (note_gist (note_id_for_guid s note_guid)) guid) ≡ note_guid
      → IsReliable d note_guid
      → is_empty hash ≡ false
      → is_fetched_before s (note_id_for_guid s note_guid) hash ≡ false
      → let w : (Store × Cache) × List Event =
          (set_fetched_note_content qt d resolve s c note_guid new_title t hash usn at
            attributes).0 in
        (available_content d w.0.0 w.0.1 (note_id_for_guid s note_guid)).1
        ≡ some (fetched_content s (note_id_for_guid s note_guid) t hash)
  set_fetched_note_content-available_content s c note_guid new_title t hash usn at attributes known
        g r e fresh =
      ap
        (λ (w : (Store × Cache) × List Event).
          (available_content d w.0.0 w.0.1 (note_id_for_guid s note_guid)).1)
        (set_fetched_note_content-known s c note_guid new_title t hash usn at attributes known)
      ∙ fetch_known-available_content s c (note_id_for_guid s note_guid) note_guid new_title t hash
          usn at g r e fresh
