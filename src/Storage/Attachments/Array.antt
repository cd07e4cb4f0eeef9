-- ===== src/Storage/Attachments/Array.antt =====
-- An array of attachments is read as it was written (src/storage/storagemanager.cpp).
use notekeeper_open.Base.{
  ℕ, suc, ◌<◌, ◌≡◌, ◌≢◌, refl, ap₂, ◌∙◌, List, [], ◌∷◌, QString, length, All, arith,
}
use notekeeper_open.Storage.Ini.{
  IniFile, note_attachments, AttachmentKey, attachment_guid, attachment_hash, mime_type, dimensions,
  duration, size, file_name, Key, attachment, attachments_size, file_dec, Store, QVariant, text,
  number, value, set_value, set_values,
}
use notekeeper_open.Storage.Attachments.{
  Attachment, entry_pairs, field, read_entry, read_from, read_attachments, write_entry, write_from,
  write_attachments,
}

-- A key of the file that is not one of an entry.
abbrev pub IsOutside : Key → Type 0
IsOutside k = (i : ℕ) (f : AttachmentKey) → k ≢ attachment i f

set_value_apart :
    (s : Store) (f : IniFile) (k k' : Key) (v : QVariant)
    → k' ≢ k
    → value (set_value s f k v) f k' ≡ value s f k'
unfolding set_value value
set_value_apart s f k k' v h = ground arith

set_values_apart :
    (s : Store) (f : IniFile) (k : Key) (pairs : List (Key × QVariant))
    → All (λ p. k ≢ p.0) pairs
    → value (set_values s f pairs) f k ≡ value s f k
unfolding set_values
set_values_apart s f k [] h = refl
set_values_apart s f k ((k', v) ∷ pairs) h =
    set_values_apart (set_value s f k' v) f k pairs h.1 ∙ set_value_apart s f k' k v h.0

value_of : Attachment → AttachmentKey → QVariant
value_of a attachment_guid = text a.guid
value_of a attachment_hash = text a.hash
value_of a mime_type = text a.mime
value_of a dimensions = a.dims
value_of a duration = number a.length_in_time
value_of a size = number a.bytes
value_of a file_name = text a.file

module _ (n : QString) where
  field-write_entry :
      (s : Store) (i : ℕ) (a : Attachment) (k : AttachmentKey)
      → field (write_entry s n i a) n i k ≡ value_of a k
  unfolding value_of write_entry set_values set_value value
  field-write_entry s i a attachment_guid =
      ground (arith, file_dec (note_attachments n) (note_attachments n))
  field-write_entry s i a attachment_hash =
      ground (arith, file_dec (note_attachments n) (note_attachments n))
  field-write_entry s i a mime_type =
      ground (arith, file_dec (note_attachments n) (note_attachments n))
  field-write_entry s i a dimensions =
      ground (arith, file_dec (note_attachments n) (note_attachments n))
  field-write_entry s i a duration =
      ground (arith, file_dec (note_attachments n) (note_attachments n))
  field-write_entry s i a size = ground (arith, file_dec (note_attachments n) (note_attachments n))
  field-write_entry s i a file_name =
      ground (arith, file_dec (note_attachments n) (note_attachments n))

  read_entry-write_entry :
      (s : Store) (i : ℕ) (a : Attachment) → read_entry (write_entry s n i a) n i ≡ a
  unfolding read_entry value_of
  read_entry-write_entry s i a =
      let h : (k : AttachmentKey) → field (write_entry s n i a) n i k ≡ value_of a k =
        field-write_entry s i a in
      rw
        (
          h attachment_guid,
          h attachment_hash,
          h mime_type,
          h dimensions,
          h duration,
          h size,
          h file_name,
        )
        refl

  -- A write at one index leaves the others, and the size.
  write_entry_apart :
      (s : Store) (i j : ℕ) (a : Attachment) (k : AttachmentKey)
      → j < i
      → field (write_entry s n i a) n j k ≡ field s n j k
  unfolding write_entry set_values set_value value
  write_entry_apart s i j a k h = ground (arith, file_dec (note_attachments n) (note_attachments n))

  write_from_apart :
      (s : Store) (i j : ℕ) (xs : List Attachment) (k : AttachmentKey)
      → j < i
      → field (write_from s n i xs) n j k ≡ field s n j k
  unfolding write_from
  write_from_apart s i j [] k h = refl
  write_from_apart s i j (a ∷ xs) k h =
      write_from_apart (write_entry s n i a) (suc i) j xs k (omega arith)
      ∙ write_entry_apart s i j a k h

  -- An entry depends on its fields.
  read_entry-agree :
      (s t : Store) (i : ℕ)
      → ((k : AttachmentKey) → field s n i k ≡ field t n i k)
      → read_entry s n i ≡ read_entry t n i
  unfolding read_entry
  read_entry-agree s t i h =
      rw
        (
          h attachment_guid,
          h attachment_hash,
          h mime_type,
          h dimensions,
          h duration,
          h size,
          h file_name,
        )
        refl

  read_from-write_from :
      (s : Store) (i : ℕ) (xs : List Attachment)
      → read_from (write_from s n i xs) n i (length xs) ≡ xs
  unfolding read_from write_from
  read_from-write_from s i [] = refl
  read_from-write_from s i (a ∷ xs) =
      ap₂ ◌∷◌
        (read_entry-agree (write_from (write_entry s n i a) n (suc i) xs) (write_entry s n i a) i
            (λ k. write_from_apart (write_entry s n i a) (suc i) i xs k (omega arith))
          ∙ read_entry-write_entry s i a)
        (read_from-write_from (write_entry s n i a) (suc i) xs)

  -- What stands outside the array.
  write_entry_outside :
      (s : Store) (i : ℕ) (a : Attachment) (k : Key)
      → IsOutside k
      → value (write_entry s n i a) (note_attachments n) k ≡ value s (note_attachments n) k
  unfolding write_entry
  write_entry_outside s i a k h = set_values_apart s (note_attachments n) k (entry_pairs i a) (
    h i attachment_guid,
    (
      h i attachment_hash,
      (h i mime_type, (h i dimensions, (h i duration, (h i size, (h i file_name, tt))))),
    ),
  )

  write_from_outside :
      (s : Store) (i : ℕ) (xs : List Attachment) (k : Key)
      → IsOutside k
      → value (write_from s n i xs) (note_attachments n) k ≡ value s (note_attachments n) k
  unfolding write_from
  write_from_outside s i [] k h = refl
  write_from_outside s i (a ∷ xs) k h =
      write_from_outside (write_entry s n i a) (suc i) xs k h ∙ write_entry_outside s i a k h

  write_size :
      (s : Store) (count : ℕ)
      → value
          (set_value s (note_attachments n) attachments_size (number count))
          (note_attachments n)
          attachments_size
        ≡ number count
  unfolding value set_value
  write_size s count = ground (arith, file_dec (note_attachments n) (note_attachments n))

  -- A list of attachments is read as it was written.
  pub read-write_attachments :
      (s : Store) (xs : List Attachment) → read_attachments (write_attachments s n xs) n ≡ xs
  unfolding read_attachments write_attachments
  read-write_attachments s xs =
      let s' : Store = set_value s (note_attachments n) attachments_size (number (length xs)) in
      rw (write_from_outside s' 0 xs attachments_size (λ i k. cc) ∙ write_size s (length xs))
        (read_from-write_from s' 0 xs)
