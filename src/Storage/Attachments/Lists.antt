-- ===== src/Storage/Attachments/Lists.antt =====
-- The attachments of a note as a map from hashes, under addAttachmentData and removeAttachmentData
-- (src/storage/storagemanager.cpp).
use notekeeper_open.Base.{
  ℕ, zero, suc, ◌≡◌, refl, sym, ap, ap₂, ◌∙◌, Bool, true, false, Option, none, some, List, [], ◌∷◌,
  ◌++◌, QString, is_empty, text_eq, arith, if◌then◌else◌, Bool-cases, inl, inr,
}
use notekeeper_open.Storage.Ini.{
  note_attachments, unpushed_removals, attachments_size, Store, QVariant, to_int, value, set_value,
  file_dec,
}
use notekeeper_open.Storage.Attachments.{
  Attachment, read_attachments, read_from, read_entry, write_attachments, replace_loop,
  add_attachment_data, remove_loop, add_removals, remove_attachment_data,
}
use notekeeper_open.Storage.Attachments.Array.{read-write_attachments}

-- The first attachment with a hash.
unfoldable pub find : QString → List Attachment → Option Attachment
find hash [] = none
find hash (x ∷ xs) = let rest = find hash xs in if text_eq x.hash hash then some x else rest

replace_loop-find :
    (a : Attachment) (xs : List Attachment) (hash : QString)
    → (find hash (replace_loop a xs).0 ≡ (
        if text_eq a.hash hash
        then (if (replace_loop a xs).1 then some a else none)
        else find hash xs))
unfolding find replace_loop
replace_loop-find a [] hash = ground arith
replace_loop-find a (x ∷ xs) hash = ground (arith, replace_loop-find a xs hash)

find-append :
    (xs ys : List Attachment) (hash : QString)
    → find hash (xs ++ ys) ≡ elim (find hash xs) [ none ↦ find hash ys | some x ↦ some x ]
unfolding find
find-append [] ys hash = refl
find-append (x ∷ xs) ys hash = ground (arith, find-append xs ys hash)

insertion-find :
    (a : Attachment) (xs : List Attachment) (hash : QString)
    → find hash
        (if (replace_loop a xs).1 then (replace_loop a xs).0 else (replace_loop a xs).0 ++ a ∷ [])
      ≡ (if text_eq a.hash hash then some a else find hash xs)
unfolding find
insertion-find a xs hash =
    ground (arith, replace_loop-find a xs hash, find-append (replace_loop a xs).0 (a ∷ []) hash)

-- addAttachmentData is an insertion into the map from hashes to attachments; an empty hash is none.
pub add_attachment_data-find :
    (s : Store) (n : QString) (a : Attachment) (hash : QString)
    → is_empty a.hash ≡ false
    → find hash (read_attachments (add_attachment_data s n a) n)
      ≡ (if text_eq a.hash hash then some a else find hash (read_attachments s n))
unfolding add_attachment_data
add_attachment_data-find s n a hash h =
    let r : List Attachment × Bool = replace_loop a (read_attachments s n) in
    let new : List Attachment = if r.1 then r.0 else r.0 ++ a ∷ [] in
    rw h (
      ap (find hash) (read-write_attachments n s new)
      ∙ insertion-find a (read_attachments s n) hash)

remove_loop-find :
    (hash : QString) (xs : List Attachment) (other : QString)
    → find other (remove_loop hash xs).0 ≡ (if text_eq hash other then none else find other xs)
unfolding find remove_loop
remove_loop-find hash [] other = ground arith
remove_loop-find hash (x ∷ xs) other = ground (arith, remove_loop-find hash xs other)

remove_loop-none :
    (hash : QString) (xs : List Attachment)
    → (remove_loop hash xs).1.1 ≡ false
    → (remove_loop hash xs).0 ≡ xs
unfolding remove_loop
remove_loop-none hash [] h = refl
remove_loop-none hash (x ∷ xs) h = ground (arith, remove_loop-none hash xs)

remove_loop-some :
    (hash : QString) (xs : List Attachment)
    → (remove_loop hash xs).1.1 ≡ elim (find hash xs) [ none ↦ false | some x ↦ true ]
unfolding remove_loop find
remove_loop-some hash [] = refl
remove_loop-some hash (x ∷ xs) = ground (arith, remove_loop-some hash xs)

-- The guids to be removed on the server are no part of the array.
read_entry-removals :
    (s : Store) (n : QString) (v : QVariant) (i : ℕ)
    → read_entry (set_value s (note_attachments n) unpushed_removals v) n i ≡ read_entry s n i
unfolding read_entry value set_value
read_entry-removals s n v i = ground (arith, file_dec (note_attachments n) (note_attachments n))

read_from-removals :
    (s : Store) (n : QString) (v : QVariant) (i count : ℕ)
    → read_from (set_value s (note_attachments n) unpushed_removals v) n i count
      ≡ read_from s n i count
unfolding read_from
read_from-removals s n v i zero = refl
read_from-removals s n v i (suc count) =
    ap₂ ◌∷◌ (read_entry-removals s n v i) (read_from-removals s n v (suc i) count)

size-removals :
    (s : Store) (n : QString) (v : QVariant)
    → value
        (set_value s (note_attachments n) unpushed_removals v)
        (note_attachments n)
        attachments_size
      ≡ value s (note_attachments n) attachments_size
unfolding value set_value
size-removals s n v = ground (arith, file_dec (note_attachments n) (note_attachments n))

read_attachments-removals :
    (s : Store) (n : QString) (v : QVariant)
    → read_attachments (set_value s (note_attachments n) unpushed_removals v) n
      ≡ read_attachments s n
unfolding read_attachments
read_attachments-removals s n v =
    rw (size-removals s n v)
      (read_from-removals s n v 0 (to_int (value s (note_attachments n) attachments_size)))

read_attachments-add_removals :
    (s : Store) (n : QString) (guids : List QString)
    → read_attachments (add_removals s n guids) n ≡ read_attachments s n
unfolding add_removals
read_attachments-add_removals s n [] = refl
read_attachments-add_removals s n (g ∷ guids) = read_attachments-removals s n _

-- removeAttachmentData takes a hash out of the map from hashes to attachments, leaves every other one,
-- and returns whether the hash was there; an empty hash is none.
pub remove_attachment_data-find :
    (s : Store) (n hash : QString)
    → is_empty hash ≡ false
    → ((other : QString)
        → find other (read_attachments (remove_attachment_data s n hash).0 n)
          ≡ (if text_eq hash other then none else find other (read_attachments s n)))
      × ((remove_attachment_data s n hash).1
          ≡ elim (find hash (read_attachments s n)) [ none ↦ false | some x ↦ true ])
unfolding remove_attachment_data
remove_attachment_data-find s n hash h =
    let xs : List Attachment = read_attachments s n in
    let kept : List Attachment = (remove_loop hash xs).0 in
    let guids : List QString = (remove_loop hash xs).1.0 in
    elim (Bool-cases (remove_loop hash xs).1.1) [
      | inl there ↦
          rw (h, there)
            (
              λ other.
                  ap (find other) (
                    read_attachments-add_removals (write_attachments s n kept) n guids
                    ∙ read-write_attachments n s kept)
                  ∙ remove_loop-find hash xs other,
              sym there ∙ remove_loop-some hash xs,
            )
      | inr absent ↦
          rw (h, absent)
            (
              λ other.
                  ap (find other) (sym (remove_loop-none hash xs absent))
                  ∙ remove_loop-find hash xs other,
              sym absent ∙ remove_loop-some hash xs,
            )
    ]
