-- ===== src/Storage/Cache/Whole.antt =====
-- An attachment enters the cache only if it was copied whole
-- (src/storage/diskcache/shareddiskcache.cpp).
use notekeeper_open.Base.{
  ℕ, ◌⊎◌, ◌≡◌, ◌≤◌, ◌+◌, sym, ap, ◌∙◌, true, Option, some, [], QString, arith, take, length,
  text_dec, update, Bool-cases, inl, inr, subst,
}
use notekeeper_open.Storage.Copy.{
  ℤ, pos, before, Transfer, take_all, IsCopied, copy_data, copy_data-IsCopied,
}
use notekeeper_open.Storage.Cache.{
  Disk, Cache, cache_insert, is_size, copied_to_cache, attachment_url,
  insert_evernote_note_attachment,
}

is_size-done :
    (z : ℤ) (n size : ℕ)
    → (z ≡ pos n) ⊎ (z ≡ before n)
    → n ≤ size
    → is_size z size ≡ true
    → n ≡ size
unfolding is_size
is_size-done z n size h k e = ground arith

-- A copy that counts as many bytes as there are is the data.
copied_whole :
    (t : Transfer) (src : QString) (o : Option (QString × ℤ))
    → (h : IsCopied t src [] 0 o) → is_size h.result.1 (length src) ≡ true
    → h.result.0 ≡ src
copied_whole t src o h e =
    let all : 0 + h.done ≡ length src =
      is_size-done h.result.1 (0 + h.done) (length src) h.counted (omega (arith, h.within)) e in
    h.beginning ∙ ap (λ (n : ℕ). take n src) (omega (arith, all)) ∙ take_all src

stored_whole :
    (d : Disk) (c : Cache) (url src content : QString) (copied : ℤ)
    → (is_size copied (length src) ≡ true → content ≡ src)
    → d.keeps url ≡ true
    → (copied_to_cache d c url (length src) (some (content, copied))).1 ≡ true
    → (copied_to_cache d c url (length src) (some (content, copied))).0 url ≡ some ([], src)
unfolding copied_to_cache cache_insert update
stored_whole d c url src content copied h k = elim (Bool-cases (is_size copied (length src))) [
  | inl e ↦ rw (e, k) (λ p. ground (arith, h e, text_dec url url))
  | inr e ↦ rw e (λ p. cc)
]

copied_to_cache_whole :
    (t : Transfer) (d : Disk) (c : Cache) (url src : QString) (o : Option (QString × ℤ))
    → IsCopied t src [] 0 o
    → d.keeps url ≡ true
    → (copied_to_cache d c url (length src) o).1 ≡ true
    → (copied_to_cache d c url (length src) o).0 url ≡ some ([], src)
copied_to_cache_whole t d c url src o h k =
    subst
      (λ (x : Option (QString × ℤ)).
        (copied_to_cache d c url (length src) x).1 ≡ true
        → (copied_to_cache d c url (length src) x).0 url ≡ some ([], src))
      (sym h.ends) (stored_whole d c url src h.result.0 h.result.1 (copied_whole t src o h) k)

-- When inserting an attachment is reported, for a file whose length is the size by the server, and the
-- cache keeps the entry, the entry holds the whole file, whatever the devices do in each round of
-- the copy, as long as no write claims more bytes than it was given.
pub insert_evernote_note_attachment_whole :
    (d : Disk) (t : Transfer) (c : Cache) (web_api_url_prefix guid content : QString)
    → ((k : ℕ) (chunk : QString) (w : ℕ) → t.writes k chunk ≡ some w → w ≤ length chunk)
    → d.keeps (attachment_url web_api_url_prefix guid) ≡ true
    → (insert_evernote_note_attachment d t c web_api_url_prefix guid
        (some content)
        (length content)).1
      ≡ true
    → (insert_evernote_note_attachment d t c web_api_url_prefix guid
          (some content)
          (length content)).0
        (attachment_url web_api_url_prefix guid)
      ≡ some ([], content)
unfolding insert_evernote_note_attachment
insert_evernote_note_attachment_whole d t c web_api_url_prefix guid content fair k =
    let url : QString = attachment_url web_api_url_prefix guid in
    elim (Bool-cases (d.prepares url)) [
      | inl p ↦ rw p (
          copied_to_cache_whole t d c url content (copy_data t content)
            (copy_data-IsCopied t content fair) k)
      | inr p ↦ rw p (λ e. cc)
    ]
