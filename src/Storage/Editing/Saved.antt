-- ===== src/Storage/Editing/Saved.antt =====
-- What an edit in place leaves: the content, and the note of a conflict that is to be resolved
-- (src/storage/storagemanager.cpp).
use notekeeper_open.Base.{
  ℕ, ◌≡◌, ◌≢◌, refl, sym, ap, subst, ◌∙◌, Bool, true, false, not, ◌&&◌, ◌||◌, List, [], ◌∷◌, ◌++◌,
  QString, contains, text_dec, arith, if◌then◌else◌, Bool-cases, inl, inr, All, All-append,
}
use notekeeper_open.Base.Split.{IsId, ids_of}
use notekeeper_open.Base.Members.{contains-append}
use notekeeper_open.Storage.Ini.{
  IniFile, Key, notes_list, note_gist, note_content, sync_ini, deferred_conflicts, updated_time,
  base_content_hash, content, content_hash, content_valid, Store, QVariant, text, number, to_string,
  to_bool, value, set_value, set_values, file_dec, key_dec,
}
use notekeeper_open.Storage.Signals.{Qt}
use notekeeper_open.Storage.Collection.{ids_list}
use notekeeper_open.Storage.Collection.Laws.{HasIds, ids_list-set}
use notekeeper_open.Storage.Notes.{
  update_notes_list_order, move_in_list, set_note_ids, add_to_sync_ids_list, retrieve_sync_ids_list,
}
use notekeeper_open.Storage.Contents.{stored_content, is_valid_content, stored_hash, stored_text}
use notekeeper_open.Storage.Contents.Reads.{stored_content-read, stored_content_apart}
use notekeeper_open.Storage.Editing.{Markup, save_edited_content, is_content_changed, is_overtaken}

-- Putting the list of all notes in order leaves every other file.
value-update_notes_list_order :
    (s : Store) (n : QString) (f : IniFile) (k : Key)
    → notes_list ≢ f
    → value (update_notes_list_order s n) f k ≡ value s f k
unfolding update_notes_list_order move_in_list set_note_ids value set_value
value-update_notes_list_order s n f k h = ground (arith, h)

contains_self : (n : QString) → contains (n ∷ []) n ≡ true
unfolding contains
contains_self n = ground (arith, text_dec n n)

-- The list of conflicts after an id was added.
contains-add_to_sync_ids_list :
    (s : Store) (k : Key) (n : QString)
    → HasIds s sync_ini k
    → IsId n
    → contains (ids_list (add_to_sync_ids_list s k n).0 sync_ini k) n ≡ true
unfolding add_to_sync_ids_list
contains-add_to_sync_ids_list s k n h i = elim (Bool-cases (contains (ids_list s sync_ini k) n)) [
  | inl c ↦ rw c c
  | inr c ↦
      let ids : List QString = ids_list s sync_ini k ++ n ∷ [] in
      let all : All IsId ids = All-append IsId (ids_list s sync_ini k) (n ∷ []) h (i, tt) in
      rw c (
        ap (λ (l : List QString). contains l n) (ids_list-set s sync_ini k sync_ini k ids all)
        ∙ ground (
          arith,
          file_dec sync_ini sync_ini,
          key_dec k k,
          contains-append (ids_list s sync_ini k) (n ∷ []) n,
          contains_self n,
        ))
]

-- Adding to that list leaves the content file.
add_to_sync_ids_list_apart :
    (s : Store) (k : Key) (n a : QString) (k' : Key)
    → value (add_to_sync_ids_list s k n).0 (note_content a) k' ≡ value s (note_content a) k'
unfolding add_to_sync_ids_list value set_value
add_to_sync_ids_list_apart s k n a k' = ground (arith, file_dec sync_ini (note_content a))

module _ (s : Store) (n base_hash : QString) (now : ℕ) where
  -- The gist after an edit.
  abbrev stamped : Store
  stamped =
      set_value (set_value s (note_gist n) base_content_hash (text base_hash)) (note_gist n)
        updated_time (number now)

  -- With the note of a conflict.
  abbrev noted : Bool → Store
  noted conflict =
      if conflict then (add_to_sync_ids_list stamped deferred_conflicts n).0 else stamped

  stamped_apart : (f : IniFile) (k : Key) → note_gist n ≢ f → value stamped f k ≡ value s f k
  unfolding value set_value
  stamped_apart f k h = ground (arith, h)

  noted_content :
      (b : Bool) (k : Key) → value (noted b) (note_content n) k ≡ value s (note_content n) k
  noted_content true k =
      add_to_sync_ids_list_apart stamped deferred_conflicts n n k
      ∙ stamped_apart (note_content n) k (λ e. cc)
  noted_content false k = stamped_apart (note_content n) k (λ e. cc)

  noted_conflict :
      HasIds s sync_ini deferred_conflicts
      → IsId n
      → contains (ids_list (update_notes_list_order (noted true) n) sync_ini deferred_conflicts) n
        ≡ true
  unfolding ids_list
  noted_conflict h i =
      let same : value stamped sync_ini deferred_conflicts ≡ value s sync_ini deferred_conflicts =
        stamped_apart sync_ini deferred_conflicts (λ e. cc) in
      let ids : HasIds stamped sync_ini deferred_conflicts = rw same h in
      ap (λ (v : QVariant). contains (ids_of (to_string v)) n)
        (value-update_notes_list_order (noted true) n sync_ini deferred_conflicts (λ e. cc))
      ∙ contains-add_to_sync_ids_list stamped deferred_conflicts n ids i

module _ (qt : Qt) (markup : Markup) (s : Store) (now : ℕ) (n new_content base_hash : QString) where
  abbrev changed : Bool
  changed = is_content_changed s n (qt.md5_hex new_content)

  abbrev rewritten : Store
  rewritten = set_values s (note_content n) (stored_content new_content (qt.md5_hex new_content))

  -- The store after an edit that changes the content.
  abbrev resulting : Store
  resulting =
      update_notes_list_order (noted rewritten n base_hash now (is_overtaken s n base_hash)) n

  rewritten_apart :
      value rewritten sync_ini deferred_conflicts ≡ value s sync_ini deferred_conflicts
  unfolding set_values set_value value
  rewritten_apart = ground (arith, file_dec (note_content n) sync_ini)

  is_overtaken-rewritten : is_overtaken rewritten n base_hash ≡ is_overtaken s n base_hash
  unfolding is_overtaken
  is_overtaken-rewritten =
      ground
        (arith, stored_content_apart s n new_content (qt.md5_hex new_content) base_content_hash)

  save_edited_content-store :
      (save_edited_content qt markup s now n new_content base_hash).0
      ≡ (if changed then resulting else s)
  unfolding save_edited_content
  save_edited_content-store = elim (Bool-cases changed) [
    | inl c ↦ rw (c, is_overtaken-rewritten) refl
    | inr c ↦ rw c refl
  ]

  resulting_content :
      (k : Key) → value resulting (note_content n) k ≡ value rewritten (note_content n) k
  resulting_content k =
      value-update_notes_list_order (noted rewritten n base_hash now (is_overtaken s n base_hash)) n
        (note_content n) k (λ e. cc)
      ∙ noted_content rewritten n base_hash now (is_overtaken s n base_hash) k

  -- What is wanted of the store after an edit.
  pub record IsSaved (s' : Store) : Type 0 where
    pub valid : is_valid_content s' n ≡ true
    pub hashed : stored_hash s' n ≡ qt.md5_hex new_content
    pub written : stored_text s' n ≡ (if changed then new_content else stored_text s n)
    pub conflicting :
        (not (changed && is_overtaken s n base_hash)
          || contains (retrieve_sync_ids_list s' deferred_conflicts) n)
        ≡ true

  resulting-IsSaved :
      HasIds s sync_ini deferred_conflicts → IsId n → changed ≡ true → IsSaved resulting
  unfolding retrieve_sync_ids_list
  resulting-IsSaved h i c =
      let (t, x, v) = stored_content-read s n new_content (qt.md5_hex new_content) in
      let same : value rewritten sync_ini deferred_conflicts ≡ value s sync_ini deferred_conflicts =
        rewritten_apart in
      record {
        valid = ap to_bool (resulting_content content_valid) ∙ v;
        hashed = ap to_string (resulting_content content_hash) ∙ x;
        written = rw c (ap to_string (resulting_content content) ∙ t);
        conflicting = elim (Bool-cases (is_overtaken s n base_hash)) [
          | inl o ↦
              rw (c, o) (noted_conflict rewritten n base_hash now (unfold ids_list in rw same h) i)
          | inr o ↦ rw (c, o) refl
        ];
      }

  unchanged-IsSaved : changed ≡ false → IsSaved s
  unfolding is_content_changed
  unchanged-IsSaved c = record {
    valid = ground (arith, c);
    hashed = ground (arith, c);
    written = rw c refl;
    conflicting = rw c refl;
  }

  -- After an edit in place the content is valid with the new content's hash, and it is the new content
  -- where that differs from the valid one that was stored; where it differs and another content was
  -- fetched since the note was opened, the note is listed for a resolution of the conflict. The
  -- note's id is an id, and the list of conflicts is one of ids.
  pub save_edited_content-IsSaved :
      HasIds s sync_ini deferred_conflicts
      → IsId n
      → IsSaved (save_edited_content qt markup s now n new_content base_hash).0
  save_edited_content-IsSaved h i =
      subst IsSaved (sym save_edited_content-store) (elim (Bool-cases changed) [
        | inl c ↦ rw c (resulting-IsSaved h i c)
        | inr c ↦ rw c (unchanged-IsSaved c)
      ])
