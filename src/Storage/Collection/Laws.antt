-- ===== src/Storage/Collection/Laws.antt =====
-- What adding and removing do to a list of ids, as `ids_list` reads it.
use notekeeper_open.Base.{
  ◌≡◌, refl, ◌∙◌, true, false, List, [], ◌∷◌, QString, is_empty, contains, if◌then◌else◌, All,
  arith, Bool-cases, inl, inr, if_pos, if_neg, text_dec,
}
use notekeeper_open.Base.Split.{split, join, ids_of, IsId, ids_of-join}
use notekeeper_open.Base.Members.{remove_one, remove_one_absent}
use notekeeper_open.Storage.Ini.{
  IniFile, Key, Store, text, to_string, value, set_value, at_key, value-set_value,
}
use notekeeper_open.Storage.Collection.{ids_list, add_object_id, remove_object_id}

-- The lists of ids that a store holds are made of ids.
abbrev pub HasIds : Store → IniFile → Key → Type 0
HasIds s f k = All IsId (ids_list s f k)

abbrev pub add_to : List QString → QString → List QString
add_to object_ids object_id =
    if contains object_ids object_id then object_ids else object_id ∷ object_ids

pub remove_one-IsId : (xs : List QString) (a : QString) → All IsId xs → All IsId (remove_one xs a)
unfolding remove_one
remove_one-IsId [] a h = tt
remove_one-IsId (x ∷ xs) a h = elim (text_dec x a) [
  | yes p ↦ rw (if_pos _ p) h.1
  | no p ↦ rw (if_neg _ p) (h.0, remove_one-IsId xs a h.1)
]

empty_part :
    (object_id : QString) → is_empty object_id ≡ false → contains ([] ∷ []) object_id ≡ false
unfolding contains
empty_part [] h = cc
empty_part (c ∷ object_id) h = refl

-- The only part of an empty text is empty, so it is no id.
split_or_ids :
    (t object_id : QString)
    → is_empty object_id ≡ false
    → (contains (split b',' t) object_id ≡ contains (ids_of t) object_id)
      × (contains (ids_of t) object_id ≡ true → split b',' t ≡ ids_of t)
unfolding split ids_of
split_or_ids [] object_id h =
    (empty_part object_id h ∙ unfold contains in refl, λ c. unfold contains in cc c)
split_or_ids (d ∷ t) object_id h = (refl, λ c. refl)

module _ (s : Store) (f : IniFile) (k : Key) where
  pub ids_list-set :
      (f' : IniFile) (k' : Key) (ids : List QString)
      → All IsId ids
      → ids_list (set_value s f k (text (join b',' ids))) f' k'
        ≡ at_key f k f' k' ids (ids_list s f' k')
  unfolding ids_list
  ids_list-set f' k' ids h =
      ground (arith, value-set_value s f f' k k' (text (join b',' ids)), ids_of-join ids h)

  same_list :
      (f' : IniFile) (k' : Key)
      → ids_list s f' k' ≡ at_key f k f' k' (ids_list s f k) (ids_list s f' k')
  same_list f' k' = ground arith

module _ (s : Store) (f : IniFile) (k : Key) (object_id : QString) where
  -- Adding an id puts it in front of a list of ids, unless it is there, and leaves every other list.
  pub ids_list-add_object_id :
      (f' : IniFile) (k' : Key)
      → IsId object_id
      → HasIds s f k
      → ids_list (add_object_id s f k object_id).0 f' k'
        ≡ at_key f k f' k' (add_to (ids_list s f k) object_id) (ids_list s f' k')
  unfolding add_object_id ids_list
  ids_list-add_object_id f' k' i h = elim (Bool-cases (contains (ids_list s f k) object_id)) [
    | inl c ↦ rw (i.0, c) (same_list s f k f' k')
    | inr c ↦ rw (i.0, c) (ids_list-set s f k f' k' (object_id ∷ ids_list s f k) (i, h))
  ]

  -- Removing an id takes its first occurrence out of a list of ids, and leaves every other list.
  pub ids_list-remove_object_id :
      (f' : IniFile) (k' : Key)
      → IsId object_id
      → HasIds s f k
      → ids_list (remove_object_id s f k object_id).0 f' k'
        ≡ at_key f k f' k' (remove_one (ids_list s f k) object_id) (ids_list s f' k')
  unfolding remove_object_id ids_list
  ids_list-remove_object_id f' k' i h =
      let (same, whole) = split_or_ids (to_string (value s f k)) object_id i.0 in
      elim (Bool-cases (contains (ids_list s f k) object_id)) [
        | inl c ↦
            rw (i.0, same, c, whole c)
              (ids_list-set s f k f' k' (remove_one (ids_list s f k) object_id)
                (remove_one-IsId (ids_list s f k) object_id h))
        | inr c ↦
            rw (i.0, same, c, remove_one_absent (ids_list s f k) object_id c)
              (same_list s f k f' k')
      ]
