-- ===== src/Storage/Collection/Members.antt =====
-- The same laws for the members of a list, for its distinctness, and for the other values.
use notekeeper_open.Base.{
  ◌≡◌, ◌≢◌, false, ◌||◌, List, QString, contains, if◌then◌else◌, All, arith, Bool-cases, inl, inr,
  if_pos, if_neg, text_eq, IsDistinct,
}
use notekeeper_open.Base.Split.{IsId}
use notekeeper_open.Base.Members.{contains-remove_one, remove_one-IsDistinct}
use notekeeper_open.Storage.Ini.{IniFile, Key, Store, value, set_value, file_dec, key_dec, at_key}
use notekeeper_open.Storage.Collection.{ids_list, add_object_id, remove_object_id}
use notekeeper_open.Storage.Collection.Laws.{
  HasIds, add_to, remove_one-IsId, ids_list-add_object_id, ids_list-remove_object_id,
}

contains-add_to :
    (xs : List QString) (a b : QString) → contains (add_to xs a) b ≡ (text_eq a b || contains xs b)
unfolding contains
contains-add_to xs a b = ground arith

-- What holds at the key and everywhere else holds at any key.
pub at_key_cases {ℓ ℓ'} :
    {A : Type ℓ} (P : A → Type ℓ') (f : IniFile) (k : Key) (f' : IniFile) (k' : Key)
    {here there : A}
    → P here
    → P there
    → P (at_key f k f' k' here there)
at_key_cases P f k f' k' h t = elim (file_dec f f') [
  | no p ↦ rw (if_neg _ p) t
  | yes p ↦
      rw (if_pos _ p) (elim (key_dec k k') [ yes q ↦ rw (if_pos _ q) h | no q ↦ rw (if_neg _ q) t ])
]

add_to-IsId : (xs : List QString) (a : QString) → IsId a → All IsId xs → All IsId (add_to xs a)
add_to-IsId xs a i h = elim (Bool-cases (contains xs a)) [ inl c ↦ rw c h | inr c ↦ rw c (i, h) ]

add_to-IsDistinct : (xs : List QString) (a : QString) → IsDistinct xs → IsDistinct (add_to xs a)
add_to-IsDistinct xs a h = elim (Bool-cases (contains xs a)) [
  | inl c ↦ rw c h
  | inr c ↦ rw c (c, h)
]

-- A list of ids that is in order: made of ids, none of them twice.
pub record IsIdList (s : Store) (f : IniFile) (k : Key) : Type 0 where
  pub ids : HasIds s f k
  pub distinct : IsDistinct (ids_list s f k)

module _ (s : Store) (f : IniFile) (k : Key) (object_id : QString) (i : IsId object_id) where
  pub contains-add_object_id :
      (f' : IniFile) (k' : Key) (a : QString)
      → HasIds s f k
      → contains (ids_list (add_object_id s f k object_id).0 f' k') a
        ≡ at_key f k f' k'
            (text_eq object_id a || contains (ids_list s f k) a)
            (contains (ids_list s f' k') a)
  contains-add_object_id f' k' a h = ground (
    arith,
    ids_list-add_object_id s f k object_id f' k' i h,
    contains-add_to (ids_list s f k) object_id a,
  )

  pub contains-remove_object_id :
      (f' : IniFile) (k' : Key) (a : QString)
      → IsIdList s f k
      → contains (ids_list (remove_object_id s f k object_id).0 f' k') a
        ≡ at_key f k f' k'
            (if text_eq object_id a then false else contains (ids_list s f k) a)
            (contains (ids_list s f' k') a)
  contains-remove_object_id f' k' a h = ground (
    arith,
    ids_list-remove_object_id s f k object_id f' k' i h.ids,
    contains-remove_one (ids_list s f k) object_id a h.distinct,
  )

  pub add_object_id-IsIdList :
      (f' : IniFile) (k' : Key)
      → IsIdList s f k
      → IsIdList s f' k'
      → IsIdList (add_object_id s f k object_id).0 f' k'
  add_object_id-IsIdList f' k' h h' = record {
    ids =
        rw (ids_list-add_object_id s f k object_id f' k' i h.ids) (
          at_key_cases (All IsId) f k f' k' (add_to-IsId (ids_list s f k) object_id i h.ids)
            h'.ids);
    distinct = rw (ids_list-add_object_id s f k object_id f' k' i h.ids) (
        at_key_cases IsDistinct f k f' k' (add_to-IsDistinct (ids_list s f k) object_id h.distinct)
          h'.distinct);
  }

  pub remove_object_id-IsIdList :
      (f' : IniFile) (k' : Key)
      → IsIdList s f k
      → IsIdList s f' k'
      → IsIdList (remove_object_id s f k object_id).0 f' k'
  remove_object_id-IsIdList f' k' h h' = record {
    ids = rw (ids_list-remove_object_id s f k object_id f' k' i h.ids) (
        at_key_cases (All IsId) f k f' k' (remove_one-IsId (ids_list s f k) object_id h.ids)
          h'.ids);
    distinct = rw (ids_list-remove_object_id s f k object_id f' k' i h.ids) (
        at_key_cases IsDistinct f k f' k'
          (remove_one-IsDistinct (ids_list s f k) object_id h.distinct) h'.distinct);
  }

module _ (s : Store) (f : IniFile) (k : Key) (object_id : QString) where
  -- The values in other files stay.
  pub value-add_object_id :
      (f' : IniFile) (k' : Key)
      → f ≢ f'
      → value (add_object_id s f k object_id).0 f' k' ≡ value s f' k'
  unfolding add_object_id value set_value
  value-add_object_id f' k' h = ground arith

  pub value-remove_object_id :
      (f' : IniFile) (k' : Key)
      → f ≢ f'
      → value (remove_object_id s f k object_id).0 f' k' ≡ value s f' k'
  unfolding remove_object_id value set_value
  value-remove_object_id f' k' h = ground arith
