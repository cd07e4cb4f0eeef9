-- ===== src/Storage/Notebooks/Placed.antt =====
-- Where the notes stand: each note in the list of the notebook that its gist names, in no other.
use notekeeper_open.Base.{
  ◌≡◌, refl, ◌∙◌, true, false, [], ◌∷◌, QString, is_empty, contains, if◌then◌else◌, arith,
  Bool-cases, inl, inr, text_dec, text_eq, ◌||◌,
}
use notekeeper_open.Base.Split.{IsId}
use notekeeper_open.Storage.Ini.{
  Store, text, to_string, notebook_ini, note_gist, note_ids, notebook_id, value, set_value, at_key,
  value-set_value,
}
use notekeeper_open.Storage.Collection.{ids_list}
use notekeeper_open.Storage.Collection.Members.{
  IsIdList, contains-add_object_id, contains-remove_object_id, add_object_id-IsIdList,
  remove_object_id-IsIdList, value-add_object_id, value-remove_object_id,
}
use notekeeper_open.Storage.Notebooks.{
  move_note, set_notebook_for_note, add_note_to_notebook_data, remove_note_from_notebook_data,
}

abbrev pub notebook_of : Store → QString → QString
notebook_of s note_id = to_string (value s (note_gist note_id) notebook_id)

pub record IsPlaced (s : Store) : Type 0 where
  pub lists : (b : QString) → IsIdList s (notebook_ini b) note_ids
  pub placed :
      (note_id b : QString)
      → is_empty b ≡ false
      → contains (ids_list s (notebook_ini b) note_ids) note_id ≡ text_eq (notebook_of s note_id) b

at_notebook {ℓ} :
    {A : Type ℓ} (b b' : QString) (here there : A)
    → at_key (notebook_ini b) note_ids (notebook_ini b') note_ids here there
      ≡ (if text_eq b b' then here else there)
at_notebook b b' here there = ground arith

at_gist {ℓ} :
    {A : Type ℓ} (n n' : QString) (here there : A)
    → at_key (note_gist n) notebook_id (note_gist n') notebook_id here there
      ≡ (if text_eq n n' then here else there)
at_gist n n' here there = ground arith

empty_not : (a b : QString) → is_empty a ≡ true → is_empty b ≡ false → text_eq a b ≡ false
unfolding text_dec
empty_not [] (c ∷ b) h k = refl
empty_not [] [] h k = cc
empty_not (c ∷ a) b h k = cc

module _ (s : Store) (note_id from : QString) (i : IsId note_id)
    (h : (b : QString) → IsIdList s (notebook_ini b) note_ids) where
  removed-IsIdList :
      (b : QString)
      → IsIdList (remove_note_from_notebook_data s note_id from).0 (notebook_ini b) note_ids
  unfolding remove_note_from_notebook_data
  removed-IsIdList b = elim (Bool-cases (is_empty from)) [
    | inl e ↦ rw e (h b)
    | inr e ↦ rw e (
        remove_object_id-IsIdList s (notebook_ini from) note_ids note_id i (notebook_ini b) note_ids
          (h from) (h b))
  ]

  contains-removed :
      (b a : QString)
      → is_empty b ≡ false
      → contains
          (ids_list (remove_note_from_notebook_data s note_id from).0 (notebook_ini b) note_ids)
          a
        ≡ (if text_eq from b
            then (if text_eq note_id a
                then false
                else contains (ids_list s (notebook_ini from) note_ids) a)
            else contains (ids_list s (notebook_ini b) note_ids) a)
  unfolding remove_note_from_notebook_data
  contains-removed b a k = elim (Bool-cases (is_empty from)) [
    | inl e ↦ rw (e, empty_not from b e k) refl
    | inr e ↦ rw e (
        contains-remove_object_id s (notebook_ini from) note_ids note_id i (notebook_ini b) note_ids
          a (h from)
        ∙ at_notebook from b _ _)
  ]

  added-IsIdList :
      (b : QString)
      → IsIdList (add_note_to_notebook_data s note_id from).0 (notebook_ini b) note_ids
  unfolding add_note_to_notebook_data
  added-IsIdList b = elim (Bool-cases (is_empty from)) [
    | inl e ↦ rw e (h b)
    | inr e ↦ rw e (
        add_object_id-IsIdList s (notebook_ini from) note_ids note_id i (notebook_ini b) note_ids
          (h from) (h b))
  ]

  contains-added :
      (b a : QString)
      → is_empty from ≡ false
      → contains (ids_list (add_note_to_notebook_data s note_id from).0 (notebook_ini b) note_ids) a
        ≡ (if text_eq from b
            then (text_eq note_id a || contains (ids_list s (notebook_ini from) note_ids) a)
            else contains (ids_list s (notebook_ini b) note_ids) a)
  unfolding add_note_to_notebook_data
  contains-added b a e = rw e (
      contains-add_object_id s (notebook_ini from) note_ids note_id i (notebook_ini b) note_ids a
        (h from).ids
      ∙ at_notebook from b _ _)

module _ (s : Store) (note_id b : QString) where
  notebook_of-removed :
      (a : QString) → notebook_of (remove_note_from_notebook_data s note_id b).0 a ≡ notebook_of s a
  unfolding remove_note_from_notebook_data
  notebook_of-removed a = ground (
    arith,
    value-remove_object_id s (notebook_ini b) note_ids note_id (note_gist a) notebook_id (λ e. cc),
  )

  notebook_of-added :
      (a : QString) → notebook_of (add_note_to_notebook_data s note_id b).0 a ≡ notebook_of s a
  unfolding add_note_to_notebook_data
  notebook_of-added a = ground (
    arith,
    value-add_object_id s (notebook_ini b) note_ids note_id (note_gist a) notebook_id (λ e. cc),
  )

  notebook_of-set :
      (a : QString)
      → notebook_of (set_value s (note_gist note_id) notebook_id (text b)) a
        ≡ (if text_eq note_id a then b else notebook_of s a)
  notebook_of-set a =
      rw (value-set_value s (note_gist note_id) (note_gist a) notebook_id notebook_id (text b))
        (ground (arith, at_gist note_id a (text b) (value s (note_gist a) notebook_id)))

  list-set :
      (a : QString)
      → ids_list (set_value s (note_gist note_id) notebook_id (text b)) (notebook_ini a) note_ids
        ≡ ids_list s (notebook_ini a) note_ids
  unfolding ids_list value set_value
  list-set a = refl

  list-set-IsIdList :
      (a : QString)
      → IsIdList s (notebook_ini a) note_ids
      → IsIdList (set_value s (note_gist note_id) notebook_id (text b)) (notebook_ini a) note_ids
  unfolding ids_list value set_value
  list-set-IsIdList a h = record { ids = h.ids; distinct = h.distinct }

module _ (s : Store) (note_id to : QString) (i : IsId note_id) (e : is_empty to ≡ false)
    (p : IsPlaced s) where
  pub move_note-IsPlaced : IsPlaced (move_note s note_id (notebook_of s note_id) to)
  unfolding move_note
  move_note-IsPlaced =
      let from = notebook_of s note_id in
      let s₁ = set_value s (note_gist note_id) notebook_id (text to) in
      let h₁ : (b : QString) → IsIdList s₁ (notebook_ini b) note_ids =
        λ b. list-set-IsIdList s note_id to b (p.lists b) in
      let s₂ = (remove_note_from_notebook_data s₁ note_id from).0 in
      let h₂ = removed-IsIdList s₁ note_id from i h₁ in
      record {
        lists = added-IsIdList s₂ note_id to i h₂;
        placed = λ a b k. ground (
          arith,
          contains-added s₂ note_id to i h₂ b a e,
          contains-removed s₁ note_id from i h₁ b a k,
          contains-removed s₁ note_id from i h₁ to a e,
          list-set s note_id to b,
          list-set s note_id to from,
          list-set s note_id to to,
          p.placed a b k,
          p.placed a to e,
          notebook_of-added s₂ note_id to a,
          notebook_of-removed s₁ note_id from a,
          notebook_of-set s note_id to a,
        );
      }

  pub notebook_of-move_note :
      (a : QString)
      → notebook_of (move_note s note_id (notebook_of s note_id) to) a
        ≡ (if text_eq note_id a then to else notebook_of s a)
  unfolding move_note
  notebook_of-move_note a =
      let from = notebook_of s note_id in
      let s₁ = set_value s (note_gist note_id) notebook_id (text to) in
      notebook_of-added (remove_note_from_notebook_data s₁ note_id from).0 note_id to a
      ∙ (notebook_of-removed s₁ note_id from a ∙ notebook_of-set s note_id to a)

-- Setting a note's notebook keeps every note in the list of the notebook that its gist names, and in
-- no other, whatever the notebook is, when every note stood so before and the note's id is an id.
pub set_notebook_for_note-IsPlaced :
    (s : Store) (note_id b : QString)
    → IsId note_id
    → IsPlaced s
    → IsPlaced (set_notebook_for_note s note_id b).0
unfolding set_notebook_for_note
set_notebook_for_note-IsPlaced s note_id b i p = elim (Bool-cases (is_empty b)) [
  | inl e ↦ rw e p
  | inr e ↦ elim (Bool-cases (text_eq (notebook_of s note_id) b)) [
    | inl q ↦ rw (e, i.0, q) p
    | inr q ↦ rw (e, i.0, q) (move_note-IsPlaced s note_id b i e p)
  ]
]

-- It puts the note in that notebook, if that is one, and leaves the notebook of every other note.
pub notebook_of-set_notebook_for_note :
    (s : Store) (note_id b a : QString)
    → IsId note_id
    → is_empty b ≡ false
    → IsPlaced s
    → notebook_of (set_notebook_for_note s note_id b).0 a
      ≡ (if text_eq note_id a then b else notebook_of s a)
unfolding set_notebook_for_note
notebook_of-set_notebook_for_note s note_id b a i e p =
    elim (Bool-cases (text_eq (notebook_of s note_id) b)) [
      | inl q ↦ rw (e, i.0, q) (ground (arith, text_dec (notebook_of s note_id) b))
      | inr q ↦ rw (e, i.0, q) (notebook_of-move_note s note_id b i e p a)
    ]
