-- ===== src/Storage/Trash/Lists.antt =====
-- Which lists a note stands in when it has been moved to the trash.
use notekeeper_open.Base.{
  ◌≡◌, ◌≢◌, refl, ap, ◌∙◌, Bool, true, false, not, ◌&&◌, List, [], ◌∷◌, QString, is_empty, contains,
  if◌then◌else◌, if_no, arith, Bool-cases, inl, inr, text_eq, ◌||◌,
}
use notekeeper_open.Base.Split.{IsId, ids_of}
use notekeeper_open.NotesList.Slots.{trashedness_changed}
use notekeeper_open.Storage.Signals.{notice}
use notekeeper_open.Storage.Ini.{
  IniFile, Key, Store, flag, to_string, to_bool, notes_list, favourites_list, trash_list,
  notebook_ini, tag_ini, note_gist, note_ids, notebook_id, tag_ids, trashed, value, set_value,
}
use notekeeper_open.Storage.Collection.{ids_list, add_object_id, remove_object_id}
use notekeeper_open.Storage.Collection.Members.{
  IsIdList, contains-add_object_id, contains-remove_object_id, add_object_id-IsIdList,
  remove_object_id-IsIdList, value-remove_object_id,
}
use notekeeper_open.Storage.Notebooks.{notebook_exists, remove_note_from_notebook_data}
use notekeeper_open.Storage.Tags.{remove_note_from_tag_data, remove_tags_loop}
use notekeeper_open.Storage.Trash.{
  all_but_trash, remove_note_references, move_note_to_trash, is_trash_note,
}

-- The three lists that do not depend on a note's notebook or tags, in order.
pub record IsTidy (s : Store) : Type 0 where
  pub all : IsIdList s notes_list note_ids
  pub favourites : IsIdList s favourites_list note_ids
  pub trash : IsIdList s trash_list note_ids

abbrev pub is_listed : Store → IniFile → QString → Bool
is_listed s f note_id = contains (ids_list s f note_ids) note_id

module _ (note_id : QString) (f : IniFile) (k : Key) where
  -- Taking a note off its tags leaves the files that are no tag's.
  value-remove_tags_loop :
      (s : Store) (ts : List QString)
      → ((t : QString) → tag_ini t ≢ f)
      → value (remove_tags_loop s note_id ts) f k ≡ value s f k
  unfolding remove_tags_loop remove_note_from_tag_data
  value-remove_tags_loop s [] h = refl
  value-remove_tags_loop s (t ∷ ts) h =
      value-remove_tags_loop (remove_note_from_tag_data s note_id t).0 ts h
      ∙ ground (arith, value-remove_object_id s (tag_ini t) note_ids note_id f k (h t))

  value-remove_notebook :
      (s : Store) (b : QString)
      → notebook_ini b ≢ f
      → value (remove_note_from_notebook_data s note_id b).0 f k ≡ value s f k
  unfolding remove_note_from_notebook_data
  value-remove_notebook s b h =
      ground (arith, value-remove_object_id s (notebook_ini b) note_ids note_id f k h)

ids_list_agree :
    (s s' : Store) (f : IniFile)
    → value s' f note_ids ≡ value s f note_ids
    → ids_list s' f note_ids ≡ ids_list s f note_ids
unfolding ids_list
ids_list_agree s s' f h = ap (λ v. ids_of (to_string v)) h

IsIdList-agree :
    (s s' : Store) (f : IniFile)
    → value s' f note_ids ≡ value s f note_ids
    → IsIdList s f note_ids
    → IsIdList s' f note_ids
IsIdList-agree s s' f h i = record {
  ids = rw (ids_list_agree s s' f h) i.ids;
  distinct = rw (ids_list_agree s s' f h) i.distinct;
}

-- The store when the note is out of the lists of its notebook and of its tags.
abbrev loose : Store → QString → Store
loose s note_id =
    let b = to_string (value s (note_gist note_id) notebook_id) in
    let is_trashed = to_bool (value s (note_gist note_id) trashed) in
    remove_tags_loop
      (if notebook_exists s b && not is_trashed
        then (remove_note_from_notebook_data s note_id b).0
        else s)
      note_id (ids_of (to_string (value s (note_gist note_id) tag_ids)))

module _ (s : Store) (note_id : QString) (i : IsId note_id) where
  value-loose :
      (f : IniFile) (k : Key)
      → ((b : QString) → notebook_ini b ≢ f)
      → ((t : QString) → tag_ini t ≢ f)
      → value (loose s note_id) f k ≡ value s f k
  value-loose f k h h' =
      let b = to_string (value s (note_gist note_id) notebook_id) in
      let c = notebook_exists s b && not (to_bool (value s (note_gist note_id) trashed)) in
      value-remove_tags_loop note_id f k _
        (ids_of (to_string (value s (note_gist note_id) tag_ids))) h'
      ∙ elim (Bool-cases c) [
        | inl e ↦ rw e (value-remove_notebook note_id f k s b (h b))
        | inr e ↦ rw e refl
      ]

  references-all_but_trash :
      remove_note_references s note_id all_but_trash
      ≡ (remove_object_id
          (remove_object_id (loose s note_id) notes_list note_ids note_id).0
          favourites_list
          note_ids
          note_id).0
  unfolding remove_note_references
  references-all_but_trash = rw i.0 refl

  loose-IsTidy : IsTidy s → IsTidy (loose s note_id)
  loose-IsTidy h = record {
    all =
        IsIdList-agree s _ notes_list (value-loose notes_list note_ids (λ b e. cc) (λ t e. cc))
          h.all;
    favourites =
        IsIdList-agree s _ favourites_list
          (value-loose favourites_list note_ids (λ b e. cc) (λ t e. cc)) h.favourites;
    trash =
        IsIdList-agree s _ trash_list (value-loose trash_list note_ids (λ b e. cc) (λ t e. cc))
          h.trash;
  }

  remove-IsTidy :
      (f : IniFile)
      → IsIdList s f note_ids
      → IsTidy s
      → IsTidy (remove_object_id s f note_ids note_id).0
  remove-IsTidy f l h = record {
    all = remove_object_id-IsIdList s f note_ids note_id i notes_list note_ids l h.all;
    favourites =
        remove_object_id-IsIdList s f note_ids note_id i favourites_list note_ids l h.favourites;
    trash = remove_object_id-IsIdList s f note_ids note_id i trash_list note_ids l h.trash;
  }

  add-IsTidy :
      (f : IniFile)
      → IsIdList s f note_ids
      → IsTidy s
      → IsTidy (add_object_id s f note_ids note_id).0
  add-IsTidy f l h = record {
    all = add_object_id-IsIdList s f note_ids note_id i notes_list note_ids l h.all;
    favourites =
        add_object_id-IsIdList s f note_ids note_id i favourites_list note_ids l h.favourites;
    trash = add_object_id-IsIdList s f note_ids note_id i trash_list note_ids l h.trash;
  }

module _ (s : Store) (note_id : QString) (i : IsId note_id) (h : IsTidy s) where
  marked-IsTidy : IsTidy (set_value s (note_gist note_id) trashed (flag true))
  unfolding set_value value
  marked-IsTidy = record {
    all = IsIdList-agree s _ notes_list refl h.all;
    favourites = IsIdList-agree s _ favourites_list refl h.favourites;
    trash = IsIdList-agree s _ trash_list refl h.trash;
  }

  is_listed-marked :
      (f : IniFile)
      → ((n : QString) → note_gist n ≢ f)
      → (a : QString)
      → is_listed (set_value s (note_gist note_id) trashed (flag true)) f a ≡ is_listed s f a
  unfolding set_value value ids_list
  is_listed-marked f e a = ground (arith, e note_id)

  is_listed-loose :
      (f : IniFile)
      → ((b : QString) → notebook_ini b ≢ f)
      → ((t : QString) → tag_ini t ≢ f)
      → (a : QString) → is_listed (loose s note_id) f a ≡ is_listed s f a
  is_listed-loose f e e' a =
      rw (ids_list_agree s (loose s note_id) f (value-loose s note_id i f note_ids e e')) refl

  -- The lists after the note is out of the list of all notes and of the favourites.
  is_listed-references :
      (a : QString)
      → (let s' = remove_note_references s note_id all_but_trash in
          (is_listed s' notes_list a
            ≡ (if text_eq note_id a then false else is_listed s notes_list a))
          × (is_listed s' favourites_list a
              ≡ (if text_eq note_id a then false else is_listed s favourites_list a))
          × (is_listed s' trash_list a ≡ is_listed s trash_list a)
          × IsTidy s')
  is_listed-references a =
      let l = loose s note_id in
      let h₁ = loose-IsTidy s note_id i h in
      let m = (remove_object_id l notes_list note_ids note_id).0 in
      let h₂ = remove-IsTidy l note_id i notes_list h₁.all h₁ in
      let one = λ (f : IniFile).
        contains-remove_object_id l notes_list note_ids note_id i f note_ids a h₁.all in
      let two = λ (f : IniFile).
        contains-remove_object_id m favourites_list note_ids note_id i f note_ids a h₂.favourites in
      let same =
        λ (f : IniFile) (e : (b : QString) → notebook_ini b ≢ f)
            (e' : (t : QString) → tag_ini t ≢ f).
          is_listed-loose f e e' a in
      rw (references-all_but_trash s note_id i) (
        ground (arith, two notes_list, one notes_list, same notes_list (λ b e. cc) (λ t e. cc)),
        ground (
          arith,
          two favourites_list,
          one favourites_list,
          same favourites_list (λ b e. cc) (λ t e. cc),
        ),
        ground (arith, two trash_list, one trash_list, same trash_list (λ b e. cc) (λ t e. cc)),
        remove-IsTidy m note_id i favourites_list h₂.favourites h₂,
      )

-- The store of a note that is moved to the trash.
binned : Store → QString → Store
binned s note_id =
    (add_object_id
      (remove_note_references (set_value s (note_gist note_id) trashed (flag true)) note_id
        all_but_trash)
      trash_list note_ids note_id).0

move_note_to_trash-binned :
    (s : Store) (note_id : QString)
    → is_empty note_id ≡ false
    → is_trash_note s note_id ≡ false
    → move_note_to_trash s note_id
      ≡ (binned s note_id, true, notice (trashedness_changed note_id true) ∷ [])
unfolding move_note_to_trash is_trash_note binned
move_note_to_trash-binned s note_id e t = if_no _ _ e ∙ if_no _ _ t

-- A note that is not in the trash, moved there, is out of the list of all notes and of the
-- favourites and in the trash; every other note stays in the lists where it was. The operation
-- reports true and emits that the note was trashed. The three lists are lists of different ids.
pub move_note_to_trash-lists :
    (s : Store) (note_id a : QString)
    → IsId note_id
    → IsTidy s
    → is_trash_note s note_id ≡ false
    → (let (s', done, events) = move_note_to_trash s note_id in
        (is_listed s' notes_list a
          ≡ (if text_eq note_id a then false else is_listed s notes_list a))
        × (is_listed s' favourites_list a
            ≡ (if text_eq note_id a then false else is_listed s favourites_list a))
        × (is_listed s' trash_list a ≡ (text_eq note_id a || is_listed s trash_list a))
        × (done ≡ true)
        × (events ≡ notice (trashedness_changed note_id true) ∷ []))
unfolding binned
move_note_to_trash-lists s note_id a i h t =
    let m = set_value s (note_gist note_id) trashed (flag true) in
    let (on_all, on_favourites, on_trash, tidy) =
      is_listed-references m note_id i (marked-IsTidy s note_id i h) a in
    let add = λ (f : IniFile).
      contains-add_object_id (remove_note_references m note_id all_but_trash) trash_list note_ids
        note_id i f note_ids a tidy.trash.ids in
    let same =
      λ (f : IniFile) (e : (n : QString) → note_gist n ≢ f). is_listed-marked s note_id i h f e a in
    rw (move_note_to_trash-binned s note_id i.0 t) (
      ground (arith, add notes_list, on_all, same notes_list (λ n e. cc)),
      ground (arith, add favourites_list, on_favourites, same favourites_list (λ n e. cc)),
      ground (arith, add trash_list, on_trash, same trash_list (λ n e. cc)),
      refl,
      refl,
    )
