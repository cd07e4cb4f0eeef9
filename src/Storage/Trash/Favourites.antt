-- ===== src/Storage/Trash/Favourites.antt =====
-- The list of favourites and the flags in the gists of the notes.
use notekeeper_open.Base.{
  ◌≡◌, refl, ap, Bool, true, false, not, [], ◌∷◌, QString, is_empty, contains, if◌then◌else◌, if_no,
  arith, Bool-cases, inl, inr, text_eq,
}
use notekeeper_open.Base.Split.{IsId}
use notekeeper_open.Storage.Signals.{Done, notice}
use notekeeper_open.NotesList.Slots.{favouriteness_changed}
use notekeeper_open.Storage.Ini.{
  Store, flag, to_bool, favourites_list, note_gist, note_ids, favourite, value, set_value,
}
use notekeeper_open.Storage.Collection.{ids_list, add_object_id, remove_object_id}
use notekeeper_open.Storage.Collection.Members.{
  IsIdList, contains-add_object_id, contains-remove_object_id, add_object_id-IsIdList,
  remove_object_id-IsIdList, value-add_object_id, value-remove_object_id,
}
use notekeeper_open.Storage.Trash.{is_favourite_note, set_favourite_note}

-- The list of favourites holds exactly the notes whose gist says that they are favourites.
pub record IsFlagged (s : Store) : Type 0 where
  pub list : IsIdList s favourites_list note_ids
  pub flagged :
      (a : QString) → contains (ids_list s favourites_list note_ids) a ≡ is_favourite_note s a

module _ (s : Store) (note_id : QString) (i : IsId note_id) (b : Bool) where
  is_favourite_note-flag :
      (a : QString)
      → is_favourite_note (set_value s (note_gist note_id) favourite (flag b)) a
        ≡ (if text_eq note_id a then b else is_favourite_note s a)
  unfolding is_favourite_note set_value value
  is_favourite_note-flag a = ground arith

  list-flag :
      IsIdList s favourites_list note_ids
      → IsIdList (set_value s (note_gist note_id) favourite (flag b)) favourites_list note_ids
  unfolding ids_list set_value value
  list-flag h = record { ids = h.ids; distinct = h.distinct }

  contains-flag :
      (a : QString)
      → contains
          (ids_list (set_value s (note_gist note_id) favourite (flag b)) favourites_list note_ids)
          a
        ≡ contains (ids_list s favourites_list note_ids) a
  unfolding ids_list set_value value
  contains-flag a = refl

-- The store after the list was changed and before the flag is.
listed : Store → QString → Bool → Store
listed s note_id true = (add_object_id s favourites_list note_ids note_id).0
listed s note_id false = (remove_object_id s favourites_list note_ids note_id).0

module _ (s : Store) (note_id : QString) (i : IsId note_id)
    (h : IsIdList s favourites_list note_ids) where
  listed-IsIdList : (b : Bool) → IsIdList (listed s note_id b) favourites_list note_ids
  unfolding listed
  listed-IsIdList true =
      add_object_id-IsIdList s favourites_list note_ids note_id i favourites_list note_ids h h
  listed-IsIdList false =
      remove_object_id-IsIdList s favourites_list note_ids note_id i favourites_list note_ids h h

  contains-listed :
      (b : Bool) (a : QString)
      → contains (ids_list (listed s note_id b) favourites_list note_ids) a
        ≡ (if text_eq note_id a then b else contains (ids_list s favourites_list note_ids) a)
  unfolding listed
  contains-listed true a = ground (
    arith,
    contains-add_object_id s favourites_list note_ids note_id i favourites_list note_ids a h.ids,
  )
  contains-listed false a = ground (
    arith,
    contains-remove_object_id s favourites_list note_ids note_id i favourites_list note_ids a h,
  )

  is_favourite_note-listed :
      (b : Bool) (a : QString) → is_favourite_note (listed s note_id b) a ≡ is_favourite_note s a
  unfolding listed is_favourite_note
  is_favourite_note-listed true a =
      ap to_bool
        (value-add_object_id s favourites_list note_ids note_id (note_gist a) favourite (λ e. cc))
  is_favourite_note-listed false a =
      ap to_bool (
        value-remove_object_id s favourites_list note_ids note_id (note_gist a) favourite (λ e. cc))

  flag-IsFlagged :
      (b : Bool)
      → IsFlagged s
      → IsFlagged (set_value (listed s note_id b) (note_gist note_id) favourite (flag b))
  flag-IsFlagged b f = record {
    list = list-flag (listed s note_id b) note_id i b (listed-IsIdList b);
    flagged = λ a. ground (
      arith,
      contains-flag (listed s note_id b) note_id i b a,
      contains-listed b a,
      is_favourite_note-flag (listed s note_id b) note_id i b a,
      is_favourite_note-listed b a,
      f.flagged a,
    );
  }

-- The branches that are left when there is an id.
outcome : Store → QString → Bool → Done Bool
outcome s note_id b =
    if if is_favourite_note s note_id then not b else b
    then (
      set_value (listed s note_id b) (note_gist note_id) favourite (flag b),
      true,
      notice (favouriteness_changed note_id b) ∷ [],
    )
    else (s, false, [])

set_favourite_note-outcome :
    (s : Store) (note_id : QString) (b : Bool)
    → is_empty note_id ≡ false
    → set_favourite_note s note_id b ≡ outcome s note_id b
unfolding set_favourite_note is_favourite_note listed outcome
set_favourite_note-outcome s note_id true e = if_no _ _ e
set_favourite_note-outcome s note_id false e = if_no _ _ e

-- Making a note a favourite, or no longer one, keeps the list of favourites in agreement with the
-- flags of all notes, whatever the note was before, when they agreed before and the id is one.
pub set_favourite_note-IsFlagged :
    (s : Store) (note_id : QString) (b : Bool)
    → IsId note_id
    → IsFlagged s
    → IsFlagged (set_favourite_note s note_id b).0
unfolding outcome
set_favourite_note-IsFlagged s note_id b i f =
    rw (set_favourite_note-outcome s note_id b i.0)
      (elim (Bool-cases (if is_favourite_note s note_id then not b else b)) [
        | inl e ↦ rw e (flag-IsFlagged s note_id i f.list b f)
        | inr e ↦ rw e f
      ])
