-- ===== src/Storage/Interface/Views.antt =====
-- A list on the screen and the store that it shows: after an operation of the storage manager and
-- the slots that its signals call, the list shows what the store holds.
use notekeeper_open.Base.{
  ◌≡◌, ◌⊎◌, ap, sym, ◌∙◌, true, false, List, [], ◌∷◌, QString, is_empty, contains, text_eq,
  if◌then◌else◌, if_no, arith, Bool-cases, inl, inr, IsDistinct,
}
use notekeeper_open.Base.Split.{IsId}
use notekeeper_open.NotesList.{notes_in_notebook, Model, Update, unchanged, and_then}
use notekeeper_open.NotesList.Slots.{notify, notebook_changed}
use notekeeper_open.NotesList.Content.{notebook_changed-Settled}
use notekeeper_open.NotesList.Distinct.{notify-IsDistinct, notify-same_query}
use notekeeper_open.Storage.Signals.{Event, notice, notebooks_list_changed, tags_list_changed}
use notekeeper_open.Storage.Ini.{Store, notebook_ini, note_ids}
use notekeeper_open.Storage.Collection.{ids_list}
use notekeeper_open.Storage.Notebooks.{set_notebook_for_note, move_note}
use notekeeper_open.Storage.Notebooks.Placed.{
  notebook_of, IsPlaced, move_note-IsPlaced, notebook_of-move_note,
}
use notekeeper_open.Storage.Interface.{as_storage}

-- The slots that the emitted signals call, in order, with the store as it is after the operation.
unfoldable pub deliver : Store → List Event → Model → Update
unfolding notify
deliver s [] m = unchanged m
deliver s (notice n ∷ events) m = and_then (notify (as_storage s) n m) (deliver s events)
deliver s (notebooks_list_changed ∷ events) m = deliver s events m
deliver s (tags_list_changed ∷ events) m = deliver s events m

-- A list of the notes of a notebook that shows those of the store.
pub record IsShown (s : Store) (m : Model) : Type 0 where
  pub type_of : m.list_type ≡ notes_in_notebook
  pub notebook : is_empty m.query ≡ false
  pub distinct : IsDistinct m.note_ids
  pub shown :
      (a : QString)
      → contains m.note_ids a ≡ contains (ids_list s (notebook_ini m.query) note_ids) a

set_notebook_for_note-moved :
    (s : Store) (note_id b : QString)
    → is_empty b ≡ false
    → is_empty note_id ≡ false
    → text_eq (notebook_of s note_id) b ≡ false
    → set_notebook_for_note s note_id b ≡ (
      move_note s note_id (notebook_of s note_id) b,
      true,
      notice (notebook_changed note_id b) ∷ [],
    )
unfolding set_notebook_for_note
set_notebook_for_note-moved s note_id b e e' d = if_no _ _ e ∙ (if_no _ _ e' ∙ if_no _ _ d)

set_notebook_for_note-stays :
    (s : Store) (note_id b : QString)
    → is_empty note_id ≡ false
    → (is_empty b ≡ true) ⊎ (text_eq (notebook_of s note_id) b ≡ true)
    → set_notebook_for_note s note_id b ≡ (s, false, [])
unfolding set_notebook_for_note
set_notebook_for_note-stays s note_id b e (inl h) = ground (arith, h)
set_notebook_for_note-stays s note_id b e (inr h) = ground (arith, h, e)

-- The list after the notice of a note's notebook.
noticed-IsShown :
    (s s' : Store) (note_id b : QString) (m : Model)
    → is_empty note_id ≡ false
    → is_empty b ≡ false
    → IsPlaced s
    → IsPlaced s'
    → ((a : QString) → notebook_of s' a ≡ (if text_eq note_id a then b else notebook_of s a))
    → IsShown s m
    → IsShown s' (notify (as_storage s') (notebook_changed note_id b) m).0
noticed-IsShown s s' note_id b m e e' p p' n h =
    let m' = (notify (as_storage s') (notebook_changed note_id b) m).0 in
    let (t, q) = notify-same_query (as_storage s') m (notebook_changed note_id b) in
    let settled = notebook_changed-Settled (as_storage s') note_id m b e e' h.type_of h.distinct in
    record {
      type_of = t ∙ h.type_of;
      notebook = ap is_empty q ∙ h.notebook;
      distinct = notify-IsDistinct (as_storage s') (notebook_changed note_id b) m h.distinct;
      shown = λ a.
          settled a
          ∙ (ground (
            arith,
            n a,
            h.shown a,
            p.placed a m.query h.notebook,
            p'.placed a m.query h.notebook,
          )
              ∙ sym (ap (λ x. contains (ids_list s' (notebook_ini x) note_ids) a) q));
    }

-- A list of a notebook's notes that shows those of the store still does after any note is given any
-- notebook and the list has heard of it, when every note stands where its gist names it.
pub set_notebook_for_note-IsShown :
    (s : Store) (note_id b : QString) (m : Model)
    → IsId note_id
    → IsPlaced s
    → IsShown s m
    → (let (s', moved, events) = set_notebook_for_note s note_id b in
        IsShown s' (deliver s' events m).0)
unfolding deliver
set_notebook_for_note-IsShown s note_id b m i p h = elim (Bool-cases (is_empty b)) [
  | inl e ↦ rw (set_notebook_for_note-stays s note_id b i.0 (inl e)) h
  | inr e ↦ elim (Bool-cases (text_eq (notebook_of s note_id) b)) [
    | inl q ↦ rw (set_notebook_for_note-stays s note_id b i.0 (inr q)) h
    | inr q ↦ rw (set_notebook_for_note-moved s note_id b e i.0 q) (
        noticed-IsShown s (move_note s note_id (notebook_of s note_id) b) note_id b m i.0 e p
          (move_note-IsPlaced s note_id b i e p) (notebook_of-move_note s note_id b i e p) h)
  ]
]
