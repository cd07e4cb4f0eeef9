-- ===== src/NotesList/Content.antt =====
-- Which notes the list holds after a notice.
use notekeeper_open.Base.{
  ℕ, ◌≡◌, ap, subst, sym, Bool, true, false, some, List, QString, is_empty, if◌then◌else◌, arith,
  text_eq, contains, index_of, IsDistinct, Option-cases, Bool-cases, inl, inr,
}
use notekeeper_open.Base.Members.{
  index_of-none, index_of-some, contains-insert_at, contains-remove_one, text_eq_refl,
}
use notekeeper_open.Storage.Order.{note_insertion_position}
use notekeeper_open.NotesList.{
  type_eq, all_notes, notes_in_notebook, notes_with_tag, favourite_notes, trash_notes, Storage,
  Model, unchanged, insert_note, remove_note_at,
}
use notekeeper_open.NotesList.Slots.{
  notebook_changed, tags_changed, favouriteness_changed, trashedness_changed, notify,
  notebook_for_note_changed, tags_for_note_changed, note_favouriteness_changed,
  note_trashedness_changed, settle, by_position, applies_to,
}

-- The list holds the note exactly when `belongs`, and every other note as before.
abbrev pub Settled : QString → Bool → Model → Model → Type 0
Settled note_id belongs m m' =
    (a : QString)
    → contains m'.note_ids a ≡ (if text_eq note_id a then belongs else contains m.note_ids a)

module _ (st : Storage) (note_id : QString) (m : Model) where
  insert_note-Settled :
      contains m.note_ids note_id ≡ false → Settled note_id true m (insert_note st note_id m).0
  unfolding insert_note
  insert_note-Settled h a = ground (
    arith,
    contains-insert_at (note_insertion_position st.timestamp_of note_id m.note_ids) note_id
        m.note_ids a,
  )

  remove_note_at-Settled :
      (pos : ℕ)
      → index_of m.note_ids note_id ≡ some pos
      → IsDistinct m.note_ids
      → Settled note_id false m (remove_note_at pos m).0
  unfolding remove_note_at
  remove_note_at-Settled pos p d a =
      rw ((index_of-some m.note_ids note_id pos p).1) (contains-remove_one m.note_ids note_id a d)

  present-Settled :
      (belongs : Bool) → contains m.note_ids note_id ≡ belongs → Settled note_id belongs m m
  present-Settled belongs h a = ground (arith, text_eq_refl a)

  settle-Settled :
      (belongs : Bool)
      → IsDistinct m.note_ids
      → Settled note_id belongs m (settle st note_id belongs m).0
  unfolding settle
  settle-Settled belongs d = elim (Option-cases (index_of m.note_ids note_id)) [
    | inl miss ↦
        let absent = index_of-none m.note_ids note_id miss in
        rw (miss, by_position) (missing belongs absent)
    | inr (pos, hit) ↦ rw (hit, by_position) (present belongs pos hit)
  ]
    where
      missing :
          (b : Bool)
          → contains m.note_ids note_id ≡ false
          → Settled note_id b m (if b then insert_note st note_id m else unchanged m).0
      missing true h = insert_note-Settled h
      missing false h = present-Settled false h

      present :
          (b : Bool) (pos : ℕ)
          → index_of m.note_ids note_id ≡ some pos
          → Settled note_id b m (if b then unchanged m else remove_note_at pos m).0
      present true pos hit = present-Settled true (index_of-some m.note_ids note_id pos hit).0
      present false pos hit = remove_note_at-Settled pos hit d

  -- The list of a notebook, with no note twice, holds a note after the notice of its notebook exactly
  -- when that is the list's notebook, and every other note as before.
  pub notebook_changed-Settled :
      (notebook_id : QString)
      → is_empty note_id ≡ false
      → is_empty notebook_id ≡ false
      → m.list_type ≡ notes_in_notebook
      → IsDistinct m.note_ids
      → Settled note_id
          (text_eq notebook_id m.query)
          m
          (notify st (notebook_changed note_id notebook_id) m).0
  unfolding notify notebook_for_note_changed
  notebook_changed-Settled notebook_id p q t d =
      rw (p, q, ap (λ x. type_eq x notes_in_notebook) t)
        (settle-Settled (text_eq notebook_id m.query) d)

  -- The list of a tag holds a note after the notice of its tags exactly when they have the list's
  -- tag, and every other note as before, when no note stands twice.
  pub tags_changed-Settled :
      (tag_ids : List QString)
      → is_empty note_id ≡ false
      → m.list_type ≡ notes_with_tag
      → IsDistinct m.note_ids
      → Settled note_id (contains tag_ids m.query) m (notify st (tags_changed note_id tag_ids) m).0
  unfolding notify tags_for_note_changed
  tags_changed-Settled tag_ids p t d =
      rw (p, ap (λ x. type_eq x notes_with_tag) t) (settle-Settled (contains tag_ids m.query) d)

  -- The list of favourites holds a note after the notice exactly when it is a favourite, and every
  -- other note as before, when no note stands twice.
  pub favouriteness_changed-Settled :
      (is_favourite : Bool)
      → is_empty note_id ≡ false
      → m.list_type ≡ favourite_notes
      → IsDistinct m.note_ids
      → Settled note_id is_favourite m (notify st (favouriteness_changed note_id is_favourite) m).0
  unfolding notify note_favouriteness_changed
  favouriteness_changed-Settled is_favourite p t d =
      rw (p, ap (λ x. type_eq x favourite_notes) t) (settle-Settled is_favourite d)

  -- A note that is moved to the trash is in no list but the trash, and in that list it is; every
  -- other note is as before. The list has no note twice.
  pub trashed-Settled :
      is_empty note_id ≡ false
      → IsDistinct m.note_ids
      → Settled note_id
          (type_eq m.list_type trash_notes)
          m
          (notify st (trashedness_changed note_id true) m).0
  unfolding notify note_trashedness_changed
  trashed-Settled p d = elim (Bool-cases (type_eq m.list_type trash_notes)) [
    | inl e ↦ rw (p, e) (settle-Settled true d)
    | inr e ↦ elim (Option-cases (index_of m.note_ids note_id)) [
      | inl miss ↦
          rw (p, e, miss, by_position)
            (present-Settled false (index_of-none m.note_ids note_id miss))
      | inr (pos, hit) ↦ rw (p, e, hit, by_position) (remove_note_at-Settled pos hit d)
    ]
  ]

  trashed-list_type :
      m.list_type ≡ all_notes
      → (notify st (trashedness_changed note_id true) m).0.list_type ≡ all_notes
  unfolding notify note_trashedness_changed by_position remove_note_at
  trashed-list_type t = ground (arith, t)

  restored_all_notes :
      m.list_type ≡ all_notes
      → contains m.note_ids note_id ≡ false
      → (notify st (trashedness_changed note_id false) m).0 ≡ m
  unfolding notify note_trashedness_changed by_position applies_to
  restored_all_notes t h =
      let k : type_eq m.list_type trash_notes ≡ false = ap (λ x. type_eq x trash_notes) t in
      let n : applies_to st m.list_type m.query note_id ≡ false =
        ap (λ x. applies_to st x m.query note_id) t in
      ground (arith, k, n, index_of-some m.note_ids note_id)

-- A note that is trashed and then restored is missing from a list of all notes that is open meanwhile
-- and has no note twice, while every other note is there as before.
pub trashed_and_restored-Settled :
    (st later : Storage) (note_id : QString) (m : Model)
    → is_empty note_id ≡ false
    → m.list_type ≡ all_notes
    → IsDistinct m.note_ids
    → Settled note_id false m
        (notify later
          (trashedness_changed note_id false)
          (notify st (trashedness_changed note_id true) m).0).0
trashed_and_restored-Settled st later note_id m p t d =
    let m' : Model = (notify st (trashedness_changed note_id true) m).0 in
    let gone : Settled note_id false m m' =
      subst (λ (b : Bool). Settled note_id b m m') (ap (λ x. type_eq x trash_notes) t)
        (trashed-Settled st note_id m p d) in
    subst (Settled note_id false m)
      (sym (
        restored_all_notes later note_id m' (trashed-list_type st note_id m t)
          (ground (arith, gone note_id, text_eq_refl note_id))))
      gone
