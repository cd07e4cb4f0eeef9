-- ===== src/NotesList/Effect.antt =====
-- The five things that a slot can do to the list, so that each invariant has five cases to keep.
use notekeeper_open.Base.{
  ℕ, ◌≡◌, refl, Bool, true, false, some, [], ◌∷◌, QString, if◌then◌else◌, contains, index_of,
  Option-cases, inl, inr,
}
use notekeeper_open.Base.Members.{index_of-none}
use notekeeper_open.NotesList.{
  Storage, Model, data_changed, Update, unchanged, and_then, insert_note, remove_note_at,
}
use notekeeper_open.NotesList.Slots.{
  Notice, created, expunged, display_data_changed, notebook_changed, tags_changed,
  favouriteness_changed, trashedness_changed, notify, note_created, note_expunged,
  note_display_data_changed, notebook_for_note_changed, tags_for_note_changed,
  note_favouriteness_changed, note_trashedness_changed, settle, by_position,
}

pub data Effect (st : Storage) (m : Model) (u : Update) : Type 0 where
  stays : u ≡ unchanged m → Effect st m u
  redraws :
      (note_id : QString) (pos : ℕ)
      → index_of m.note_ids note_id ≡ some pos
      → u ≡ (m, data_changed pos ∷ [])
      → Effect st m u
  inserts :
      (note_id : QString)
      → contains m.note_ids note_id ≡ false
      → u ≡ insert_note st note_id m
      → Effect st m u
  removes :
      (note_id : QString) (pos : ℕ)
      → index_of m.note_ids note_id ≡ some pos
      → u ≡ remove_note_at pos m
      → Effect st m u
  moves :
      (note_id : QString) (pos : ℕ)
      → index_of m.note_ids note_id ≡ some pos
      → u ≡ and_then (remove_note_at pos m) (insert_note st note_id)
      → Effect st m u

module _ (st : Storage) (m : Model) where
  if-Effect :
      (b : Bool) (u v : Update)
      → (b ≡ true → Effect st m u)
      → (b ≡ false → Effect st m v)
      → Effect st m (if b then u else v)
  if-Effect true u v h k = h refl
  if-Effect false u v h k = k refl

  found-Effect :
      (note_id : QString) (u : Update) (f : ℕ → Update)
      → (contains m.note_ids note_id ≡ false → Effect st m u)
      → ((pos : ℕ) → index_of m.note_ids note_id ≡ some pos → Effect st m (f pos))
      → Effect st m (by_position (index_of m.note_ids note_id) u f)
  unfolding by_position
  found-Effect note_id u f h k = elim (Option-cases (index_of m.note_ids note_id)) [
    | inl miss ↦ rw miss (h (index_of-none m.note_ids note_id miss))
    | inr (pos, hit) ↦ rw hit (k pos hit)
  ]

  same : Effect st m (unchanged m)
  same = stays refl

  settle-Effect : (note_id : QString) (belongs : Bool) → Effect st m (settle st note_id belongs m)
  unfolding settle
  settle-Effect note_id belongs = search (if-Effect, found-Effect, same, inserts, removes) depth 7

  display-Effect :
      (note_id : QString) (t : Bool) → Effect st m (note_display_data_changed st note_id t m)
  unfolding note_display_data_changed
  display-Effect note_id t = search (if-Effect, found-Effect, same, moves, redraws) depth 9

  trashedness-Effect :
      (note_id : QString) (t : Bool) → Effect st m (note_trashedness_changed st note_id t m)
  unfolding note_trashedness_changed
  trashedness-Effect note_id t =
      search (if-Effect, found-Effect, settle-Effect, same, inserts, removes) depth 9

  -- A slot leaves the list alone, redraws a row, inserts a note that is not there, removes a note
  -- that is, or moves one to its place.
  pub notify-Effect : (n : Notice) → Effect st m (notify st n m)
  unfolding notify note_created note_expunged notebook_for_note_changed tags_for_note_changed
      note_favouriteness_changed
  notify-Effect (created note_id) = search (if-Effect, same, inserts) depth 7
  notify-Effect (expunged note_id) = search (if-Effect, found-Effect, same, removes) depth 7
  notify-Effect (display_data_changed note_id t) = display-Effect note_id t
  notify-Effect (notebook_changed note_id notebook_id) =
      search (if-Effect, same, settle-Effect) depth 7
  notify-Effect (tags_changed note_id tag_ids) = search (if-Effect, same, settle-Effect) depth 7
  notify-Effect (favouriteness_changed note_id f) = search (if-Effect, same, settle-Effect) depth 7
  notify-Effect (trashedness_changed note_id t) = trashedness-Effect note_id t
