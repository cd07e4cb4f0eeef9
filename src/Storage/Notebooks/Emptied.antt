-- ===== src/Storage/Notebooks/Emptied.antt =====
-- What expungeNotebook asserts after it has moved the notes: the notebook has none left.
use notekeeper_open.Base.{
  ◌≡◌, refl, ◌∙◌, false, List, [], ◌∷◌, QString, is_empty, contains, if◌then◌else◌, arith, All,
  text_eq,
}
use notekeeper_open.Base.Split.{IsId}
use notekeeper_open.Base.Members.{text_eq_refl}
use notekeeper_open.Storage.Ini.{Store, notebook_ini, note_ids}
use notekeeper_open.Storage.Collection.{ids_list}
use notekeeper_open.Storage.Notebooks.{set_notebook_for_note}
use notekeeper_open.Storage.Notebooks.Expunge.{move_notes}
use notekeeper_open.Storage.Notebooks.Placed.{
  notebook_of, IsPlaced, set_notebook_for_note-IsPlaced, notebook_of-set_notebook_for_note,
}

module _ (to : QString) where
  pub move_notes-IsPlaced :
      (s : Store) (ids : List QString)
      → All IsId ids
      → IsPlaced s
      → IsPlaced (move_notes s to ids).0
  unfolding move_notes
  move_notes-IsPlaced s [] h p = p
  move_notes-IsPlaced s (note_id ∷ rest) h p =
      move_notes-IsPlaced (set_notebook_for_note s note_id to).0 rest h.1
        (set_notebook_for_note-IsPlaced s note_id to h.0 p)

  pub notebook_of-move_notes :
      (s : Store) (ids : List QString) (a : QString)
      → All IsId ids
      → is_empty to ≡ false
      → IsPlaced s
      → notebook_of (move_notes s to ids).0 a ≡ (if contains ids a then to else notebook_of s a)
  unfolding move_notes contains
  notebook_of-move_notes s [] a h e p = refl
  notebook_of-move_notes s (note_id ∷ rest) a h e p = ground (
    arith,
    notebook_of-move_notes (set_notebook_for_note s note_id to).0 rest a h.1 e
        (set_notebook_for_note-IsPlaced s note_id to h.0 p),
    notebook_of-set_notebook_for_note s note_id to a h.0 e p,
  )

no_member : (xs : List QString) → ((a : QString) → contains xs a ≡ false) → xs ≡ []
unfolding contains
no_member [] h = refl
no_member (x ∷ xs) h = ground (arith, h x, text_eq_refl x)

-- After the notes of a notebook are moved to another notebook, its list is empty, when every note
-- stood where its gist names it.
pub move_notes-empties :
    (s : Store) (b to : QString)
    → is_empty b ≡ false
    → is_empty to ≡ false
    → text_eq to b ≡ false
    → IsPlaced s
    → ids_list (move_notes s to (ids_list s (notebook_ini b) note_ids)).0 (notebook_ini b) note_ids
      ≡ []
move_notes-empties s b to e e' d p =
    let ids = ids_list s (notebook_ini b) note_ids in
    no_member _ (λ a.
      (move_notes-IsPlaced to s ids (p.lists b).ids p).placed a b e
      ∙ ground (arith, notebook_of-move_notes to s ids a (p.lists b).ids e' p, p.placed a b e))
