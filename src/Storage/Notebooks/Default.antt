-- ===== src/Storage/Notebooks/Default.antt =====
-- What expungeNotebook does to the default notebook.
use notekeeper_open.Base.{
  ◌≡◌, true, false, List, [], ◌∷◌, QString, is_empty, contains, arith, All, text_eq, Bool-cases,
  inl, inr,
}
use notekeeper_open.Base.Split.{IsId}
use notekeeper_open.Storage.Ini.{Store, notebooks_list, notebook_ids}
use notekeeper_open.Storage.Collection.{ids_list}
use notekeeper_open.Storage.Collection.Laws.{HasIds}
use notekeeper_open.Storage.Notebooks.{get_default_notebook_id}
use notekeeper_open.Storage.Notebooks.Expunge.{
  pick_other, expunge_default_notebook, expunge_notebook,
}

pick_other_some :
    (default picked : QString) (bs : List QString)
    → is_empty picked ≡ false
    → All IsId bs
    → is_empty (pick_other default picked bs) ≡ false
unfolding pick_other
pick_other_some default picked [] e h = e
pick_other_some default picked (b ∷ bs) e h = elim (Bool-cases (text_eq b default)) [
  | inl q ↦ rw q (pick_other_some default picked bs e h.1)
  | inr q ↦ rw q (pick_other_some default b bs h.0.0 h.1)
]

pick_other_found :
    (default picked other : QString) (bs : List QString)
    → contains bs other ≡ true
    → text_eq other default ≡ false
    → All IsId bs
    → is_empty (pick_other default picked bs) ≡ false
unfolding pick_other contains
pick_other_found default picked other [] c d h = cc
pick_other_found default picked other (b ∷ bs) c d h = elim (Bool-cases (text_eq b default)) [
  | inl q ↦ rw q (pick_other_found default picked other bs (ground (arith, c, q, d)) d h.1)
  | inr q ↦ rw q (pick_other_some default b bs h.0.0 h.1)
]

-- The default notebook is not expunged while there is another: nothing changes, no signal is sent.
pub expunge_notebook_default :
    (s : Store) (other : QString)
    → HasIds s notebooks_list notebook_ids
    → contains (ids_list s notebooks_list notebook_ids) other ≡ true
    → text_eq other (get_default_notebook_id s) ≡ false
    → expunge_notebook s (get_default_notebook_id s) ≡ (s, [])
unfolding expunge_notebook expunge_default_notebook
expunge_notebook_default s other h c d = ground (
  arith,
  pick_other_found (get_default_notebook_id s) [] other (ids_list s notebooks_list notebook_ids) c d
      h,
)
