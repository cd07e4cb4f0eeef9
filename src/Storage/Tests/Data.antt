-- ===== src/Storage/Tests/Data.antt =====
-- The stores and the functions of Qt that the tests of the storage manager run on.
use notekeeper_open.Base.{
  ◌≡◌, refl, sym, false, none, [], ◌∷◌, QString, lit, text_eq, text_dec, contains, is_empty,
  if◌then◌else◌, arith, Bool-cases, inl, inr,
}
use notekeeper_open.Base.Split.{IsId, ids_of, split}
use notekeeper_open.Storage.Order.{note_timestamp}
use notekeeper_open.Storage.Signals.{Qt}
use notekeeper_open.Storage.Ini.{
  notes_list, notes_by_guid, note_gist, notebooks_list, notebook_ini, trash_list, recents_ini,
  note_ids, notebook_ids, notebook_id, default_notebook_id, guid, entry, updated_time,
  recent_searches, invalid, text, texts, number, Store, value,
}
use notekeeper_open.Storage.Collection.{ids_list}
use notekeeper_open.Storage.Collection.Laws.{HasIds}
use notekeeper_open.Storage.Collection.Members.{IsIdList}
use notekeeper_open.Storage.Notebooks.Placed.{notebook_of, IsPlaced}
use notekeeper_open.Storage.Notes.{timestamp_of}
use notekeeper_open.Storage.Notes.Listed.{IsInOrder}
use notekeeper_open.Storage.Trash.Lists.{IsTidy}

-- Qt's functions on ASCII text without capitals or blanks, and a hash that is the text itself.
abbrev pub plain_qt : Qt
plain_qt = record {
  simplified = λ t. t;
  trimmed = λ t. t;
  to_upper = λ t. t;
  equals_ignoring_case = λ a b. text_eq a b;
  md5 = λ t. t;
  md5_hex = λ t. t;
  is_cached = λ g h. false;
  source = none;
}

abbrev pub n1 : QString
n1 = lit "n1"

abbrev pub n2 : QString
n2 = lit "n2"

abbrev pub b1 : QString
b1 = lit "b1"

abbrev pub b2 : QString
b2 = lit "b2"

-- Two notes, of which n2 is the later, another in the trash, two notebooks, and two searches.
unfoldable pub two_notes : Store
unfolding text_dec
two_notes notes_list note_ids = text (lit "n2,n1")
two_notes (note_gist n) updated_time = number (if text_eq n2 n then 2 else 1)
two_notes notebooks_list notebook_ids = text (lit "b2,b1")
two_notes notebooks_list default_notebook_id = text b1
two_notes trash_list note_ids = text (lit "n3")
two_notes (note_gist n) guid = if text_eq n1 n then text (lit "g1") else invalid
two_notes notes_by_guid (entry g) = text n1
two_notes recents_ini recent_searches = texts (lit "car" ∷ lit "red" ∷ [])
two_notes _ _ = invalid

pub n1-IsId : IsId n1
n1-IsId = (refl, (omega arith, (omega arith, tt)))

pub n2-IsId : IsId n2
n2-IsId = (refl, (omega arith, (omega arith, tt)))

pub b1-IsId : IsId b1
b1-IsId = (refl, (omega arith, (omega arith, tt)))

pub b2-IsId : IsId b2
b2-IsId = (refl, (omega arith, (omega arith, tt)))

pub n3-IsId : IsId (lit "n3")
n3-IsId = (refl, (omega arith, (omega arith, tt)))

pub two_notes-all : IsIdList two_notes notes_list note_ids
unfolding ids_list value ids_of split contains text_dec two_notes
two_notes-all = record { ids = (n2-IsId, (n1-IsId, tt)); distinct = (refl, (refl, tt)) }

pub two_notes-IsTidy : IsTidy two_notes
unfolding ids_list value ids_of split contains text_dec two_notes
two_notes-IsTidy = record {
  all = two_notes-all;
  favourites = record { ids = tt; distinct = tt };
  trash = record { ids = (n3-IsId, tt); distinct = (refl, tt) };
}

pub two_notes-notebooks : HasIds two_notes notebooks_list notebook_ids
unfolding ids_list value ids_of split two_notes
two_notes-notebooks = (b2-IsId, (b1-IsId, tt))

pub two_notes-IsInOrder : IsInOrder two_notes
unfolding ids_list value ids_of split text_dec timestamp_of note_timestamp two_notes
two_notes-IsInOrder = (omega arith, tt)

-- One note, in one of the notebooks.
unfoldable pub one_note : Store
unfolding text_dec
one_note (note_gist n) notebook_id = if text_eq n1 n then text b1 else invalid
one_note (notebook_ini b) note_ids = if text_eq b1 b then text n1 else invalid
one_note _ _ = invalid

pub one_note-IsIdList : (b : QString) → IsIdList one_note (notebook_ini b) note_ids
unfolding ids_list value ids_of split contains one_note
one_note-IsIdList b = elim (Bool-cases (text_eq b1 b)) [
  | inl e ↦ record { ids = rw e (n1-IsId, tt); distinct = rw e (refl, tt) }
  | inr e ↦ record { ids = rw e tt; distinct = rw e tt }
]

pub one_note-placed :
    (n b : QString)
    → is_empty b ≡ false
    → contains (ids_list one_note (notebook_ini b) note_ids) n ≡ text_eq (notebook_of one_note n) b
unfolding ids_list value ids_of split contains one_note
one_note-placed n [] e = cc
one_note-placed n (c ∷ b) e = elim (Bool-cases (text_eq b1 (c ∷ b))) [
  | inl q ↦ elim (Bool-cases (text_eq n1 n)) [ inl r ↦ rw (q, r) (sym q) | inr r ↦ rw (q, r) refl ]
  | inr q ↦ elim (Bool-cases (text_eq n1 n)) [ inl r ↦ rw (q, r) (sym q) | inr r ↦ rw (q, r) refl ]
]

pub one_note-IsPlaced : IsPlaced one_note
one_note-IsPlaced = record { lists = one_note-IsIdList; placed = one_note-placed }
