-- ===== src/NotesList.antt =====
-- NotesListModel (src/storage/noteslistmodel.cpp): the list of notes that the user looks at, kept up
-- to date by the slots that the storage manager's signals call.
pub mod Slots
pub mod Effect
pub mod Rows
pub mod Distinct
pub mod Order
pub mod Content
pub mod Tests
use notekeeper_open.Base.{
  ℕ, ◌+◌, ◌-◌, Bool, true, false, not, ◌&&◌, ◌||◌, Option, none, some, List, [], ◌∷◌, ◌++◌, QString,
  length, is_empty, ltb, leb, ◌==◌, if◌then◌else◌, text_eq, contains, index_of, remove_at,
  insert_at, keep,
}
use notekeeper_open.Storage.Order.{note_insertion_position}

-- StorageConstants::NotesListType.
pub data NotesListType : Type 0 where
  no_notes all_notes notes_in_notebook notes_with_tag favourite_notes trash_notes
        search_result_notes :
      NotesListType

abbrev pub type_eq : NotesListType → NotesListType → Bool
type_eq no_notes no_notes = true
type_eq all_notes all_notes = true
type_eq notes_in_notebook notes_in_notebook = true
type_eq notes_with_tag notes_with_tag = true
type_eq favourite_notes favourite_notes = true
type_eq trash_notes trash_notes = true
type_eq search_result_notes search_result_notes = true
type_eq _ _ = false

-- What the model asks of the storage manager.
pub record Storage : Type 0 where
  pub list_note_ids : NotesListType → QString → List QString
  pub notebook_exists : QString → Bool
  pub timestamp_of : QString → ℕ
  pub notebook_for_note : QString → QString
  pub tags_on_note : QString → List QString
  pub is_favourite_note : QString → Bool
  pub is_trash_note : QString → Bool

pub record Model : Type 0 where
  pub list_type : NotesListType
  pub query : QString
  pub note_ids : List QString

-- What a view is told: rows first to last are gone or new, a row has changed, the count has.
pub data ViewSignal : Type 0 where
  rows_removed : ℕ → ℕ → ViewSignal
  rows_inserted : ℕ → ℕ → ViewSignal
  data_changed : ℕ → ViewSignal
  note_count_changed : ViewSignal

abbrev pub Update : Type 0
Update = Model × List ViewSignal

abbrev pub unchanged : Model → Update
unchanged m = (m, [])

-- One slot after the other.
abbrev pub and_then : Update → (Model → Update) → Update
and_then (m, signals) f = let (m', more) = f m in (m', signals ++ more)

unfoldable pub insert_note : Storage → QString → Model → Update
insert_note st note_id m =
    let pos = note_insertion_position st.timestamp_of note_id m.note_ids in
    (
      record m { note_ids = insert_at pos note_id m.note_ids },
      rows_inserted pos pos ∷ note_count_changed ∷ [],
    )

unfoldable pub remove_note_at : ℕ → Model → Update
remove_note_at pos m = (
  record m { note_ids = remove_at pos m.note_ids },
  rows_removed pos pos ∷ note_count_changed ∷ [],
)

unfoldable pub clear : Model → Update
clear m = (
  record m { note_ids = [] },
  (if is_empty m.note_ids then [] else rows_removed 0 (length m.note_ids - 1) ∷ [])
      ++ note_count_changed ∷ [],
)

unfoldable pub clear_notes_list_query : Model → Update
unfolding clear
clear_notes_list_query m =
    let (m', signals) = clear m in (record m' { list_type = no_notes; query = [] }, signals)

-- The ids that `load` fetches; `none` where it returns before it fills the list.
unfoldable pub loaded_ids : Storage → NotesListType → QString → Option (List QString)
loaded_ids st no_notes query = none
loaded_ids st all_notes query = some (st.list_note_ids all_notes [])
loaded_ids st notes_in_notebook query =
    if is_empty query || not (st.notebook_exists query)
    then none
    else some (st.list_note_ids notes_in_notebook query)
loaded_ids st notes_with_tag query =
    if is_empty query then none else some (st.list_note_ids notes_with_tag query)
loaded_ids st favourite_notes query = some (st.list_note_ids favourite_notes [])
loaded_ids st trash_notes query = some (st.list_note_ids trash_notes [])
loaded_ids st search_result_notes query = some []

-- All but the list of all notes and the trash are put in the order of the list of all notes.
unfoldable pub ordered_ids : Storage → NotesListType → List QString → List QString
ordered_ids st trash_notes new_ids = new_ids
ordered_ids st all_notes new_ids = st.list_note_ids all_notes []
ordered_ids st _ new_ids = keep (contains new_ids) (st.list_note_ids all_notes [])

unfoldable pub fill : Storage → Option (List QString) → Model → Update
unfolding ordered_ids
fill st none m = unchanged m
fill st (some new_ids) m =
    let updated = ordered_ids st m.list_type new_ids in
    (
      record m { note_ids = updated },
      (if is_empty updated then [] else rows_inserted 0 (length updated - 1) ∷ [])
          ++ note_count_changed ∷ [],
    )

unfoldable pub load : Storage → Model → Update
unfolding fill loaded_ids
load st m =
    and_then
      (
        record m { note_ids = [] },
        if is_empty m.note_ids then [] else rows_removed 0 (length m.note_ids - 1) ∷ [],
      )
      (fill st (loaded_ids st m.list_type m.query))

unfoldable pub set_notes_list_query : Storage → NotesListType → QString → Model → Update
unfolding load
set_notes_list_query st type query m =
    if not (type_eq m.list_type type) || not (text_eq m.query query)
    then load st (record m { list_type = type; query = query })
    else unchanged m

-- Search results are appended; ids that stand in the list already are dropped.
unfoldable pub append_note_ids : List QString → Model → Update
append_note_ids new_ids m =
    let count = length m.note_ids in
    let note_ids =
      if ltb 0 count
      then keep (λ note_id. not (contains m.note_ids note_id)) new_ids
      else new_ids in
    (
      record m { note_ids = m.note_ids ++ note_ids },
      (if is_empty note_ids then [] else rows_inserted count (count + length note_ids - 1) ∷ [])
          ++ note_count_changed ∷ [],
    )
