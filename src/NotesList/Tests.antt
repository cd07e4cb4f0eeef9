-- ===== src/NotesList/Tests.antt =====
-- A notes list at concrete inputs.
use notekeeper_open.Base.{
  ℕ, ◌≡◌, ◌≢◌, refl, true, false, List, [], ◌∷◌, QString, lit, text_eq, text_dec, contains,
  index_of, IsDistinct, ite, if◌then◌else◌, arith,
}
use notekeeper_open.Storage.Order.{note_insertion_position}
use notekeeper_open.Storage.Order.Sorted.{IsSorted}
use notekeeper_open.NotesList.{
  NotesListType, no_notes, search_result_notes, all_notes, notes_in_notebook, notes_with_tag,
  favourite_notes, trash_notes, Storage, Model, append_note_ids, set_notes_list_query,
}
use notekeeper_open.NotesList.Slots.{
  trashedness_changed, display_data_changed, created, note_display_data_changed, notify, Command,
  notice, set_query, append, play,
}
use notekeeper_open.NotesList.Rows.{InStep, play-InStep}
use notekeeper_open.NotesList.Distinct.{play-IsDistinct}
use notekeeper_open.NotesList.Order.{notify-IsSorted, display_data_changed-IsSorted}
use notekeeper_open.NotesList.Content.{Settled, trashed-Settled, trashed_and_restored-Settled}

abbrev stored_ids : NotesListType → List QString
stored_ids trash_notes = []
stored_ids _ = lit "n2" ∷ lit "n1" ∷ []

-- A storage of two notes, whose times are given.
abbrev phone : (QString → ℕ) → Storage
phone timestamp_of = record {
  list_note_ids = λ type query. stored_ids type;
  notebook_exists = λ b. true;
  timestamp_of = timestamp_of;
  notebook_for_note = λ note_id. lit "nb1";
  tags_on_note = λ note_id. [];
  is_favourite_note = λ note_id. false;
  is_trash_note = λ note_id. false;
}

-- The second character of an id is its time, and n1 is later in the second one.
abbrev time_in_id : QString → ℕ
time_in_id (a ∷ b ∷ id) = b
time_in_id id = 0

abbrev n1_later : QString → ℕ
unfolding text_dec
n1_later id = if text_eq (lit "n1") id then 100 else time_in_id id

abbrev shown : NotesListType → QString → Model
shown type query = record { list_type = type; query = query; note_ids = lit "n2" ∷ lit "n1" ∷ [] }

abbrev commands : List (Storage × Command)
commands =
    (phone time_in_id, set_query all_notes [])
    ∷ (phone n1_later, notice (display_data_changed (lit "n1") true))
    ∷ (phone n1_later, append (lit "n3" ∷ lit "n1" ∷ []))
    ∷ []

played : (play commands (shown all_notes [])).0.note_ids ≡ lit "n1" ∷ lit "n2" ∷ lit "n3" ∷ []
unfolding play append_note_ids notify note_display_data_changed index_of set_notes_list_query
    note_insertion_position contains
played = refl

stored_ids-IsDistinct : (type : NotesListType) → IsDistinct (stored_ids type)
unfolding contains text_dec
stored_ids-IsDistinct no_notes = (refl, (refl, tt))
stored_ids-IsDistinct all_notes = (refl, (refl, tt))
stored_ids-IsDistinct notes_in_notebook = (refl, (refl, tt))
stored_ids-IsDistinct notes_with_tag = (refl, (refl, tt))
stored_ids-IsDistinct favourite_notes = (refl, (refl, tt))
stored_ids-IsDistinct trash_notes = tt
stored_ids-IsDistinct search_result_notes = (refl, (refl, tt))

shown-IsDistinct : IsDistinct (lit "n2" ∷ lit "n1" ∷ [])
unfolding contains text_dec
shown-IsDistinct = (refl, (refl, tt))

play-InStep_example : InStep (shown all_notes []) (play commands (shown all_notes []))
play-InStep_example = play-InStep commands (shown all_notes [])

play-IsDistinct_example : IsDistinct (play commands (shown all_notes [])).0.note_ids
unfolding contains text_dec
play-IsDistinct_example =
    play-IsDistinct commands (shown all_notes [])
      (λ type query. stored_ids-IsDistinct type, (tt, ((refl, (refl, tt)), tt))) shown-IsDistinct

notify-IsSorted_example :
    IsSorted time_in_id
      (notify (phone time_in_id) (created (lit "n3")) (shown all_notes [])).0.note_ids
notify-IsSorted_example =
    notify-IsSorted (phone time_in_id) (created (lit "n3")) (shown all_notes []) (omega arith, tt)

other_times : (a : QString) → lit "n1" ≢ a → n1_later a ≡ time_in_id a
unfolding text_dec
other_times a h =
    elim (text_dec (lit "n1") a)
      as (λ d. (if ite d true false then 100 else time_in_id a) ≡ time_in_id a) [
        | yes p ↦ absurd (h p)
        | no p ↦ refl
      ]

display_data_changed-IsSorted_example :
    IsSorted n1_later
      (notify
        (phone n1_later)
        (display_data_changed (lit "n1") true)
        (shown all_notes [])).0.note_ids
display_data_changed-IsSorted_example =
    display_data_changed-IsSorted (phone time_in_id) (phone n1_later) (lit "n1")
      (shown all_notes []) refl other_times shown-IsDistinct (omega arith, tt)

trashed-Settled_example :
    Settled
      (lit "n2")
      false
      (shown all_notes [])
      (notify (phone time_in_id) (trashedness_changed (lit "n2") true) (shown all_notes [])).0
trashed-Settled_example =
    trashed-Settled (phone time_in_id) (lit "n2") (shown all_notes []) refl shown-IsDistinct

trashed_and_restored-Settled_example :
    Settled
      (lit "n2")
      false
      (shown all_notes [])
      (notify
        (phone time_in_id)
        (trashedness_changed (lit "n2") false)
        (notify (phone time_in_id) (trashedness_changed (lit "n2") true) (shown all_notes [])).0).0
trashed_and_restored-Settled_example =
    trashed_and_restored-Settled (phone time_in_id) (phone time_in_id) (lit "n2")
      (shown all_notes []) refl refl shown-IsDistinct
