-- ===== src/Storage/Order.antt =====
-- The order of the notes lists, latest first: noteInsertionPositionInNotesList of
-- src/storage/storagemanager.cpp. A qint64 time `x` is held as the number `x + 2^63`.
pub mod Sorted
use notekeeper_open.Base.{
  ℕ, suc, ◌^◌, List, [], ◌∷◌, QString, length, ltb, ◌==◌, if◌then◌else◌, insert_at,
}

abbrev pub qint64_zero : ℕ
qint64_zero = 2 ^ 63

-- The time by which a note is listed: its `UpdatedTime`, or its `CreatedTime` if that is 0.
unfoldable pub note_timestamp : ℕ → ℕ → ℕ
note_timestamp updated_time created_time =
    if updated_time == qint64_zero then created_time else updated_time

-- The loop over the list; `required` is `requiredInsertionPos` before the loop.
unfoldable pub position_loop : (QString → ℕ) → ℕ → ℕ → ℕ → List QString → ℕ
position_loop timestamp_of timestamp required i [] = required
position_loop timestamp_of timestamp required i (note_id ∷ note_ids) =
    let later = position_loop timestamp_of timestamp required (suc i) note_ids in
    if ltb (timestamp_of note_id) timestamp then i else later

unfoldable pub note_insertion_position : (QString → ℕ) → QString → List QString → ℕ
unfolding position_loop
note_insertion_position timestamp_of note_id note_ids =
    position_loop timestamp_of (timestamp_of note_id) (length note_ids) 0 note_ids

-- `list.insert(position, noteId)` at that position.
unfoldable pub insert_in_order : (QString → ℕ) → QString → List QString → List QString
unfolding note_insertion_position
insert_in_order timestamp_of note_id note_ids =
    insert_at (note_insertion_position timestamp_of note_id note_ids) note_id note_ids
