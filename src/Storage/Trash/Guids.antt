-- ===== src/Storage/Trash/Guids.antt =====
-- What expunging a note from the trash does to the map of guids, Notes/byGuid.ini.
use notekeeper_open.Base.{◌≡◌, true, [], QString, arith}
use notekeeper_open.Storage.Ini.{Store, value, remove_key, remove_file}
use notekeeper_open.Storage.Notes.{note_id_for_guid}
use notekeeper_open.Storage.Trash.{expunge_note_from_trash, remove_note_directory}

-- Expunging a note from the trash, when it reports that it did, leaves no guid of any note in the map.
pub expunge_note_from_trash_forgets_guids :
    (s : Store) (note_id g : QString)
    → (expunge_note_from_trash s note_id).1 ≡ true
    → note_id_for_guid (expunge_note_from_trash s note_id).0 g ≡ []
unfolding expunge_note_from_trash note_id_for_guid remove_note_directory remove_key remove_file
    value
expunge_note_from_trash_forgets_guids s note_id g h = ground arith
