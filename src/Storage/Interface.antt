-- ===== src/Storage/Interface.antt =====
-- The store as the storage that a notes list asks: listNoteIds, notebookExists,
-- notebookForNote, tagsOnNote, isFavouriteNote and isTrashNote of src/storage/storagemanager.cpp.
pub mod Views
use notekeeper_open.NotesList.{Storage}
use notekeeper_open.Storage.Ini.{Store}
use notekeeper_open.Storage.Notebooks.{notebook_exists, notebook_for_note}
use notekeeper_open.Storage.Tags.{tags_on_note}
use notekeeper_open.Storage.Notes.{list_note_ids, timestamp_of}
use notekeeper_open.Storage.Trash.{is_favourite_note, is_trash_note}

unfoldable pub as_storage : Store → Storage
unfolding list_note_ids notebook_exists timestamp_of notebook_for_note tags_on_note
    is_favourite_note is_trash_note
as_storage s = record {
  list_note_ids = list_note_ids s;
  notebook_exists = notebook_exists s;
  timestamp_of = timestamp_of s;
  notebook_for_note = notebook_for_note s;
  tags_on_note = tags_on_note s;
  is_favourite_note = is_favourite_note s;
  is_trash_note = is_trash_note s;
}
