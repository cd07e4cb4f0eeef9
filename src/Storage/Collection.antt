-- ===== src/Storage/Collection.antt =====
-- Lists of ids in ini files: idsList, listNoteIds, addObjectIdToCollectionData and
-- removeObjectIdFromCollectionData of src/storage/storagemanager.cpp.
pub mod Laws
pub mod Members
use notekeeper_open.Base.{
  Bool, true, false, List, [], ◌∷◌, ◌++◌, QString, is_empty, contains, if◌then◌else◌,
}
use notekeeper_open.Base.Split.{split, join, ids_of}
use notekeeper_open.Base.Members.{remove_one}
use notekeeper_open.Storage.Ini.{IniFile, Key, Store, text, to_string, value, set_value}

unfoldable pub ids_list : Store → IniFile → Key → List QString
ids_list s f k = ids_of (to_string (value s f k))

unfoldable pub add_object_id : Store → IniFile → Key → QString → Store × Bool
add_object_id s f k object_id =
    if is_empty object_id
    then (s, true)
    else let object_ids = ids_of (to_string (value s f k)) in
      if contains object_ids object_id
      then (s, false)
      else (set_value s f k (text (join b',' (object_id ∷ object_ids))), true)

-- Here an empty text is split too.
unfoldable pub remove_object_id : Store → IniFile → Key → QString → Store × Bool
remove_object_id s f k object_id =
    if is_empty object_id
    then (s, true)
    else let object_ids = split b',' (to_string (value s f k)) in
      if contains object_ids object_id
      then (set_value s f k (text (join b',' (remove_one object_ids object_id))), true)
      else (s, false)
