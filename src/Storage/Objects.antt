-- ===== src/Storage/Objects.antt =====
-- New objects and their ids: createStorageObject and pathFragmentFromObjectId of
-- src/storage/storagemanager.cpp.
use notekeeper_open.Base.{
  ℕ, zero, suc, ◌+◌, ◌-◌, ◌/◌, ◌%◌, ◌^◌, List, [], ◌∷◌, ◌++◌, QString, is_empty, length, ltb, drop,
  take, if◌then◌else◌,
}
use notekeeper_open.Storage.Ini.{
  IniFile, Key, QVariant, Store, text, number, to_string, to_int, value, set_value, set_values,
}

-- The lower `count` hexadecimal digits of a number, highest first.
abbrev pub hex_digit : ℕ → ℕ
hex_digit d = if ltb d 10 then b'0' + d else b'a' + (d - 10)

unfoldable pub hex_digits : ℕ → ℕ → QString
hex_digits zero n = []
hex_digits (suc count) n = hex_digits count (n / 16) ++ hex_digit (n % 16) ∷ []

-- What QString::sprintf makes of "%06x" and an int: at least six digits, at most eight.
unfoldable pub print_06x : ℕ → QString
unfolding hex_digits
print_06x n =
    if ltb n (16 ^ 6)
    then hex_digits 6 n
    else if ltb n (16 ^ 7)
    then hex_digits 7 n
    else hex_digits 8 n

-- The int after the counter's value; an int is held as its 32 bits.
unfoldable pub next_id_number : Store → IniFile → Key → ℕ
next_id_number s meta_file meta_counter_key =
    (to_int (value s meta_file meta_counter_key) + 1) % 2 ^ 32

-- The id in front of the list, as text.
abbrev pub prepend_id : QString → QString → QString
prepend_id object_id object_ids_str =
    if is_empty object_ids_str then object_id else object_id ++ b',' ∷ object_ids_str

-- The data of the new object: files by its id, with their values.
abbrev pub ObjectData : Type 0
ObjectData = List ((QString → IniFile) × List (Key × QVariant))

unfoldable pub write_data : Store → QString → ObjectData → Store
unfolding set_values
write_data s object_id [] = s
write_data s object_id ((file, pairs) ∷ data_files) =
    write_data (set_values s (file object_id) pairs) object_id data_files

unfoldable pub create_storage_object :
    Store → QString → IniFile → Key → Key → ObjectData → Store × QString
unfolding next_id_number print_06x write_data set_value
create_storage_object s object_prefix meta_file meta_counter_key meta_list_key data_files =
    let id_number = next_id_number s meta_file meta_counter_key in
    let object_id = object_prefix ++ print_06x id_number in
    let s₁ = set_value s meta_file meta_counter_key (number id_number) in
    let s₂ = write_data s₁ object_id data_files in
    let object_ids_str = to_string (value s₂ meta_file meta_list_key) in
    (set_value s₂ meta_file meta_list_key (text (prepend_id object_id object_ids_str)), object_id)

-- QString::mid(position, 1) and right(1), of the id's length `n`.
abbrev pub path_fragment : QString → QString
path_fragment object_id =
    let n = length object_id in
    take 1 (drop (n - 4) object_id) ++ drop (n - 1) object_id ++ b'/' ∷ object_id
