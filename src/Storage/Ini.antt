-- ===== src/Storage/Ini.antt =====
-- The ini files of the notes' data, as StorageManager::IniFile gives access to them. A file is named
-- by a constructor in place of its path, a key by a constructor in place of its text. QSettings is
-- taken as a map from keys to values: the cache of open files, locks and syncing are left out.
use notekeeper_open.Base.{
  ℕ, ◌≡◌, refl, Bool, true, false, List, [], ◌∷◌, QString, ite, text_dec, is_empty, text_eq, lit,
  ◌||◌, ◌&&◌, ◌==◌, ◌++◌, if◌then◌else◌,
}
use notekeeper_open.Storage.Order.{qint64_zero}
use native.Mathlib.Decide.{ℕ_discrete}

pub data IniFile : Type 0 where
  -- Notes/list.ini, Notes/byGuid.ini, Notes/<id>/gist.ini and Notes/<id>/content.ini
  notes_list notes_by_guid : IniFile
  note_gist note_content : QString → IniFile
  -- Notebooks/list.ini, Notebooks/names.ini, Notebooks/byGuid.ini and Notebooks/<id>/list.ini
  notebooks_list notebooks_names notebooks_by_guid : IniFile
  notebook_ini : QString → IniFile
  -- Tags/list.ini, Tags/names.ini, Tags/byGuid.ini and Tags/<id>/list.ini
  tags_list tags_names tags_by_guid : IniFile
  tag_ini : QString → IniFile
  -- SpecialNotebooks/Favourites/list.ini, SpecialNotebooks/Trash/list.ini and list.ini
  favourites_list trash_list root_list : IniFile
  -- sync.ini of the Evernote data, and recents.ini
  sync_ini recents_ini : IniFile
  -- Notes/<id>/attachments.ini, temp.ini, and auth.ini and auth.dat of the Evernote data
  note_attachments : QString → IniFile
  temp_ini auth_ini auth_dat : IniFile

-- The fields of one entry of the array of attachments.
pub data AttachmentKey : Type 0 where
  attachment_guid attachment_hash mime_type dimensions duration size file_name : AttachmentKey

pub data Key : Type 0 where
  note_ids notebook_ids tag_ids : Key
  max_note_id max_notebook_id max_tag_id : Key
  title notebook_id favourite trashed created_here guid name : Key
  created_time updated_time : Key
  attributes_source attributes_source_application attributes_source_url : Key
  attributes_subject_date attributes_latitude attributes_longitude attributes_author : Key
  attributes_share_date attributes_content_class : Key
  sync_usn sync_content_hash base_content_usn base_content_hash : Key
  -- The key spelled "BaseContentUsn", which one function reads.
  base_content_usn_misspelled : Key
  content content_hash content_valid : Key
  default_notebook_id offline_notebook_ids : Key
  notes_to_push notebooks_to_push tags_to_push : Key
  unresolved_notes unresolved_notebooks : Key
  deferred_conflicts recent_searches : Key
  username auth_token note_store_url web_api_url_prefix : Key
  password authentication_method : Key
  unremoved_temp_files unpushed_removals : Key
  -- The size of the array of attachments, and the fields of its entries.
  attachments_size : Key
  attachment : ℕ → AttachmentKey → Key
  -- A name or a guid, in the files that map those to ids.
  entry : QString → Key

unfoldable pub file_dec : Discrete IniFile
file_dec = hlevel text_dec

unfoldable pub key_dec : Discrete Key
key_dec = hlevel (text_dec, ℕ_discrete)

pub data QVariant : Type 0 where
  invalid : QVariant
  text : QString → QVariant
  flag : Bool → QVariant
  number : ℕ → QVariant
  texts : List QString → QVariant

-- A value is read as the type that it was written as; one that is missing is empty, false or 0.
abbrev pub to_string : QVariant → QString
to_string (text t) = t
to_string _ = []

abbrev pub to_bool : QVariant → Bool
to_bool (flag b) = b
to_bool _ = false

abbrev pub to_int : QVariant → ℕ
to_int (number n) = n
to_int _ = 0

-- A time, as a qint64 is held.
abbrev pub to_long_long : QVariant → ℕ
to_long_long (number n) = n
to_long_long _ = qint64_zero

abbrev pub to_string_list : QVariant → List QString
to_string_list (texts ts) = ts
to_string_list _ = []

abbrev pub Store : Type 0
Store = IniFile → Key → QVariant

unfoldable pub value : Store → IniFile → Key → QVariant
value s f k = s f k

-- One value at the key `k` of the file `f`, another everywhere else.
abbrev pub at_key {ℓ} : {A : Type ℓ} → IniFile → Key → IniFile → Key → A → A → A
at_key f k f' k' here there = ite (file_dec f f') (ite (key_dec k k') here there) there

unfoldable pub set_value : Store → IniFile → Key → QVariant → Store
unfolding file_dec key_dec
set_value s f k v f' k' = at_key f k f' k' v (s f' k')

abbrev pub is_prefix : QString → QString → Bool
is_prefix [] t = true
is_prefix (c ∷ a) [] = false
is_prefix (c ∷ a) (d ∷ t) = (c == d) && is_prefix a t

-- What QSettings::remove removes: the key and its sub-settings, and with an empty key everything.
abbrev pub is_removed : Key → Key → Bool
is_removed (entry a) (entry b) = is_empty a || text_eq a b || is_prefix (a ++ lit "/") b
is_removed (entry a) k = is_empty a
is_removed k k' = ite (key_dec k k') true false

unfoldable pub remove_key : Store → IniFile → Key → Store
unfolding file_dec
remove_key s f k f' k' =
    ite (file_dec f f') (if is_removed k k' then invalid else s f' k') (s f' k')

-- setValues: one key after the other.
unfoldable pub set_values : Store → IniFile → List (Key × QVariant) → Store
unfolding set_value
set_values s f [] = s
set_values s f ((k, v) ∷ pairs) = set_values (set_value s f k v) f pairs

-- Removing a directory removes all that its files hold.
unfoldable pub remove_file : Store → IniFile → Store
unfolding file_dec
remove_file s f f' k' = ite (file_dec f f') invalid (s f' k')

pub value-set_value :
    (s : Store) (f f' : IniFile) (k k' : Key) (v : QVariant)
    → value (set_value s f k v) f' k' ≡ at_key f k f' k' v (value s f' k')
unfolding value set_value
value-set_value s f f' k k' v = refl

pub value-remove_file :
    (s : Store) (f f' : IniFile) (k' : Key)
    → value (remove_file s f) f' k' ≡ ite (file_dec f f') invalid (value s f' k')
unfolding value remove_file
value-remove_file s f f' k' = refl
