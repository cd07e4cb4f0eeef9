-- ===== src/Storage/Signals.antt =====
-- What the operations of StorageManager emit, and what they take from Qt.
use notekeeper_open.Base.{Bool, Option, List, QString}
use notekeeper_open.NotesList.Slots.{Notice}
use notekeeper_open.Storage.Ini.{Store}

-- The signals of the storage manager: those that a notes list listens to, and two more.
pub data Event : Type 0 where
  notice : Notice → Event
  notebooks_list_changed tags_list_changed : Event

-- The store after an operation, what the operation returns, and what it emits, in order.
abbrev pub Done : Type 0 → Type 0
Done A = Store × A × List Event

-- QString's simplified, trimmed and toUpper, the md5 sum as bytes and in hexadecimal digits, what
-- SharedDiskCache::containsNoteContent answers, and the value of `Attributes/Source`, which depends
-- on the build.
pub record Qt : Type 0 where
  pub simplified : QString → QString
  pub trimmed : QString → QString
  pub to_upper : QString → QString
  pub equals_ignoring_case : QString → QString → Bool
  pub md5 : QString → QString
  pub md5_hex : QString → QString
  pub is_cached : QString → QString → Bool
  pub source : Option QString
