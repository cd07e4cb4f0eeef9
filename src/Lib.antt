-- ===== src/Lib.antt =====
-- Notekeeper Open: a note-taking client for Evernote, written with Qt. This library models the
-- parts that hold its own logic: the storage manager, which keeps notes, notebooks and tags in ini
-- files; the model of the list of notes that a user looks at; the search over the notes on the
-- device; the manager of the network connection; the state of a synchronisation with the server;
-- and the login. A user action calls an operation of the storage manager, the operation changes the
-- ini files and emits signals, and the slots of an open notes list bring that list up to date.
--
-- The files, and the code that each models (paths from the repository's root):
--   Base            Qt's texts and lists: QString as the list of its code units, split, join,
--                   contains, indexOf, removeOne; tests on numbers.
--   Search          src/searchlocalnotesthread.cpp. Search.Query: SearchQuery::parseQuery, a scan over
--                   the characters. Search.Words: words. Search.Match: isWordMatch, isSequenceMatch,
--                   SearchTerm::isTextMatching. Search.Run: SearchLocalNotesThread::run.
--   NotesList       src/storage/noteslistmodel.cpp. NotesList: the state, loading, clearing and
--                   appending; NotesList.Slots: the slots, and runs of notices and calls.
--   Storage         src/storage/storagemanager.cpp. Storage.Ini: IniFile, a store as a function from
--                   files and keys to values. Storage.Collection: the lists of ids in those files.
--                   Storage.Order: the order of the notes lists. Storage.Objects: new ids.
--                   Storage.Notebooks, Storage.Tags, Storage.Notes, Storage.Trash, Storage.Recents: the
--                   operations, with the names of the source in snake case. Storage.Signals: what they
--                   emit. Storage.Interface: the store as the storage that a notes list asks.
--                   Storage.Fetched, Storage.Contents: noteData, what comes from the server, and the
--                   contents kept offline. Storage.Attachments: the array in attachments.ini,
--                   temp.ini, and the authentication data. Storage.Editing: edits in place.
--                   Storage.Offline: settling what is kept offline. Storage.Listing: lists in the
--                   order of names. Storage.Cache, Storage.Copy:
--                   src/storage/diskcache/shareddiskcache.cpp.
--   Connection      src/connectionmanager.cpp. Connection.Configuration: the choice of an access point.
--                   Connection.Manager, Connection.Scan: the slots and requests, and runs of them.
--   Sync            src/cloud/evernote/evernotesync/evernotesync.cpp. Sync.State: the slots of
--                   EvernoteSync. Sync.System: startSync, EvernoteSync beside the connection manager
--                   whose signals it listens to, and runs of both.
--   Login           Login.Reply, Login.State: src/cloud/evernote/evernotesync/evernoteoauth.cpp and
--                   src/loginstatustracker.cpp. Login.Users: the directories of the users in
--                   src/storage/storagemanager.cpp, and the end of a login.
--   Connection.Tests, Login.Tests, Sync.Tests, Search.Tests, NotesList.Tests, Storage.Tests: runs at
--                   concrete inputs.
--
-- An operation takes the store and returns the store after it, its result and the signals it emits.
-- A slot takes the list and returns it with the changes of rows that a view is told of. The loops
-- are structural recursion over the list that they walk, with the index beside it where the code
-- uses one; only the loop that copies by chunks takes fuel, of which one more than the length of
-- the data is proved to be enough. A qint64 time is held as a number 2 ^ 63 higher, an int as its
-- 32 bits, whose product wraps. What a device answers in a copy may change from round to round.
-- `m_cancelled` of the search, which another thread sets, is a function from the round of the loop
-- to what that round reads.
--
-- Taken from outside as parameters: the Unicode data of QChar, QString's simplified, trimmed and
-- toUpper, comparison ignoring the case, the md5 sum, the words of a note's markup,
-- EvernoteMarkup::resolveConflict, the clock, what Qt reports of the network while an event is
-- handled, percent decoding, the hash of a user's name, whether SSL errors were found, and whether
-- QNetworkDiskCache takes, keeps and opens an entry. The formats of QString::sprintf and the
-- containers of Qt are modelled as far as the code uses them. Q_ASSERT has no effect, as in a
-- release build. QSettings::remove is taken with its documented meaning: a key with its sub-keys,
-- or all keys when the key is empty.
--
-- Keys of ini files are compared with case, as QSettings does on Unix platforms.
--
-- Not modelled: the cache of open ini files and their locks, reading and writing files, images, the
-- attachments that the server sends, the calls of Evernote and its Thrift client, the signing of
-- requests, encryption, the QML bindings and the user interface, which are input and output or
-- glue; and the vendored libraries.

pub mod Base
pub mod Connection
pub mod Login
pub mod NotesList
pub mod Search
pub mod Storage
pub mod Sync
