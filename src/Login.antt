-- ===== src/Login.antt =====
-- Logging in: EvernoteOAuth (src/cloud/evernote/evernotesync/evernoteoauth.cpp) and the user that
-- the storage manager keeps (src/storage/storagemanager.cpp).
pub mod Reply
pub mod State
pub mod Users
pub mod Tests
