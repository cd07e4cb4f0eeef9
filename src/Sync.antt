-- ===== src/Sync.antt =====
-- src/cloud/evernote/evernotesync/evernotesync.cpp: when a synchronisation starts, waits for a
-- connection, runs and ends, beside the connection manager.
pub mod State
pub mod System
mod Tests
