-- ===== src/Storage.antt =====
-- The storage manager (src/storage/storagemanager.cpp): ini files, the lists of ids that they hold,
-- and the operations on notes, notebooks and tags.
pub mod Order
pub mod Ini
pub mod Notebooks
pub mod Notes
pub mod Tags
pub mod Trash
pub mod Recents
pub mod Copy
pub mod Cache
pub mod Fetched
pub mod Contents
pub mod Attachments
pub mod Editing
pub mod Offline
pub mod Listing
pub mod Interface
pub mod Tests
pub mod Objects
pub mod Signals
pub mod Collection
