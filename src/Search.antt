-- ===== src/Search.antt =====
-- Searching the notes on the device: the classes SearchQuery, SearchTerm and
-- SearchLocalNotesThread of src/searchlocalnotesthread.cpp.
pub mod Unicode
pub mod Query
pub mod Words
pub mod Match
pub mod Run
pub mod Tests
