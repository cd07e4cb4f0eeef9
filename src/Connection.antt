-- ===== src/Connection.antt =====
-- src/connectionmanager.cpp: the choice of an access point, the manager's state machine, and what it
-- tells the rest of the program.
pub mod Configuration
pub mod Manager
pub mod Choice
pub mod Reports
pub mod Scan
pub mod Tests
