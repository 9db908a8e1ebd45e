-- ===== src/Mms/Server.antt =====
-- crates/iec61850-mms/src/server.rs: what the server decides and keeps, each concern in a module of its own.
pub mod Permissions
pub mod Access
pub mod Buffer
pub mod Reservation
pub mod Store
pub mod Control
pub mod Settings
pub mod Namespace
pub mod Answers
pub mod Handshake
