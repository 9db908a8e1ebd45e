-- ===== src/Mms/Upper.antt =====
-- crates/iec61850-mms/src/upper: session, presentation and association control.
pub mod Session
pub mod Acse
pub mod Presentation
