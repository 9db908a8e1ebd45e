-- ===== src/Transport.antt =====
-- crates/iec61850-mms/src/transport: TPKT packets, COTP data units, and the TSDUs that they carry.
pub mod Error
pub mod Tpkt
pub mod Cotp
pub mod Connection
