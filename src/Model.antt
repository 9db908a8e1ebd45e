-- ===== src/Model.antt =====
-- The data model (crates/iec61850-model): functional constraints, references to objects, quality and
-- time stamps.
pub mod Fc
pub mod Reference
pub mod Quality
