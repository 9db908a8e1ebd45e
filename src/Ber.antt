-- ===== src/Ber.antt =====
-- The BER codec (crates/iec61850-ber): identifiers, lengths, primitives, reader, writer, `Data`.
pub mod Error
pub mod Length
pub mod Base128
pub mod Tag
pub mod Primitives
pub mod Reader
pub mod Writer
pub mod Ends
pub mod Std
pub mod Data
pub mod Fields
pub mod Nested
pub mod Children
