-- ===== src/Mms.antt =====
-- The MMS crate above the transport (crates/iec61850-mms): the names of objects, the upper layers, the services, the client and the server.
pub mod Mapping
pub mod Server
pub mod Upper
pub mod Pdu
pub mod Loop
pub mod NameList
pub mod Client
pub mod Read
pub mod Write
pub mod Identify
pub mod Initiate
pub mod Token
pub mod VariableLists
pub mod Journal
pub mod Carried
pub mod Services
