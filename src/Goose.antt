-- ===== src/Goose.antt =====
-- crates/iec61850-goose: the PDU, the frame around it, the publisher and the subscriber.
pub mod Pdu
pub mod Frame
pub mod Publisher
pub mod Subscriber
pub mod Delivery
