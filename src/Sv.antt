-- ===== src/Sv.antt =====
-- Sampled values (crates/iec61850-sv): the PDU and its ASDUs, the 9-2LE data set, the frame, the publisher and
-- the subscriber.
pub mod NineTwoLe
pub mod Pdu
pub mod Frame
pub mod Publisher
pub mod Subscriber
pub mod Delivery
pub mod Clock
