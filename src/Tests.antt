-- ===== src/Tests.antt =====
-- Runs of the models on the vectors of the source's own tests, and each theorem applied at a
-- concrete input.
mod Codec
mod Carriage
mod Multicast
mod Sampled
mod Device
mod Naming
mod Groups
mod Association
mod Services
