-- ===== src/Tests.antt =====
-- The unit tests of the source, and each theorem applied to concrete data.
mod Frames
mod Buckets
mod Batches
mod Deliveries
mod Charts
mod Captures
mod Sessions
