-- ===== src/Control.antt =====
-- src/control.rs: the control plane's store and its HTTP handlers.
pub mod Tables
pub mod Ingest
pub mod Queries
pub mod Http
pub mod Effects
pub mod Delivery
pub mod Redelivery
pub mod Soundness
pub mod Holding
pub mod Contents
pub mod Series
pub mod Totals
pub mod Nodes
pub mod Progress
pub mod Status
pub mod Total
pub mod Serve
pub mod Requests
pub mod Opening
