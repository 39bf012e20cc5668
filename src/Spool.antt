-- ===== src/Spool.antt =====
-- src/spool.rs: the agent's bounded spool. `Tables` has the tables and statements, `Evict` the loop
-- that enforces the limits, `Methods` the methods of `Spool`; the other children prove them.
pub mod Tables
pub mod Evict
pub mod Eviction
pub mod Bounds
pub mod Enqueue
pub mod Guarantees
pub mod History
pub mod Ledger
pub mod Retention
pub mod Rows
pub mod Sweeps
pub mod Progress
pub mod Room
pub mod Names
pub mod Total
pub mod Methods
pub mod Opening
