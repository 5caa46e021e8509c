-- ===== src/State.antt =====
-- crates/rustsmb-state: the data that the state stores and the coordinator share.
pub mod Types
pub mod Lock
pub mod Lease
pub mod Store
pub mod Samples
mod Examples
