-- ===== src/Ledger.antt =====
-- crates/epica-contracts/src/sovereignty/ledger.rs: the tamper-evident audit ledger.
pub mod Defs
pub mod Merkle
pub mod Collision
pub mod Chain
pub mod Tamper
pub mod Reduce
pub mod Inclusion
pub mod Binding
pub mod Sound
pub mod Size
