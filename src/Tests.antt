-- ===== src/Tests.antt =====
-- Small instances of what the development takes from outside, and runs of the theorems on them.
pub mod Instances
pub mod Stores
pub mod Ledgers
pub mod Receipts
pub mod Sessions
pub mod Quads
pub mod Contractions
pub mod Erasures
pub mod Updates
pub mod Propagations
pub mod Runtimes
pub mod Servers
pub mod Auths
