-- ===== src/Sovereignty.antt =====
-- crates/epica-contracts/src/sovereignty: the memory governance primitives.
pub mod Policy
pub mod Checks
pub mod Emit
pub mod Forget
