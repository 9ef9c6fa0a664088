-- ===== src/Contracts.antt =====
-- crates/epica-contracts/src and crates/epica-runtime/src/contract_engine.rs: behavioral contracts and
-- their enforcement around every update.
pub mod Defs
pub mod Drift
pub mod Errors
pub mod Execution
pub mod Precheck
pub mod Engine
pub mod Keeps
pub mod Recovery
pub mod Guarantees
