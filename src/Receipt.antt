-- ===== src/Receipt.antt =====
-- crates/epica-zk-evidence/src: signed receipts over a window of the audit ledger.
pub mod Wire
pub mod Prover
pub mod Verifier
pub mod Window
pub mod RoundTrip
pub mod Binding
pub mod Pin
