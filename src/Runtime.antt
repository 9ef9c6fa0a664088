-- ===== src/Runtime.antt =====
-- crates/epica-runtime/src: the per-session state that stands beside the belief quad.
use epica.Prelude.{string_eq, nat_eq, list_eq}
pub mod History
pub mod Governance
pub mod Approvals
pub mod TokenBucket
pub mod Tece
pub mod Beliefs
pub mod Update
pub mod Consistent
pub mod Sessions
pub mod Outcomes
pub mod Restores
pub mod Gate
pub mod Report
pub mod Buckets
