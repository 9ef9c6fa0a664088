-- ===== src/Quad.antt =====
-- crates/epica-core/src: the belief quad, its revision, its checkpoints.
use epica.Prelude.{string_eq, nat_eq, list_eq}
pub mod HashMap
pub mod Platform
pub mod Projection
pub mod Value
pub mod Store
pub mod Synchronized
pub mod Revision
pub mod Contraction
pub mod Postulates
pub mod Decay
pub mod Queries
pub mod Counterfactual
pub mod System1
pub mod Propagation
pub mod Downstream
pub mod Visits
pub mod Spreading
pub mod Diff
pub mod Checkpoint
pub mod Difference
pub mod Reassertion
