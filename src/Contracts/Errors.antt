-- ===== src/Contracts/Errors.antt =====
-- crates/epica-core/src/error.rs and crates/epica-runtime/src/error.rs: the errors of the runtime.
use epica.Prelude.{string_eq, nat_eq, list_eq, ℕ, String}
use epica.Quad.Platform.{Platform}
use epica.Quad.Revision.{BeliefRevisionError}
use epica.Quad.Checkpoint.{RollbackError}
use epica.Runtime.Governance.{GovernanceLimitExceeded}

pub data EpicaError ⦃p : Platform⦄ : Type 0 where
  revision : BeliefRevisionError → EpicaError
  rollback : RollbackError → EpicaError
  not_found : EpicaError
  invariant_violation : String → EpicaError

-- system2/llm_client.rs
pub data LlmClientError : Type 0 where
  network client_error deserialize : String → LlmClientError
  rate_limited : LlmClientError

pub data RuntimeError ⦃p : Platform⦄ : Type 0 where
  core : EpicaError → RuntimeError
  llm_client : LlmClientError → RuntimeError
  contract_violation : String → RuntimeError
  precondition_failed : String → String → RuntimeError
  contract_halt : String → String → ℕ → RuntimeError
  sovereignty_violation : String → RuntimeError
  governance_limit_exceeded : GovernanceLimitExceeded → RuntimeError
  recovery_failed : String → RuntimeError
