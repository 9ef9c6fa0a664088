-- ===== src/Contracts/Execution.antt =====
-- crates/epica-runtime/src/contract_engine.rs, `execute_recovery`. What the process prints and encodes stands
-- in `Shell`: the texts of errors and values, the JSON of an audit entry's details.
use epica.Contracts.Errors.{RuntimeError, contract_halt, recovery_failed}
use epica.Quad.Store.{Core, modify}
use epica.Quad.Value.{BeliefNode, BeliefValue}
use epica.Quad.Diff.{BeliefQuadDiff}
use epica.Contracts.Defs.{
  rollback_to_last_checkpoint, rollback_to_version, rollback_to_checkpoint, degrade_and_continue,
  emit_causal_diff_and_halt, ContractViolation, RecoveryPolicy,
}
use epica.Quad.Platform.{Platform, SlotMap, Petgraph}
use Prim.Native.String.{◌++◌ as str_append}
use epica.Prelude.{
  leb, if◌then◌else◌, string_eq, nat_eq, list_eq, Result, ℕ, String, Bool, ◌&&◌, Option, none, some,
  List, [], ◌∷◌, ok, err,
}
use epica.Quad.Checkpoint.{BeliefQuad, RollbackError, rollback_to, BeliefQuadCheckpoint}
use epica.Sovereignty.Checks.{ContractError}

pub record Shell ⦃p : Platform⦄ : Type 0 where
  pub debug : RollbackError → String
  pub show_contract_error : ContractError → String
  pub show_version : ℕ → String
  pub details : Bool → p.Json
  -- `{:?}` of a value.
  pub show_value : BeliefValue → String

module _ ⦃p : Platform⦄ ⦃sm : SlotMap p.BeliefId⦄ ⦃pg : Petgraph p.BeliefId⦄ ⦃sh : Shell⦄ where
  -- Rollbacks map their error to a text.
  abbrev rolled_back :
      BeliefQuad
      → p.Uuid
      → RecoveryPolicy
      → BeliefQuad × Result RuntimeError (Option BeliefQuadDiff × RecoveryPolicy)
  rolled_back quad cp policy =
      let (quad', r) = rollback_to quad cp in
      (
        quad',
        elim r [
          | ok d ↦ ok (some d, policy)
          | err e ↦ err (recovery_failed (str_append "rollback: " (sh.debug e)))
        ],
      )

  -- `max_by_key` keeps the last of equal maxima.
  unfoldable pub latest_until :
      ℕ → Option BeliefQuadCheckpoint → List BeliefQuadCheckpoint → Option BeliefQuadCheckpoint
  latest_until target best [] = best
  latest_until target none (c ∷ cs) =
      if leb c.version target then latest_until target (some c) cs else latest_until target none cs
  latest_until target (some b) (c ∷ cs) =
      if leb c.version target && leb b.version c.version
      then latest_until target (some c) cs
      else latest_until target (some b) cs

  abbrev raise_to : p.F32 → BeliefNode → BeliefNode
  raise_to floor n = record {
    id = n.id;
    key = n.key;
    value = n.value;
    provenance = n.provenance;
    created_at_ms = n.created_at_ms;
    ttl_ms = n.ttl_ms;
    fast_confidence = if p.lt n.fast_confidence floor then floor else n.fast_confidence;
    slow_confidence = n.slow_confidence;
    reflection_threshold = n.reflection_threshold;
    prospect = n.prospect;
  }

  unfoldable pub degrade : p.F32 → List (p.BeliefId × BeliefNode) → Core → Core
  degrade floor [] q = q
  degrade floor ((id, n) ∷ ns) q = degrade floor ns (modify q id (raise_to floor))

  unfoldable pub execute_recovery :
      BeliefQuad
      → ContractViolation
      → RecoveryPolicy
      → BeliefQuad × Result RuntimeError (Option BeliefQuadDiff × RecoveryPolicy)
  execute_recovery quad violation rollback_to_last_checkpoint =
      elim violation.last_valid_checkpoint [
        | none ↦ (quad, err (recovery_failed "RollbackToLastCheckpoint: no checkpoint available"))
        | some cp ↦ rolled_back quad cp rollback_to_last_checkpoint
      ]
  execute_recovery quad violation (rollback_to_checkpoint cp) =
      rolled_back quad cp (rollback_to_checkpoint cp)
  execute_recovery quad violation (rollback_to_version target) =
      elim (latest_until target none quad.checkpoints) [
        | none ↦ (
          quad,
          err (
              recovery_failed
                (str_append "no checkpoint at or before version " (sh.show_version target))),
        )
        | some cp ↦ rolled_back quad cp.id (rollback_to_version target)
      ]
  execute_recovery quad violation (degrade_and_continue floor) = (
    record {
      core = degrade floor (sm.iter quad.core.nodes) quad.core;
      checkpoints = quad.checkpoints;
    },
    ok (none, degrade_and_continue floor),
  )
  execute_recovery quad violation emit_causal_diff_and_halt = (
    quad,
    err (
        contract_halt "EmitCausalDiffAndHalt" violation.invariant_description violation.at_version),
  )
