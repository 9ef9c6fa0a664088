-- ===== src/Contracts/Engine.antt =====
-- crates/epica-runtime/src/contract_engine.rs, `post_update`: the enforcement of the contracts after an update
-- and its audit entry. The clock and the fresh ids are arguments. Log lines are not modelled.
use epica.Contracts.Errors.{RuntimeError, contract_halt}
use epica.Ledger.Defs.{EntryEncoder, Blake3, belief_update}
use epica.Quad.Diff.{BeliefQuadDiff}
use epica.Contracts.Defs.{
  ContractViolation, RecoveryPolicy, BehavioralContract, collect_all_violations,
}
use epica.Quad.Platform.{Platform, SlotMap, Petgraph}
use epica.Prelude.{
  string_eq, nat_eq, list_eq, Result, ℕ, suc, ◌+◌, String, Bool, true, false, Option, none, some,
  List, [], ◌∷◌, ◌++◌, ok, err,
}
use epica.Quad.Checkpoint.{BeliefQuad}
use epica.Sovereignty.Checks.{
  ViolationClass, soft, hard, critical, verified, MnemonicSovereignty, RecoveryVerificationResult,
  verify_recovery,
}
use epica.Sovereignty.Emit.{AuditPolicy, World, Outside, emit}
use epica.Contracts.Execution.{Shell, execute_recovery}

pub record ViolationLog ⦃p : Platform⦄ : Type 0 where
  pub soft : List ContractViolation
  pub hard : List ContractViolation
  pub critical : List ContractViolation
  pub recovery_actions_taken : ℕ

pub record RecoveryOutcome ⦃p : Platform⦄ : Type 0 where
  pub violation : ContractViolation
  pub diff : Option BeliefQuadDiff
  pub recovery_applied : RecoveryPolicy
  pub verification : RecoveryVerificationResult

module _ ⦃p : Platform⦄ ⦃sm : SlotMap p.BeliefId⦄ ⦃pg : Petgraph p.BeliefId⦄ ⦃sh : Shell⦄ where
  abbrev is_recovered : Option RecoveryOutcome → Bool
  is_recovered none = false
  is_recovered (some _) = true

  pub record Turn : Type 0 where
    pub quad : BeliefQuad
    pub log : ViolationLog
    pub outcome : Option RecoveryOutcome

  abbrev log_soft : ContractViolation → Turn → Turn
  log_soft v t = record {
    quad = t.quad;
    log = record {
      soft = t.log.soft ++ v ∷ [];
      hard = t.log.hard;
      critical = t.log.critical;
      recovery_actions_taken = t.log.recovery_actions_taken;
    };
    outcome = t.outcome;
  }

  abbrev log_hard : ContractViolation → Turn → Turn
  log_hard v t = record {
    quad = t.quad;
    log = record {
      soft = t.log.soft;
      hard = t.log.hard ++ v ∷ [];
      critical = t.log.critical;
      recovery_actions_taken = t.log.recovery_actions_taken;
    };
    outcome = t.outcome;
  }

  abbrev log_critical : ContractViolation → Turn → Turn
  log_critical v t = record {
    quad = t.quad;
    log = record {
      soft = t.log.soft;
      hard = t.log.hard;
      critical = t.log.critical ++ v ∷ [];
      recovery_actions_taken = t.log.recovery_actions_taken;
    };
    outcome = t.outcome;
  }

  abbrev pub Step : Type 0
  Step = Turn × Result RuntimeError (Unit {0})

  -- The first hard violation: recovery, its verification, the log.
  unfoldable pub recover :
      (BeliefQuad → RecoveryVerificationResult)
      → BehavioralContract BeliefQuad
      → ContractViolation
      → Turn
      → Step
  recover verification contract v t =
      let (quad', r) = execute_recovery t.quad v contract.recovery in
      elim r [
        | err e ↦ (record { quad = quad'; log = t.log; outcome = t.outcome }, err e)
        | ok (d, applied) ↦ (
          record {
            quad = quad';
            log = record {
              soft = t.log.soft;
              hard = t.log.hard ++ v ∷ [];
              critical = t.log.critical;
              recovery_actions_taken = t.log.recovery_actions_taken + 1;
            };
            outcome = some (record {
              violation = v;
              diff = d;
              recovery_applied = applied;
              verification = verification quad';
            });
          },
          ok tt,
        )
      ]

  -- `outcome` is `Some` from the first recovery on, so `saw_hard`, which is set with it, adds nothing
  -- to the test `!saw_hard && outcome.is_none()`.
  unfoldable pub respond :
      (BeliefQuad → RecoveryVerificationResult)
      → BehavioralContract BeliefQuad
      → ContractViolation
      → Turn
      → ViolationClass
      → Step
  respond verification contract v t soft = (log_soft v t, ok tt)
  respond verification contract v t hard = elim t.outcome [
    | none ↦ recover verification contract v t
    | some _ ↦ (log_hard v t, ok tt)
  ]
  respond verification contract v t critical =
      (log_critical v t, err (contract_halt contract.domain v.invariant_description v.at_version))

  unfoldable pub handle :
      (BeliefQuad → RecoveryVerificationResult)
      → BehavioralContract BeliefQuad
      → ContractViolation
      → Turn
      → Step
  handle verification contract v t = respond verification contract v t v.class

  -- `?`, and the early return: what follows counts only after a success.
  abbrev pub and_then : Step → Step → Step
  and_then (t, err e) rest = (t, err e)
  and_then (t, ok _) rest = rest

  unfoldable pub handle_all :
      (BeliefQuad → RecoveryVerificationResult)
      → BehavioralContract BeliefQuad
      → List ContractViolation
      → Turn
      → Step
  handle_all verification contract [] t = (t, ok tt)
  handle_all verification contract (v ∷ vs) t =
      let here = handle verification contract v t in
      and_then here (handle_all verification contract vs here.0)

  unfoldable pub enforce :
      (BeliefQuad → RecoveryVerificationResult)
      → Option p.Uuid
      → (ℕ → ℕ → p.Uuid)
      → List (BehavioralContract BeliefQuad)
      → Turn
      → Step
  enforce verification last draw [] t = (t, ok tt)
  enforce verification last draw (c ∷ cs) t =
      let here = handle_all verification c (collect_all_violations c t.quad last (draw 0)) t in
      and_then here (enforce verification last (λ n. draw (suc n)) cs here.0)

module _ ⦃p : Platform⦄ ⦃sm : SlotMap p.BeliefId⦄ ⦃pg : Petgraph p.BeliefId⦄ ⦃sh : Shell⦄
    {Forget : Type 0} where
  abbrev pub verifier :
      Option (MnemonicSovereignty BeliefQuad Forget AuditPolicy)
      → BeliefQuad
      → RecoveryVerificationResult
  verifier none q = verified
  verifier (some sov) q = verify_recovery sov q

module _ ⦃p : Platform⦄ ⦃sm : SlotMap p.BeliefId⦄ ⦃pg : Petgraph p.BeliefId⦄ ⦃sh : Shell⦄
    ⦃ser : EntryEncoder p.Json⦄ ⦃b3 : Blake3⦄ ⦃out : Outside p.Json⦄ {Forget : Type 0} where
  -- The audit entry at the end, only if the contracts did not stop the update.
  unfoldable pub report :
      Option (MnemonicSovereignty BeliefQuad Forget AuditPolicy)
      → String
      → String
      → ℕ
      → Option RecoveryOutcome
      → World p.Json
      → World p.Json
  report none belief_key agent_id now_ms outcome w = w
  report (some sov) belief_key agent_id now_ms outcome w =
      emit sov.audit
        (record {
          timestamp_ms = now_ms;
          event_type = belief_update;
          belief_key = some belief_key;
          agent_id = some agent_id;
          details = sh.details (is_recovered outcome);
        })
        w

  unfoldable pub post_update :
      Option (MnemonicSovereignty BeliefQuad Forget AuditPolicy)
      → List (BehavioralContract BeliefQuad)
      → BeliefQuad
      → ViolationLog
      → World p.Json
      → Option p.Uuid
      → String
      → String
      → ℕ
      → (ℕ → ℕ → p.Uuid)
      → BeliefQuad × ViolationLog × World p.Json × Result RuntimeError (Option RecoveryOutcome)
  post_update sov contracts quad log w last belief_key agent_id now_ms draw =
      let (t, r) =
        enforce (verifier sov) last draw contracts
          (record { quad = quad; log = log; outcome = none }) in
      elim r [
        | err e ↦ (t.quad, t.log, w, err e)
        | ok _ ↦ (t.quad, t.log, report sov belief_key agent_id now_ms t.outcome w, ok t.outcome)
      ]
