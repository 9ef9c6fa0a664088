-- ===== src/Contracts/Defs.antt =====
-- crates/epica-contracts/src/contract.rs, predicate.rs, invariant.rs, recovery.rs, governance.rs. A `dyn BeliefPredicate`
-- is its two methods. The drift parameters of a contract, which no check reads, are left out.
use epica.Prelude.{
  if◌then◌else◌, string_eq, nat_eq, list_eq, any, all, ℕ, suc, String, Bool, true, false, not, ◌&&◌,
  Option, none, some, List, [], ◌∷◌,
}
use epica.Quad.Platform.{Platform, SlotMap, Petgraph}
use epica.Quad.Value.{BeliefNode}
use epica.Quad.Checkpoint.{BeliefQuad}
use epica.Sovereignty.Checks.{ViolationClass, soft, hard, critical}

pub record BeliefPredicate (Quad : Type 0) : Type 0 where
  pub evaluate : Quad → Bool
  pub description : String

pub record SessionInvariant (Quad : Type 0) : Type 0 where
  pub predicate : BeliefPredicate Quad
  pub class : ViolationClass
  pub max_intervention_gap_steps : ℕ

pub record GovernancePolicies : Type 0 where
  pub max_tokens_per_session : Option ℕ
  pub max_tool_calls_per_belief : Option ℕ
  pub require_human_approval : List String

pub data RecoveryPolicy ⦃p : Platform⦄ : Type 0 where
  rollback_to_last_checkpoint : RecoveryPolicy
  rollback_to_version : ℕ → RecoveryPolicy
  emit_causal_diff_and_halt : RecoveryPolicy
  degrade_and_continue : p.F32 → RecoveryPolicy
  rollback_to_checkpoint : p.Uuid → RecoveryPolicy

pub record ContractViolation ⦃p : Platform⦄ : Type 0 where
  pub violation_id : p.Uuid
  pub invariant_description : String
  pub class : ViolationClass
  pub at_version : ℕ
  pub last_valid_checkpoint : Option p.Uuid

pub record BehavioralContract ⦃pf : Platform⦄ (Quad : Type 0) : Type 0 where
  pub domain : String
  pub preconditions : List (BeliefPredicate Quad)
  pub invariants : List (SessionInvariant Quad)
  pub governance : GovernancePolicies
  pub recovery : RecoveryPolicy
  pub alpha : pf.F64
  pub gamma : pf.F64
  pub delta : ℕ
  pub k : ℕ
  pub p : pf.F64

module _ ⦃p : Platform⦄ ⦃sm : SlotMap p.BeliefId⦄ ⦃pg : Petgraph p.BeliefId⦄ where
  unfoldable pub belief_exists : String → BeliefPredicate BeliefQuad
  belief_exists key = record {
    evaluate = λ q. any (λ e. string_eq.beq e.1.key key) (sm.iter q.core.nodes);
    description = key;
  }

  unfoldable pub find_key : List (p.BeliefId × BeliefNode) → String → Option BeliefNode
  find_key [] key = none
  find_key ((id, n) ∷ ns) key = if string_eq.beq n.key key then some n else find_key ns key

  unfoldable pub min_confidence : String → p.F32 → BeliefPredicate BeliefQuad
  min_confidence key threshold = record {
    evaluate = λ q. elim (find_key (sm.iter q.core.nodes) key) [
      | none ↦ false
      | some n ↦ p.le threshold n.fast_confidence
    ];
    description = key;
  }

  unfoldable pub check_preconditions : BehavioralContract BeliefQuad → BeliefQuad → Bool
  check_preconditions c quad = all (λ pr. pr.evaluate quad) c.preconditions

  -- `fresh` is what `Uuid::new_v4` returns.
  abbrev violation_of :
      SessionInvariant BeliefQuad → BeliefQuad → Option p.Uuid → p.Uuid → ContractViolation
  violation_of inv quad last_checkpoint fresh = record {
    violation_id = fresh;
    invariant_description = inv.predicate.description;
    class = inv.class;
    at_version = quad.core.version;
    last_valid_checkpoint = last_checkpoint;
  }

  abbrev is_serious : ViolationClass → Bool
  is_serious soft = false
  is_serious hard = true
  is_serious critical = true

  unfoldable pub first_serious :
      List (SessionInvariant BeliefQuad)
      → BeliefQuad
      → Option p.Uuid
      → p.Uuid
      → Option ContractViolation
  first_serious [] quad last fresh = none
  first_serious (inv ∷ is) quad last fresh =
      if not (inv.predicate.evaluate quad) && is_serious inv.class
      then some (violation_of inv quad last fresh)
      else first_serious is quad last fresh

  unfoldable pub check_invariants :
      BehavioralContract BeliefQuad → BeliefQuad → Option p.Uuid → p.Uuid → Option ContractViolation
  check_invariants c quad last fresh = first_serious c.invariants quad last fresh

  -- The ids that the violations draw, one each, are a stream.
  unfoldable pub violations_of :
      List (SessionInvariant BeliefQuad)
      → BeliefQuad
      → Option p.Uuid
      → (ℕ → p.Uuid)
      → List ContractViolation
  violations_of [] quad last draw = []
  violations_of (inv ∷ is) quad last draw =
      let rest = violations_of is quad last (λ n. draw (suc n)) in
      if inv.predicate.evaluate quad then rest else violation_of inv quad last (draw 0) ∷ rest

  unfoldable pub collect_all_violations :
      BehavioralContract BeliefQuad
      → BeliefQuad
      → Option p.Uuid
      → (ℕ → p.Uuid)
      → List ContractViolation
  collect_all_violations c quad last draw = violations_of c.invariants quad last draw
