-- ===== src/Tests/Updates.antt =====
-- Runs of the theorems on contract enforcement.
use epica.Prelude.{
  if◌then◌else◌, string_eq, nat_eq, list_eq, ℕ, ◌+◌, ◌≡◌, refl, Bool, true, false, none, List, [],
  ◌∷◌, ok,
}
use epica.Quad.Checkpoint.{BeliefQuad}
use epica.Sovereignty.Checks.{critical, hard, RecoveryVerificationResult, verified}
use epica.Sovereignty.Emit.{World, Outside}
use epica.Contracts.Defs.{
  BehavioralContract, SessionInvariant, BeliefPredicate, degrade_and_continue,
}
use epica.Contracts.Engine.{Turn, ViolationLog, enforce}
use epica.Contracts.Execution.{Shell}
use epica.Contracts.Guarantees.{critical-halts}
use epica.Tests.Instances.{toy_hash, toy_encoder}
use epica.Tests.Stores.{toy_platform, toy_slots, toy_graphs}
use epica.Tests.Quads.{one}

instance abbrev pub toy_shell : Shell
toy_shell = record {
  debug = λ e. "";
  show_contract_error = λ e. "";
  show_version = λ n. "";
  details = λ b. if b then 1 else 0;
  show_value = λ v. "value";
}

instance abbrev pub quiet : Outside ℕ
quiet = record { to_string = λ e. none; can_open = λ path. false }

abbrev pub quad : BeliefQuad
quad = record { core = one; checkpoints = [] }

abbrev pub never : BeliefPredicate BeliefQuad
never = record { evaluate = λ q. false; description = "never" }

abbrev pub always : BeliefPredicate BeliefQuad
always = record { evaluate = λ q. true; description = "always" }

abbrev pub invariant : BeliefPredicate BeliefQuad → Bool → SessionInvariant BeliefQuad
invariant pr is_critical = record {
  predicate = pr;
  class = if is_critical then critical else hard;
  max_intervention_gap_steps = 1;
}

abbrev pub contract : List (SessionInvariant BeliefQuad) → BehavioralContract BeliefQuad
contract invariants = record {
  domain = "d";
  preconditions = always ∷ [];
  invariants = invariants;
  governance = record {
    max_tokens_per_session = none;
    max_tool_calls_per_belief = none;
    require_human_approval = [];
  };
  recovery = degrade_and_continue 1;
  alpha = 0;
  gamma = 1;
  delta = 1;
  k = 100;
  p = 1;
}

abbrev empty_log : ViolationLog
empty_log = record { soft = []; hard = []; critical = []; recovery_actions_taken = 0 }

abbrev start : Turn
start = record { quad = quad; log = empty_log; outcome = none }

abbrev trusting : BeliefQuad → RecoveryVerificationResult
trusting q = verified

critical-halts_example : ¬ (
    (enforce trusting none (λ i j. i + j) (contract (invariant never true ∷ []) ∷ []) start).1
    ≡ ok tt)
critical-halts_example =
    critical-halts trusting none (λ i j. i + j) (contract (invariant never true ∷ [])) [] start
      (invariant never true) (0, refl) refl refl

abbrev pub world : World ℕ
world = record { heap = []; sinks = record { traced = []; written = [] } }
