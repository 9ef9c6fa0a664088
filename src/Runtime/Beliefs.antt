-- ===== src/Runtime/Beliefs.antt =====
-- crates/epica-runtime/src/runtime.rs: the state of the runtime and its smaller operations. Each lock is
-- taken for one step and calls are made one after the other, so the state is passed on. A client of a
-- language model or an embedding service is the function that answers one call.
use Prim.Native.String.{String}
use epica.Prelude.{
  if◌then◌else◌, string_eq, nat_eq, list_eq, Result, ℕ, ◌+◌, ◌%◌, ◌^◌, Bool, Option, none, some,
  List, [], ◌∷◌, ◌++◌, ok, err,
}
use epica.Quad.Platform.{Platform, SlotMap, Petgraph, id_eq}
use epica.Quad.HashMap.{HashMap, hash_get, hash_insert}
use epica.Quad.Value.{BeliefNode}
use epica.Quad.Store.{Core, get, insert, modify, ProspectiveEntry, CausalEvent}
use epica.Quad.Diff.{BeliefQuadDiff}
use epica.Quad.Checkpoint.{BeliefQuad, checkpoint, rollback_to, RollbackError}
use epica.Sovereignty.Checks.{MnemonicSovereignty}
use epica.Sovereignty.Emit.{AuditPolicy}
use epica.Contracts.Defs.{BehavioralContract}
use epica.Contracts.Errors.{LlmClientError}
use epica.Contracts.Engine.{ViolationLog}
use epica.Contracts.Execution.{Shell}
use epica.Runtime.History.{
  ConfidenceHistory, as_tece_input, finalize_session, replace_last_confidence,
}
use epica.Runtime.History
use epica.Runtime.Governance.{GovernanceTracker, new_tracker}
use epica.Runtime.TokenBucket.{TokenBucket, Stopwatch, new_bucket, try_consume, release}
use epica.Runtime.Tece.{compute}

-- system2/llm_client.rs
pub record DiagnosticSignal ⦃p : Platform⦄ : Type 0 where
  pub belief_key : String
  pub fast_confidence : p.F32
  pub reliability_baseline : p.F32
  pub divergence : p.F32

pub record System2Result ⦃p : Platform⦄ : Type 0 where
  pub revised_confidence : p.F32
  pub reasoning : String

-- prospective/mod.rs
pub data EmbedError : Type 0 where
  model network : String → EmbedError

pub data ProspectiveClientError : Type 0 where
  network deserialize : String → ProspectiveClientError
  rate_limited : ProspectiveClientError

pub record RawProspectiveScenario ⦃p : Platform⦄ : Type 0 where
  pub scenario : String
  pub causal_events : List CausalEvent

abbrev pub LlmClient : ⦃p : Platform⦄ → Type 0
LlmClient = DiagnosticSignal → Result LlmClientError System2Result

abbrev pub Embedder : ⦃p : Platform⦄ → Type 0
Embedder ⦃p⦄ = String → Result EmbedError (List p.F32)

abbrev pub ProspectiveClient : ⦃p : Platform⦄ → Type 0
ProspectiveClient = String → String → Result ProspectiveClientError (List RawProspectiveScenario)

pub data RuntimeUpdateResult ⦃p : Platform⦄ : Type 0 where
  system1_only : RuntimeUpdateResult
  system2_activated : DiagnosticSignal → System2Result → RuntimeUpdateResult
  system2_pending : DiagnosticSignal → RuntimeUpdateResult
  system2_throttled : RuntimeUpdateResult

pub record ContractEngine ⦃p : Platform⦄ ⦃sm : SlotMap p.BeliefId⦄ ⦃pg : Petgraph p.BeliefId⦄
    (Forget : Type 0) : Type 0 where
  pub contracts : List (BehavioralContract BeliefQuad)
  pub sovereignty : Option (MnemonicSovereignty BeliefQuad Forget AuditPolicy)
  pub violation_log : ViolationLog

pub record BeliefRuntime ⦃p : Platform⦄ ⦃sm : SlotMap p.BeliefId⦄ ⦃pg : Petgraph p.BeliefId⦄
    (Forget : Type 0) : Type 0 where
  pub quad : BeliefQuad
  pub reliability_baseline : p.F32
  pub reflection_budget : TokenBucket
  pub key_index : HashMap String p.BeliefId
  pub confidence_history : ConfidenceHistory p.BeliefId p.F32
  pub system2_activations : ℕ
  pub system2_throttled : ℕ
  pub contract_engine : ContractEngine Forget
  pub governance_tracker : GovernanceTracker
  pub llm_client : Option LlmClient
  pub default_reflection_threshold : p.F32
  pub embedder : Option Embedder
  pub prospective_client : Option ProspectiveClient

module _ ⦃p : Platform⦄ ⦃sm : SlotMap p.BeliefId⦄ ⦃pg : Petgraph p.BeliefId⦄ where
  -- The pairs are collected in order, so the last belief with a key is the one indexed.
  unfoldable pub key_index_of :
      List (p.BeliefId × BeliefNode) → HashMap String p.BeliefId → HashMap String p.BeliefId
  key_index_of [] m = m
  key_index_of ((id, n) ∷ ns) m = key_index_of ns (hash_insert ⦃e = string_eq⦄ m n.key id)

  unfoldable pub key_of : Core → p.BeliefId → String
  key_of q id = elim (get q id) [ none ↦ "" | some n ↦ n.key ]

  -- An embedding that fails is stored as an empty one.
  unfoldable pub entries_of : Embedder → List RawProspectiveScenario → List ProspectiveEntry
  entries_of embed [] = []
  entries_of embed (s ∷ ss) =
      record {
        scenario = s.scenario;
        embedding = elim (embed s.scenario) [ ok v ↦ v | err e ↦ [] ];
        causal_events = s.causal_events;
      }
      ∷ entries_of embed ss

  unfoldable pub store_scenarios : Core → p.BeliefId → List ProspectiveEntry → Core
  store_scenarios q id entries = record q {
    prospective_index = hash_insert ⦃e = p.belief_id_eq⦄ q.prospective_index id entries;
  }

  abbrev set_slow : p.F32 → BeliefNode → BeliefNode
  set_slow c n = record n { slow_confidence = some c }

module _ ⦃p : Platform⦄ ⦃sm : SlotMap p.BeliefId⦄ ⦃pg : Petgraph p.BeliefId⦄ {Forget : Type 0} where
  unfoldable pub new_engine : ContractEngine Forget
  new_engine = record {
    contracts = [];
    sovereignty = none;
    violation_log = record { soft = []; hard = []; critical = []; recovery_actions_taken = 0 };
  }

  unfoldable pub new_runtime : BeliefQuad → p.F32 → ℕ → p.F32 → ℕ → BeliefRuntime Forget
  new_runtime quad reliability_baseline system2_budget system2_refill_rate now = record {
    quad = quad;
    reliability_baseline = reliability_baseline;
    reflection_budget = new_bucket system2_budget system2_refill_rate now;
    key_index = key_index_of (sm.iter quad.core.nodes) [];
    confidence_history = History.empty;
    system2_activations = 0;
    system2_throttled = 0;
    contract_engine = new_engine;
    governance_tracker = new_tracker;
    llm_client = none;
    default_reflection_threshold = p.default_reflection_threshold;
    embedder = none;
    prospective_client = none;
  }

  abbrev pub with_core : BeliefRuntime Forget → Core → BeliefRuntime Forget
  with_core rt core = record rt { quad = record { core = core; checkpoints = rt.quad.checkpoints } }

  unfoldable pub with_default_tau : BeliefRuntime Forget → p.F32 → BeliefRuntime Forget
  with_default_tau rt tau = record rt { default_reflection_threshold = p.clamp_unit tau }

  unfoldable pub with_contract :
      BeliefRuntime Forget → BehavioralContract BeliefQuad → BeliefRuntime Forget
  with_contract rt contract = record rt {
    contract_engine = record rt.contract_engine {
      contracts = rt.contract_engine.contracts ++ contract ∷ [];
    };
  }

  unfoldable pub with_sovereignty :
      BeliefRuntime Forget
      → MnemonicSovereignty BeliefQuad Forget AuditPolicy
      → BeliefRuntime Forget
  with_sovereignty rt sov = record rt {
    contract_engine = record rt.contract_engine { sovereignty = some sov };
  }

  -- Best effort: without both clients, and when the generation fails, nothing changes.
  unfoldable pub index_belief_prospective :
      BeliefRuntime Forget → p.BeliefId → String → BeliefRuntime Forget
  index_belief_prospective rt id value_repr = elim rt.prospective_client [
    | none ↦ rt
    | some generate ↦ elim rt.embedder [
      | none ↦ rt
      | some embed ↦ elim (generate (key_of rt.quad.core id) value_repr) [
        | err e ↦ rt
        | ok raw ↦ with_core rt (store_scenarios rt.quad.core id (entries_of embed raw))
      ]
    ]
  ]

  unfoldable pub insert_belief :
      ⦃sh : Shell⦄ → BeliefRuntime Forget → BeliefNode → BeliefRuntime Forget × p.BeliefId
  insert_belief ⦃sh⦄ rt node =
      let (core, id) = insert rt.quad.core node in
      let rt' : BeliefRuntime Forget = record (with_core rt core) {
        key_index = hash_insert ⦃e = string_eq⦄ rt.key_index node.key id;
      } in
      (
        if node.prospect then index_belief_prospective rt' id (sh.show_value node.value) else rt',
        id,
      )

  unfoldable pub get_by_key : BeliefRuntime Forget → String → Option p.BeliefId
  get_by_key rt key = hash_get ⦃e = string_eq⦄ rt.key_index key

  unfoldable pub apply_system2_result :
      BeliefRuntime Forget → p.BeliefId → p.F32 → BeliefRuntime Forget
  apply_system2_result rt id revised_confidence =
      record (with_core rt (modify rt.quad.core id (set_slow revised_confidence))) {
        system2_activations = (rt.system2_activations + 1) % 2 ^ 64;
        confidence_history = replace_last_confidence rt.confidence_history id revised_confidence;
      }

  unfoldable pub try_consume_system2_budget :
      ⦃sw : Stopwatch⦄ → BeliefRuntime Forget → ℕ → BeliefRuntime Forget × Bool
  try_consume_system2_budget rt now =
      let (b, taken) = try_consume rt.reflection_budget 1 now in
      (record rt { reflection_budget = b }, taken)

  unfoldable pub release_system2_budget : BeliefRuntime Forget → BeliefRuntime Forget
  release_system2_budget rt = record rt { reflection_budget = release rt.reflection_budget 1 }

  unfoldable pub record_system2_throttle : BeliefRuntime Forget → BeliefRuntime Forget
  record_system2_throttle rt = record rt { system2_throttled = (rt.system2_throttled + 1) % 2 ^ 64 }

  unfoldable pub compute_tece : BeliefRuntime Forget → Option p.F32
  compute_tece rt = compute (as_tece_input rt.confidence_history)

  unfoldable pub seal_session : BeliefRuntime Forget → BeliefRuntime Forget
  seal_session rt = record rt { confidence_history = finalize_session rt.confidence_history }

  unfoldable pub checkpoint_now : BeliefRuntime Forget → p.Uuid → ℕ → BeliefRuntime Forget × p.Uuid
  checkpoint_now rt fresh now_ms =
      let (quad, id) = checkpoint rt.quad fresh now_ms in (record rt { quad = quad }, id)

  unfoldable pub roll_back :
      BeliefRuntime Forget → p.Uuid → BeliefRuntime Forget × Result RollbackError BeliefQuadDiff
  roll_back rt id = let (quad, r) = rollback_to rt.quad id in (record rt { quad = quad }, r)
