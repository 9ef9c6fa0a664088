-- ===== src/Runtime/Update.antt =====
-- crates/epica-runtime/src/runtime.rs, `update_belief`, by its stages: the checks, the token count, the
-- checkpoint with the revision and System 1, the contracts, and the record in the history.
use Prim.Native.String.{String}
use epica.Prelude.{
  if◌then◌else◌, string_eq, nat_eq, list_eq, Result, ℕ, Bool, false, not, Option, none, some, List,
  [], ◌∷◌, ok, err,
}
use epica.Quad.Platform.{Platform, SlotMap, Petgraph, id_eq}
use epica.Quad.Value.{BeliefValue, Provenance}
use epica.Quad.Store.{Core, get}
use epica.Quad.Revision.{Revision, RevisionRecord, revise, is_expansion}
use epica.Quad.System1.{propagate_system1}
use epica.Quad.Checkpoint.{BeliefQuad, checkpoint}
use epica.Ledger.Defs.{EntryEncoder, Blake3}
use epica.Sovereignty.Emit.{World, Outside}
use epica.Contracts.Defs.{BehavioralContract}
use epica.Contracts.Errors.{RuntimeError, core, revision, governance_limit_exceeded}
use epica.Contracts.Engine.{post_update}
use epica.Contracts.Precheck.{pre_update}
use epica.Contracts.Execution.{Shell}
use epica.Runtime.History.{push, mark_correct}
use epica.Runtime.Governance.{track_token_usage}
use epica.Runtime.Beliefs.{
  BeliefRuntime, DiagnosticSignal, RuntimeUpdateResult, system1_only, system2_pending, key_of,
}

-- The arguments of an update, and what it draws from the clock and the random source on the way.
pub record Change ⦃p : Platform⦄ : Type 0 where
  pub id : p.BeliefId
  pub value : BeliefValue
  pub provenance : Provenance
  pub confidence : p.F32
  pub checkpoint_id : p.Uuid
  pub checkpoint_ms : ℕ
  pub revision_id : p.Uuid
  pub revision_ms : ℕ
  pub clock : ℕ → ℕ
  pub violation_ids : ℕ → ℕ → p.Uuid
  pub audit_ms : ℕ
  pub record_ms : ℕ

module _ ⦃p : Platform⦄ ⦃sm : SlotMap p.BeliefId⦄ ⦃pg : Petgraph p.BeliefId⦄ where
  -- belief/confidence.rs
  unfoldable pub should_activate_system2 : p.F32 → p.F32 → p.F32 → Bool
  should_activate_system2 fast baseline threshold = p.lt threshold (p.abs (p.sub fast baseline))

  unfoldable pub token_limit : List (BehavioralContract BeliefQuad) → Option ℕ
  token_limit [] = none
  token_limit (c ∷ cs) = c.governance.max_tokens_per_session

  abbrev pub revision_of : Change → Revision
  revision_of u = record {
    belief_id = u.id;
    new_value = u.value;
    new_provenance = u.provenance;
    new_confidence = u.confidence;
    now_ms = u.revision_ms;
    revision_id = u.revision_id;
  }

  unfoldable pub fast_of : Core → Change → p.F32
  fast_of q u = elim (get q u.id) [ none ↦ u.confidence | some n ↦ n.fast_confidence ]

  abbrev pub Updated : Type 0 → Type 0
  Updated Forget = BeliefRuntime Forget × World p.Json × Result RuntimeError RuntimeUpdateResult

module _ ⦃p : Platform⦄ ⦃sm : SlotMap p.BeliefId⦄ ⦃pg : Petgraph p.BeliefId⦄ ⦃sh : Shell⦄
    ⦃ser : EntryEncoder p.Json⦄ ⦃b3 : Blake3⦄ ⦃out : Outside p.Json⦄ {Forget : Type 0} where
  unfoldable pub threshold_of : BeliefRuntime Forget → p.BeliefId → p.F32
  threshold_of rt id = elim (get rt.quad.core id) [
    | none ↦ rt.default_reflection_threshold
    | some n ↦ n.reflection_threshold
  ]

  unfoldable pub signal_of : BeliefRuntime Forget → p.BeliefId → p.F32 → DiagnosticSignal
  signal_of rt id fast = record {
    belief_key = key_of rt.quad.core id;
    fast_confidence = fast;
    reliability_baseline = rt.reliability_baseline;
    divergence = p.abs (p.sub fast rt.reliability_baseline);
  }

  -- Both outcomes append the fast confidence.
  unfoldable pub outcome_of : BeliefRuntime Forget → p.BeliefId → p.F32 → RuntimeUpdateResult
  outcome_of rt id fast =
      if should_activate_system2 fast rt.reliability_baseline (threshold_of rt id)
      then elim rt.llm_client [
        | none ↦ system1_only
        | some c ↦ system2_pending (signal_of rt id fast)
      ]
      else system1_only

  unfoldable pub finish :
      BeliefRuntime Forget → World p.Json → Change → p.F32 → Bool → Updated Forget
  finish rt w u fast contradicted =
      let marked =
        if contradicted
        then mark_correct ⦃e = p.belief_id_eq⦄ rt.confidence_history u.id false
        else rt.confidence_history in
      (
        record rt { confidence_history = push marked u.id fast u.record_ms },
        w,
        ok (outcome_of rt u.id fast),
      )

  -- After the revision: System 1, and the checks on the quad that it leaves.
  unfoldable pub settle :
      BeliefRuntime Forget
      → World p.Json
      → Change
      → String
      → BeliefQuad
      → p.Uuid
      → RevisionRecord
      → Updated Forget
  settle rt w u key quad cp rec =
      let spread = propagate_system1 u.clock quad.core u.id in
      let fast = fast_of spread u in
      let engine = rt.contract_engine in
      let (quad', log', w', r) =
        post_update engine.sovereignty engine.contracts
          (record { core = spread; checkpoints = quad.checkpoints }) engine.violation_log w
          (some cp) key "system" u.audit_ms u.violation_ids in
      let rt' : BeliefRuntime Forget = record rt {
        quad = quad';
        contract_engine = record engine { violation_log = log' };
      } in
      elim r [ err e ↦ (rt', w', err e) | ok _ ↦ finish rt' w' u fast (not (is_expansion rec)) ]

  unfoldable pub commit : BeliefRuntime Forget → World p.Json → Change → String → Updated Forget
  commit rt w u key =
      let (quad, cp) = checkpoint rt.quad u.checkpoint_id u.checkpoint_ms in
      let (core', r) = revise quad.core (revision_of u) in
      let quad' : BeliefQuad = record { core = core'; checkpoints = quad.checkpoints } in
      elim r [
        | err e ↦ (record rt { quad = quad' }, w, err (core (revision e)))
        | ok rec ↦ settle rt w u key quad' cp rec
      ]

  unfoldable pub admit : BeliefRuntime Forget → World p.Json → Change → String → Updated Forget
  admit rt w u key =
      let (tracker, r) =
        track_token_usage rt.governance_tracker (token_limit rt.contract_engine.contracts) in
      let rt' : BeliefRuntime Forget = record rt { governance_tracker = tracker } in
      elim r [ err e ↦ (rt', w, err (governance_limit_exceeded e)) | ok _ ↦ commit rt' w u key ]

  unfoldable pub update_belief : BeliefRuntime Forget → World p.Json → Change → Updated Forget
  update_belief rt w u =
      let key = key_of rt.quad.core u.id in
      let engine = rt.contract_engine in
      elim (pre_update engine.sovereignty engine.contracts rt.quad key "system") [
        | err e ↦ (rt, w, err e)
        | ok _ ↦ admit rt w u key
      ]
