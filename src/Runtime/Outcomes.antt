-- ===== src/Runtime/Outcomes.antt =====
-- crates/epica-runtime/src/runtime.rs, `update_belief`: what each way to end leaves behind.
use Prim.Native.String.{String}
use epica.Prelude.{
  if◌then◌else◌, string_eq, nat_eq, list_eq, Result, Result-cases, ◌≡◌, refl, inl, inr, false, not,
  Option, some, ok, err,
}
use epica.Quad.Platform.{Platform, SlotMap, Petgraph, id_eq}
use epica.Quad.Store.{Core}
use epica.Quad.Revision.{revise, RevisionRecord, is_expansion}
use epica.Quad.System1.{propagate_system1}
use epica.Quad.Checkpoint.{BeliefQuad, checkpoint, capture}
use epica.Ledger.Defs.{EntryEncoder, Blake3}
use epica.Sovereignty.Emit.{World, Outside}
use epica.Contracts.Engine.{post_update, RecoveryOutcome, ViolationLog}
use epica.Contracts.Precheck.{pre_update}
use epica.Contracts.Execution.{Shell}
use epica.Contracts.Errors.{RuntimeError}
use epica.Runtime.History.{ConfidenceHistory, push, mark_correct}
use epica.Runtime.Governance.{track_token_usage}
use epica.Runtime.Beliefs.{BeliefRuntime, RuntimeUpdateResult, key_of}
use epica.Runtime.Update.{
  Change, update_belief, admit, commit, settle, finish, token_limit, revision_of, fast_of,
}

module _ ⦃p : Platform⦄ ⦃sm : SlotMap p.BeliefId⦄ ⦃pg : Petgraph p.BeliefId⦄ where
  abbrev pub recorded :
      ConfidenceHistory p.BeliefId p.F32
      → Change
      → Core
      → RevisionRecord
      → ConfidenceHistory p.BeliefId p.F32
  recorded h u spread rec =
      push (if not (is_expansion rec) then mark_correct ⦃e = p.belief_id_eq⦄ h u.id false else h)
        u.id (fast_of spread u) u.record_ms

  abbrev IsSettled :
      ConfidenceHistory p.BeliefId p.F32
      → ConfidenceHistory p.BeliefId p.F32
      → ConfidenceHistory p.BeliefId p.F32
      → Result RuntimeError RuntimeUpdateResult
      → Type 0
  IsSettled before after h' (ok x) = h' ≡ after
  IsSettled before after h' (err e) = h' ≡ before

module _ ⦃p : Platform⦄ ⦃sm : SlotMap p.BeliefId⦄ ⦃pg : Petgraph p.BeliefId⦄ ⦃sh : Shell⦄
    ⦃ser : EntryEncoder p.Json⦄ ⦃b3 : Blake3⦄ ⦃out : Outside p.Json⦄ {Forget : Type 0} where
  -- The quad that the contracts are checked on: the revised belief and what System 1 made of it.
  abbrev pub spread_of : BeliefRuntime Forget → Change → BeliefQuad
  spread_of rt u = record {
    core = propagate_system1 u.clock (revise rt.quad.core (revision_of u)).0 u.id;
    checkpoints = (checkpoint rt.quad u.checkpoint_id u.checkpoint_ms).0.checkpoints;
  }

  -- What an update does to the confidence trace, by how it ends.
  abbrev pub IsRecorded :
      BeliefRuntime Forget
      → Change
      → ConfidenceHistory p.BeliefId p.F32
      → Result RuntimeError RuntimeUpdateResult
      → Type 0
  IsRecorded rt u h' (ok x) =
      (rec : RevisionRecord) × ((revise rt.quad.core (revision_of u)).1 ≡ ok rec)
      × (h' ≡ recorded rt.confidence_history u (spread_of rt u).core rec)
  IsRecorded rt u h' (err e) = h' ≡ rt.confidence_history

  abbrev pub checked :
      BeliefRuntime Forget
      → World p.Json
      → Change
      → BeliefQuad × ViolationLog × World p.Json × Result RuntimeError (Option RecoveryOutcome)
  checked rt w u =
      let engine = rt.contract_engine in
      post_update engine.sovereignty engine.contracts (spread_of rt u) engine.violation_log w
        (some u.checkpoint_id) (key_of rt.quad.core u.id) "system" u.audit_ms u.violation_ids

  commit-inv :
      (rt : BeliefRuntime Forget) (w : World p.Json) (u : Change) {x : RuntimeUpdateResult}
      → (commit rt w u (key_of rt.quad.core u.id)).2 ≡ ok x
      → ((rec : RevisionRecord) × ((revise rt.quad.core (revision_of u)).1 ≡ ok rec))
        × ((o : Option RecoveryOutcome) × ((checked rt w u).3 ≡ ok o))
        × ((commit rt w u (key_of rt.quad.core u.id)).0.quad ≡ (checked rt w u).0)
  unfolding commit settle finish checkpoint capture
  commit-inv rt w u h = elim (Result-cases (revise rt.quad.core (revision_of u)).1) [
    | inr (x, e) ↦ absurd (cc (rw (e, commit) at h))
    | inl (rec, e) ↦ elim (Result-cases (checked rt w u).3) [
      | inr (x, f) ↦ absurd (cc (rw (e, f, commit, settle) at h))
      | inl (o, f) ↦ ((rec, e), (o, f), rw (e, f, commit, settle) refl)
    ]
  ]

  -- An update that ends well has passed its revision and its contracts.
  pub update_belief-inv :
      (rt : BeliefRuntime Forget) (w : World p.Json) (u : Change) {x : RuntimeUpdateResult}
      → (update_belief rt w u).2 ≡ ok x
      → ((rec : RevisionRecord) × ((revise rt.quad.core (revision_of u)).1 ≡ ok rec))
        × ((o : Option RecoveryOutcome) × ((checked rt w u).3 ≡ ok o))
        × ((update_belief rt w u).0.quad ≡ (checked rt w u).0)
  unfolding update_belief admit
  update_belief-inv rt w u h =
      let key = key_of rt.quad.core u.id in
      let engine = rt.contract_engine in
      elim (Result-cases (pre_update engine.sovereignty engine.contracts rt.quad key "system")) [
        | inr (x, e) ↦ absurd (cc (rw (e, update_belief) at h))
        | inl (o, e) ↦
            elim (Result-cases
              (track_token_usage rt.governance_tracker (token_limit engine.contracts)).1) [
                | inr (x, f) ↦ absurd (cc (rw (e, f, update_belief, admit) at h))
                | inl (o', f) ↦
                    let (a, b, c) =
                      commit-inv
                        (record rt {
                          governance_tracker =
                              (track_token_usage rt.governance_tracker
                                (token_limit engine.contracts)).0;
                        })
                        w u (rw (e, f, update_belief, admit) at h) in
                    (a, b, rw (e, f, update_belief, admit) c)
              ]
      ]
