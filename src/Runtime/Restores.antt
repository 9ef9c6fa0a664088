-- ===== src/Runtime/Restores.antt =====
-- crates/epica-runtime/src/runtime.rs, `update_belief`, with the contracts of contract_engine.rs: what a
-- successful update leaves in the quad, with and without a recovery.
use epica.Prelude.{
  string_eq, nat_eq, list_eq, Bool-cases, some_inj, all, Result, Result-cases, ℕ, ◌≡◌, refl, sym,
  ap, ◌∙◌, inl, inr, true, false, Option, none, some, List, [], ◌∷◌, ok, err,
}
use epica.Quad.Platform.{Platform, SlotMap, Petgraph, id_eq}
use epica.Quad.Value.{BeliefNode}
use epica.Quad.Store.{Core, get}
use epica.Quad.Revision.{revise}
use epica.Quad.Postulates.{revise-success}
use epica.Quad.System1.{set_fast}
use epica.Quad.Downstream.{SameBut}
use epica.Quad.Spreading.{propagate_system1-writes}
use epica.Quad.Diff.{BeliefQuadDiff, diff, has_contradictions}
use epica.Quad.Checkpoint.{
  RollbackError, BeliefQuad, checkpoint, capture, find_checkpoint, find_checkpoint-snoc,
  rollback_to, unnecessary_contraction,
}
use epica.Ledger.Defs.{EntryEncoder, Blake3}
use epica.Sovereignty.Checks.{hard}
use epica.Sovereignty.Emit.{World, Outside}
use epica.Contracts.Defs.{
  BehavioralContract, ContractViolation, SessionInvariant, RecoveryPolicy,
  rollback_to_last_checkpoint, collect_all_violations, violations_of,
}
use Prim.Native.String.{◌++◌ as str_append}
use epica.Contracts.Errors.{RuntimeError, recovery_failed}
use epica.Contracts.Engine.{Step, RecoveryOutcome, Turn, enforce, post_update, verifier}
use epica.Contracts.Execution.{Shell, execute_recovery}
use epica.Contracts.Guarantees.{enforce-satisfied}
use epica.Contracts.Recovery.{enforce-Recovers}
use epica.Runtime.Beliefs.{BeliefRuntime, RuntimeUpdateResult}
use epica.Runtime.Update.{Change, update_belief, revision_of}
use epica.Runtime.Outcomes.{update_belief-inv, checked, spread_of}

module _ ⦃p : Platform⦄ ⦃sm : SlotMap p.BeliefId⦄ ⦃pg : Petgraph p.BeliefId⦄ where
  SameBut-some :
      (o o' : Option BeliefNode) (n : BeliefNode)
      → o ≡ some n
      → SameBut o o'
      → (c : p.F32) × (o' ≡ some (set_fast c n))
  SameBut-some none o' n e h = absurd cc
  SameBut-some (some m) none n e h = absurd h
  SameBut-some (some m) (some m') n e (c, h) = (c, ap some (h ∙ ap (set_fast c) (some_inj e)))

  -- The quad after a checkpoint and then other changes.
  abbrev reached : BeliefQuad → Core → p.Uuid → ℕ → BeliefQuad
  reached q later fresh now_ms = record {
    core = later;
    checkpoints = (checkpoint q fresh now_ms).0.checkpoints;
  }

  violations_of-last :
      (is : List (SessionInvariant BeliefQuad)) (q : BeliefQuad) (last : Option p.Uuid)
      (draw : ℕ → p.Uuid) (v : ContractViolation) (vs : List ContractViolation)
      → violations_of is q last draw ≡ v ∷ vs
      → v.last_valid_checkpoint ≡ last
  unfolding violations_of
  violations_of-last [] q last draw v vs h = cc
  violations_of-last (i ∷ is) q last draw v vs h = elim (Bool-cases (i.predicate.evaluate q)) [
    | inl t ↦ violations_of-last is q last _ v vs (rw t at h)
    | inr f ↦ let e = rw f at h in cc
  ]

module _ ⦃p : Platform⦄ ⦃sm : SlotMap p.BeliefId⦄ ⦃pg : Petgraph p.BeliefId⦄ ⦃sh : Shell⦄ where
  rollback_refused :
      (q : BeliefQuad) (later : Core) (fresh : p.Uuid) (now_ms : ℕ)
      → find_checkpoint q.checkpoints fresh ≡ none
      → has_contradictions (diff later q.core) ≡ false
      → rollback_to (reached q later fresh now_ms) fresh
        ≡ (reached q later fresh now_ms, err (unnecessary_contraction (diff later q.core)))
  unfolding checkpoint capture rollback_to
  rollback_refused q later fresh now_ms unused f =
      rw (find_checkpoint-snoc q.checkpoints (capture q fresh now_ms) unused, rollback_to, f) refl

  rollback_done :
      (q : BeliefQuad) (later : Core) (fresh : p.Uuid) (now_ms : ℕ)
      → find_checkpoint q.checkpoints fresh ≡ none
      → has_contradictions (diff later q.core) ≡ true
      → rollback_to (reached q later fresh now_ms) fresh
        ≡ (record { core = q.core; checkpoints = [] }, ok (diff later q.core))
  unfolding checkpoint capture rollback_to
  rollback_done q later fresh now_ms unused t =
      rw (find_checkpoint-snoc q.checkpoints (capture q fresh now_ms) unused, rollback_to, t) refl

  recovery_refused :
      (q : BeliefQuad) (later : Core) (fresh : p.Uuid) (now_ms : ℕ) (v : ContractViolation)
      → v.last_valid_checkpoint ≡ some fresh
      → rollback_to (reached q later fresh now_ms) fresh
        ≡ (reached q later fresh now_ms, err (unnecessary_contraction (diff later q.core)))
      → (e : RuntimeError) × ((execute_recovery
            (reached q later fresh now_ms)
            v
            rollback_to_last_checkpoint).1
          ≡ err e)
  unfolding execute_recovery
  recovery_refused q later fresh now_ms v last refused = (
    recovery_failed
        (str_append "rollback: " (sh.debug (unnecessary_contraction (diff later q.core)))),
    rw (last, execute_recovery) (ap answer refused),
  )
    where
      answer :
          BeliefQuad × Result RollbackError BeliefQuadDiff
          → Result RuntimeError (Option BeliefQuadDiff × RecoveryPolicy)
      answer s = elim s.1 [
        | ok d ↦ ok (some d, rollback_to_last_checkpoint)
        | err e ↦ err (recovery_failed (str_append "rollback: " (sh.debug e)))
      ]

  -- A rollback to the checkpoint of the update, if it is not refused, gives back the quad before it.
  last_checkpoint-restores :
      (q : BeliefQuad) (later : Core) (fresh : p.Uuid) (now_ms : ℕ) (v : ContractViolation)
      → v.last_valid_checkpoint ≡ some fresh
      → find_checkpoint q.checkpoints fresh ≡ none
      → (d : Option BeliefQuadDiff × RecoveryPolicy)
      → (execute_recovery (reached q later fresh now_ms) v rollback_to_last_checkpoint).1 ≡ ok d
      → (execute_recovery (reached q later fresh now_ms) v rollback_to_last_checkpoint).0
        ≡ record { core = q.core; checkpoints = [] }
  unfolding execute_recovery
  last_checkpoint-restores q later fresh now_ms v last unused d h =
      elim (Bool-cases (has_contradictions (diff later q.core))) [
        | inl t ↦ rw (last, execute_recovery, rollback_done q later fresh now_ms unused t) refl
        | inr f ↦
            let refused = rollback_refused q later fresh now_ms unused f in
            let (e, fails) = recovery_refused q later fresh now_ms v last refused in
            absurd (cc (fails, h))
      ]

module _ ⦃p : Platform⦄ ⦃sm : SlotMap p.BeliefId⦄ ⦃pg : Petgraph p.BeliefId⦄ ⦃sh : Shell⦄
    ⦃ser : EntryEncoder p.Json⦄ ⦃b3 : Blake3⦄ ⦃out : Outside p.Json⦄ {Forget : Type 0} where
  abbrev enforced : BeliefRuntime Forget → Change → Step
  enforced rt u =
      let engine = rt.contract_engine in
      enforce (verifier engine.sovereignty) (some u.checkpoint_id) u.violation_ids engine.contracts
        (record { quad = spread_of rt u; log = engine.violation_log; outcome = none })

  -- The checks leave the quad that their enforcement leaves, and end as it does.
  checked-enforced :
      (rt : BeliefRuntime Forget) (w : World p.Json) (u : Change)
      → ((checked rt w u).0 ≡ (enforced rt u).0.quad)
        × ((o : Option RecoveryOutcome) → (checked rt w u).3 ≡ ok o → (enforced rt u).1 ≡ ok tt)
  unfolding post_update
  checked-enforced rt w u = elim (Result-cases (enforced rt u).1) [
    | inl (x, e) ↦ rw (e, post_update) (refl, λ o h. refl)
    | inr (x, e) ↦ rw (e, post_update) (refl, λ o h. absurd cc)
  ]

  -- The state in which every invariant of every contract holds.
  abbrev pub AllHold : BeliefRuntime Forget → BeliefQuad → Type 0
  AllHold rt q =
      all (λ c. all (λ i. i.predicate.evaluate q) c.invariants) rt.contract_engine.contracts ≡ true

  -- If every invariant of every contract holds of the revised quad after System 1, an update that
  -- succeeds leaves the belief with the new value and the new provenance.
  pub update_belief-holds :
      (rt : BeliefRuntime Forget) (w : World p.Json) (u : Change) {x : RuntimeUpdateResult}
      → (update_belief rt w u).2 ≡ ok x
      → AllHold rt (spread_of rt u)
      → (n : BeliefNode) × (get (update_belief rt w u).0.quad.core u.id ≡ some n)
        × (n.value ≡ u.value)
        × (n.provenance ≡ u.provenance)
  update_belief-holds rt w u h hold =
      let ((rec, accepted), _, left) = update_belief-inv rt w u h in
      let engine = rt.contract_engine in
      let quiet =
        enforce-satisfied (verifier engine.sovereignty) (some u.checkpoint_id) u.violation_ids
          engine.contracts
          (record { quad = spread_of rt u; log = engine.violation_log; outcome = none }) hold in
      let kept : (update_belief rt w u).0.quad ≡ spread_of rt u =
        left ∙ (checked-enforced rt w u).0 ∙ ap (λ s. s.0.quad) quiet in
      let (n, at, value, provenance, _) = revise-success rt.quad.core (revision_of u) accepted in
      let (c, at') =
        SameBut-some _ _ n at (
          (propagate_system1-writes u.clock (revise rt.quad.core (revision_of u)).0 u.id).1 u.id) in
      (set_fast c n, ap (λ q. get q.core u.id) kept ∙ at', value, provenance)

  -- If the first violation of the first contract after an update is hard, the contract recovers by a
  -- rollback to the last checkpoint, and the update's checkpoint has an unused id, then an update
  -- that succeeds leaves exactly the quad before it, with every checkpoint deleted.
  pub update_belief-restores :
      (rt : BeliefRuntime Forget) (w : World p.Json) (u : Change)
      (c : BehavioralContract BeliefQuad) (cs : List (BehavioralContract BeliefQuad))
      (v : ContractViolation) (vs : List ContractViolation) {x : RuntimeUpdateResult}
      → (update_belief rt w u).2 ≡ ok x
      → rt.contract_engine.contracts ≡ c ∷ cs
      → c.recovery ≡ rollback_to_last_checkpoint
      → collect_all_violations c (spread_of rt u) (some u.checkpoint_id) (u.violation_ids 0)
        ≡ v ∷ vs
      → v.class ≡ hard
      → find_checkpoint rt.quad.checkpoints u.checkpoint_id ≡ none
      → (update_belief rt w u).0.quad ≡ record { core = rt.quad.core; checkpoints = [] }
  unfolding collect_all_violations
  update_belief-restores rt w u c cs v vs h contracts recovery found class fresh =
      let (_, (o, passed), left) = update_belief-inv rt w u h in
      let (same, ends) = checked-enforced rt w u in
      let engine = rt.contract_engine in
      let turn : Turn = record {
        quad = spread_of rt u;
        log = engine.violation_log;
        outcome = none;
      } in
      let run = λ (l : List (BehavioralContract BeliefQuad)).
        enforce (verifier engine.sovereignty) (some u.checkpoint_id) u.violation_ids l turn in
      let (rolled, (d, done)) =
        enforce-Recovers (verifier engine.sovereignty) (some u.checkpoint_id) u.violation_ids c cs
          turn v vs refl found class (ap (λ l. (run l).1) (sym contracts) ∙ ends o passed) in
      let last =
        violations_of-last c.invariants (spread_of rt u) (some u.checkpoint_id) (u.violation_ids 0)
          v vs found in
      let back =
        last_checkpoint-restores rt.quad (spread_of rt u).core u.checkpoint_id u.checkpoint_ms v
          last fresh d
          (ap (λ r. (execute_recovery (spread_of rt u) v r).1) (sym recovery) ∙ done) in
      left
      ∙ same
      ∙ ap (λ l. (run l).0.quad) contracts
      ∙ rolled
      ∙ ap (λ r. (execute_recovery (spread_of rt u) v r).0) recovery
      ∙ back
