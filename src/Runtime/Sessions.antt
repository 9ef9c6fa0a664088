-- ===== src/Runtime/Sessions.antt =====
-- crates/epica-runtime/src/runtime.rs: a session is a run of calls of the runtime, one after the other.
use epica.Quad.Store.{insert}
use epica.Quad.Synchronized.{modify-IsSynchronized, insert-IsSynchronized, is_live}
use Prim.Native.String.{String}
use epica.Prelude.{
  if◌then◌else◌, string_eq, nat_eq, list_eq, Option-cases, Result-cases, ℕ, inl, inr, Bool, true,
  false, some, List, [], ◌∷◌,
}
use epica.Quad.Platform.{Platform, SlotMap, Petgraph, id_eq}
use epica.Quad.HashMap.{hash_insert}
use epica.Quad.Value.{BeliefNode}
use epica.Quad.Revision.{revise, RevisionRecord}
use epica.Quad.Postulates.{revise-IsSynchronized}
use epica.Quad.System1.{propagate_system1}
use epica.Quad.Spreading.{propagate_system1-IsSynchronized}
use epica.Quad.Checkpoint.{BeliefQuad, checkpoint}
use epica.Ledger.Defs.{EntryEncoder, Blake3}
use epica.Sovereignty.Emit.{World, Outside}
use epica.Contracts.Engine.{post_update}
use epica.Contracts.Precheck.{pre_update}
use epica.Contracts.Execution.{Shell}
use epica.Contracts.Keeps.{post_update-keeps}
use epica.Runtime.Governance.{track_token_usage}
use epica.Runtime.TokenBucket.{Stopwatch}
use epica.Runtime.Consistent.{
  IsConsistent, checkpoint-IsConsistent, execute_recovery-IsConsistent, rollback_to-IsConsistent,
}
use epica.Runtime.Beliefs.{
  BeliefRuntime, insert_belief, apply_system2_result, checkpoint_now, roll_back, key_of,
  try_consume_system2_budget, release_system2_budget, record_system2_throttle, seal_session,
  with_core, index_belief_prospective, store_scenarios,
}
use epica.Runtime.Update.{
  Change, update_belief, admit, commit, settle, finish, token_limit, revision_of,
}

pub data Call ⦃p : Platform⦄ : Type 0 where
  insert_belief_call : BeliefNode → Call
  update_belief_call : Change → Call
  apply_system2_call : p.BeliefId → p.F32 → Call
  consume_call : ℕ → Call
  release_call : Call
  throttle_call : Call
  checkpoint_call : p.Uuid → ℕ → Call
  rollback_call : p.Uuid → Call
  finalize_call : Call

module _ ⦃p : Platform⦄ ⦃sm : SlotMap p.BeliefId⦄ ⦃pg : Petgraph p.BeliefId⦄ ⦃sh : Shell⦄
    ⦃ser : EntryEncoder p.Json⦄ ⦃b3 : Blake3⦄ ⦃out : Outside p.Json⦄ ⦃sw : Stopwatch⦄
    {Forget : Type 0} where
  unfoldable pub perform :
      Call → BeliefRuntime Forget → World p.Json → BeliefRuntime Forget × World p.Json
  perform (insert_belief_call n) rt w = ((insert_belief rt n).0, w)
  perform (update_belief_call u) rt w = let (rt', w', r) = update_belief rt w u in (rt', w')
  perform (apply_system2_call id c) rt w = (apply_system2_result rt id c, w)
  perform (consume_call now) rt w = ((try_consume_system2_budget rt now).0, w)
  perform release_call rt w = (release_system2_budget rt, w)
  perform throttle_call rt w = (record_system2_throttle rt, w)
  perform (checkpoint_call fresh now) rt w = ((checkpoint_now rt fresh now).0, w)
  perform (rollback_call id) rt w = ((roll_back rt id).0, w)
  perform finalize_call rt w = (seal_session rt, w)

  unfoldable pub session :
      List Call → BeliefRuntime Forget → World p.Json → BeliefRuntime Forget × World p.Json
  session [] rt w = (rt, w)
  session (c ∷ cs) rt w = let (rt', w') = perform c rt w in session cs rt' w'

  settle-IsConsistent :
      (rt : BeliefRuntime Forget) (w : World p.Json) (u : Change) (key : String) (q : BeliefQuad)
      (cp : p.Uuid) (rec : RevisionRecord)
      → IsConsistent q
      → IsConsistent (settle rt w u key q cp rec).0.quad
  unfolding settle finish
  settle-IsConsistent rt w u key q cp rec h =
      let engine = rt.contract_engine in
      let spread : BeliefQuad = record {
        core = propagate_system1 u.clock q.core u.id;
        checkpoints = q.checkpoints;
      } in
      let start : IsConsistent spread = record {
        current = propagate_system1-IsSynchronized u.clock q.core u.id h.current;
        saved = h.saved;
      } in
      let kept =
        post_update-keeps IsConsistent execute_recovery-IsConsistent engine.sovereignty
          engine.contracts spread engine.violation_log w (some cp) key "system" u.audit_ms
          u.violation_ids start in
      elim (Result-cases
        (post_update engine.sovereignty engine.contracts spread engine.violation_log w (some cp) key
          "system" u.audit_ms u.violation_ids).3) [
            | inl (o, e) ↦ rw (e, settle) kept
            | inr (x, e) ↦ rw (e, settle) kept
          ]

  commit-IsConsistent :
      (rt : BeliefRuntime Forget) (w : World p.Json) (u : Change) (key : String)
      → IsConsistent rt.quad
      → IsConsistent (commit rt w u key).0.quad
  unfolding commit
  commit-IsConsistent rt w u key h =
      let saved = checkpoint-IsConsistent rt.quad u.checkpoint_id u.checkpoint_ms h in
      let q = (checkpoint rt.quad u.checkpoint_id u.checkpoint_ms).0 in
      let revised : IsConsistent
          (record { core = (revise q.core (revision_of u)).0; checkpoints = q.checkpoints }) =
        record {
          current = revise-IsSynchronized q.core (revision_of u) saved.current;
          saved = saved.saved;
        } in
      elim (Result-cases (revise q.core (revision_of u)).1) [
        | inl (rec, e) ↦ rw (e, commit) (settle-IsConsistent rt w u key _ _ rec revised)
        | inr (x, e) ↦ rw (e, commit) revised
      ]

  update_belief-IsConsistent :
      (rt : BeliefRuntime Forget) (w : World p.Json) (u : Change)
      → IsConsistent rt.quad
      → IsConsistent (update_belief rt w u).0.quad
  unfolding update_belief admit
  update_belief-IsConsistent rt w u h =
      let key = key_of rt.quad.core u.id in
      let engine = rt.contract_engine in
      elim (Result-cases (pre_update engine.sovereignty engine.contracts rt.quad key "system")) [
        | inr (x, e) ↦ rw (e, update_belief) h
        | inl (o, e) ↦
            elim (Result-cases
              (track_token_usage rt.governance_tracker (token_limit engine.contracts)).1) [
                | inr (x, f) ↦ rw (e, f, update_belief, admit) h
                | inl (o', f) ↦ rw (e, f, update_belief, admit) (commit-IsConsistent _ w u key h)
              ]
      ]

  index-IsConsistent :
      (rt : BeliefRuntime Forget) (id : p.BeliefId) (repr : String)
      → IsConsistent rt.quad
      → IsConsistent (index_belief_prospective rt id repr).quad
  unfolding index_belief_prospective store_scenarios is_live
  index-IsConsistent rt id repr h = elim (Option-cases rt.prospective_client) [
    | inl e ↦ rw (e, index_belief_prospective) h
    | inr (generate, e) ↦ elim (Option-cases rt.embedder) [
      | inl f ↦ rw (e, f, index_belief_prospective) h
      | inr (embed, f) ↦ elim (Result-cases (generate (key_of rt.quad.core id) repr)) [
        | inr (x, g) ↦ rw (e, f, g, index_belief_prospective) h
        | inl (raw, g) ↦
            rw (e, f, g, index_belief_prospective)
              (record {
                current = record {
                  semantic = h.current.semantic;
                  temporal = h.current.temporal;
                  causal = h.current.causal;
                  entity = h.current.entity;
                };
                saved = h.saved;
              })
      ]
    ]
  ]

  either-IsConsistent :
      (b : Bool) (r s : BeliefRuntime Forget)
      → IsConsistent r.quad
      → IsConsistent s.quad
      → IsConsistent (if b then r else s).quad
  either-IsConsistent true r s h k = h
  either-IsConsistent false r s h k = k

  insert_belief-IsConsistent :
      (rt : BeliefRuntime Forget) (n : BeliefNode)
      → IsConsistent rt.quad
      → IsConsistent (insert_belief rt n).0.quad
  unfolding insert_belief
  insert_belief-IsConsistent rt n h =
      let inserted : IsConsistent (with_core rt (insert rt.quad.core n).0).quad = record {
        current = insert-IsSynchronized rt.quad.core n h.current;
        saved = h.saved;
      } in
      let (core, id) = insert rt.quad.core n in
      let rt' : BeliefRuntime Forget = record (with_core rt core) {
        key_index = hash_insert ⦃e = string_eq⦄ rt.key_index n.key id;
      } in
      either-IsConsistent n.prospect _ rt' (index-IsConsistent rt' id _ inserted) inserted

  perform-IsConsistent :
      (c : Call) (rt : BeliefRuntime Forget) (w : World p.Json)
      → IsConsistent rt.quad
      → IsConsistent (perform c rt w).0.quad
  unfolding perform apply_system2_result checkpoint_now roll_back try_consume_system2_budget
      release_system2_budget record_system2_throttle seal_session
  perform-IsConsistent (insert_belief_call n) rt w h = insert_belief-IsConsistent rt n h
  perform-IsConsistent (update_belief_call u) rt w h = update_belief-IsConsistent rt w u h
  perform-IsConsistent (apply_system2_call id c) rt w h = record {
    current = modify-IsSynchronized rt.quad.core id _ h.current;
    saved = h.saved;
  }
  perform-IsConsistent (consume_call now) rt w h = h
  perform-IsConsistent release_call rt w h = h
  perform-IsConsistent throttle_call rt w h = h
  perform-IsConsistent (checkpoint_call fresh now) rt w h =
      checkpoint-IsConsistent rt.quad fresh now h
  perform-IsConsistent (rollback_call id) rt w h = rollback_to-IsConsistent rt.quad id h
  perform-IsConsistent finalize_call rt w h = h

  -- If the four graphs of a quad and of its stored checkpoints have exactly one node for each live
  -- belief and no other node, then through any sequence of insertions, updates, System 2 results,
  -- budget calls, checkpoints, rollbacks and finalizations, whether they succeed or fail, the quad
  -- and every stored checkpoint go on to have such graphs.
  pub session-IsConsistent :
      (cs : List Call) (rt : BeliefRuntime Forget) (w : World p.Json)
      → IsConsistent rt.quad
      → IsConsistent (session cs rt w).0.quad
  unfolding session
  session-IsConsistent [] rt w h = h
  session-IsConsistent (c ∷ cs) rt w h =
      session-IsConsistent cs (perform c rt w).0 (perform c rt w).1 (perform-IsConsistent c rt w h)
