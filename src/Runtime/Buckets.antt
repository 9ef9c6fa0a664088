-- ===== src/Runtime/Buckets.antt =====
-- crates/epica-runtime/src/runtime.rs: the operations that leave the System 2 budget alone.
use Prim.Native.String.{String}
use epica.Prelude.{
  if◌then◌else◌, string_eq, nat_eq, list_eq, Option-cases, Result-cases, ◌≡◌, refl, inl, inr, Bool,
  true, false, some,
}
use epica.Quad.Platform.{Platform, SlotMap, Petgraph, id_eq}
use epica.Quad.Value.{BeliefNode}
use epica.Quad.Store.{insert}
use epica.Quad.System1.{propagate_system1}
use epica.Quad.Revision.{RevisionRecord, revise}
use epica.Quad.Checkpoint.{BeliefQuad, checkpoint}
use epica.Quad.HashMap.{hash_insert}
use epica.Ledger.Defs.{EntryEncoder, Blake3}
use epica.Sovereignty.Emit.{World, Outside}
use epica.Contracts.Engine.{post_update}
use epica.Contracts.Precheck.{pre_update}
use epica.Contracts.Execution.{Shell}
use epica.Runtime.Governance.{track_token_usage}
use epica.Runtime.Beliefs.{
  BeliefRuntime, insert_belief, index_belief_prospective, key_of, with_core,
}
use epica.Runtime.Update.{
  Change, update_belief, admit, commit, settle, finish, token_limit, revision_of,
}

module _ ⦃p : Platform⦄ ⦃sm : SlotMap p.BeliefId⦄ ⦃pg : Petgraph p.BeliefId⦄ ⦃sh : Shell⦄
    ⦃ser : EntryEncoder p.Json⦄ ⦃b3 : Blake3⦄ ⦃out : Outside p.Json⦄ {Forget : Type 0} where
  settle-bucket :
      (rt : BeliefRuntime Forget) (w : World p.Json) (u : Change) (key : String) (q : BeliefQuad)
      (cp : p.Uuid) (rec : RevisionRecord)
      → (settle rt w u key q cp rec).0.reflection_budget ≡ rt.reflection_budget
  unfolding settle finish
  settle-bucket rt w u key q cp rec =
      let engine = rt.contract_engine in
      elim (Result-cases
        (post_update engine.sovereignty engine.contracts
          (record { core = propagate_system1 u.clock q.core u.id; checkpoints = q.checkpoints })
          engine.violation_log w (some cp) key "system" u.audit_ms u.violation_ids).3) [
            | inl (o, e) ↦ rw (e, settle) refl
            | inr (x, e) ↦ rw (e, settle) refl
          ]

  commit-bucket :
      (rt : BeliefRuntime Forget) (w : World p.Json) (u : Change) (key : String)
      → (commit rt w u key).0.reflection_budget ≡ rt.reflection_budget
  unfolding commit
  commit-bucket rt w u key =
      let q = (checkpoint rt.quad u.checkpoint_id u.checkpoint_ms).0 in
      elim (Result-cases (revise q.core (revision_of u)).1) [
        | inl (rec, e) ↦ rw (e, commit) (settle-bucket rt w u key _ _ rec)
        | inr (x, e) ↦ rw (e, commit) refl
      ]

  pub update_belief-bucket :
      (rt : BeliefRuntime Forget) (w : World p.Json) (u : Change)
      → (update_belief rt w u).0.reflection_budget ≡ rt.reflection_budget
  unfolding update_belief admit
  update_belief-bucket rt w u =
      let key = key_of rt.quad.core u.id in
      let engine = rt.contract_engine in
      elim (Result-cases (pre_update engine.sovereignty engine.contracts rt.quad key "system")) [
        | inr (x, e) ↦ rw (e, update_belief) refl
        | inl (o, e) ↦
            elim (Result-cases
              (track_token_usage rt.governance_tracker (token_limit engine.contracts)).1) [
                | inr (x, f) ↦ rw (e, f, update_belief, admit) refl
                | inl (o', f) ↦ rw (e, f, update_belief, admit) (commit-bucket _ w u key)
              ]
      ]

  index-bucket :
      (rt : BeliefRuntime Forget) (id : p.BeliefId) (repr : String)
      → (index_belief_prospective rt id repr).reflection_budget ≡ rt.reflection_budget
  unfolding index_belief_prospective
  index-bucket rt id repr = elim (Option-cases rt.prospective_client) [
    | inl e ↦ rw (e, index_belief_prospective) refl
    | inr (generate, e) ↦ elim (Option-cases rt.embedder) [
      | inl f ↦ rw (e, f, index_belief_prospective) refl
      | inr (embed, f) ↦ elim (Result-cases (generate (key_of rt.quad.core id) repr)) [
        | inr (x, g) ↦ rw (e, f, g, index_belief_prospective) refl
        | inl (raw, g) ↦ rw (e, f, g, index_belief_prospective) refl
      ]
    ]
  ]

  either-bucket :
      (b : Bool) (r s : BeliefRuntime Forget)
      → r.reflection_budget ≡ s.reflection_budget
      → (if b then r else s).reflection_budget ≡ s.reflection_budget
  either-bucket true r s h = h
  either-bucket false r s h = refl

  pub insert_belief-bucket :
      (rt : BeliefRuntime Forget) (n : BeliefNode)
      → (insert_belief rt n).0.reflection_budget ≡ rt.reflection_budget
  unfolding insert_belief
  insert_belief-bucket rt n =
      let (core, id) = insert rt.quad.core n in
      let rt' : BeliefRuntime Forget = record (with_core rt core) {
        key_index = hash_insert ⦃e = string_eq⦄ rt.key_index n.key id;
      } in
      either-bucket n.prospect _ rt' (index-bucket rt' id _)
