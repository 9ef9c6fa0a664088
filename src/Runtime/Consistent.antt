-- ===== src/Runtime/Consistent.antt =====
-- crates/epica-runtime/src/runtime.rs: every operation keeps the quad, and every checkpoint of it, in step
-- with its four graphs.
use epica.Prelude.{
  string_eq, nat_eq, list_eq, Bool-cases, Option-cases, some_inj, ℕ, ◌≡◌, inl, inr, none, some,
  List, [], ◌∷◌, ◌++◌,
}
use epica.Quad.Platform.{Platform, SlotMap, Petgraph, id_eq}
use epica.Quad.Value.{BeliefNode}
use epica.Quad.Store.{Core}
use epica.Quad.Diff.{diff, has_contradictions}
use epica.Quad.Synchronized.{IsSynchronized, modify-IsSynchronized}
use epica.Quad.Checkpoint.{
  BeliefQuad, BeliefQuadCheckpoint, checkpoint, find_checkpoint, rollback_to, capture,
}
use epica.Contracts.Defs.{
  ContractViolation, RecoveryPolicy, rollback_to_last_checkpoint, rollback_to_version,
  rollback_to_checkpoint, degrade_and_continue, emit_causal_diff_and_halt,
}
use epica.Contracts.Execution.{Shell, execute_recovery, degrade, latest_until}

module _ ⦃p : Platform⦄ ⦃sm : SlotMap p.BeliefId⦄ ⦃pg : Petgraph p.BeliefId⦄ where
  abbrev pub AllSynchronized : List BeliefQuadCheckpoint → Type 0
  AllSynchronized [] = Unit
  AllSynchronized (c ∷ cs) = IsSynchronized c.quad × AllSynchronized cs

  pub record IsConsistent (q : BeliefQuad) : Type 0 where
    pub current : IsSynchronized q.core
    pub saved : AllSynchronized q.checkpoints

  AllSynchronized-append :
      (cs : List BeliefQuadCheckpoint) (c : BeliefQuadCheckpoint)
      → AllSynchronized cs
      → IsSynchronized c.quad
      → AllSynchronized (cs ++ c ∷ [])
  AllSynchronized-append [] c a s = (s, tt)
  AllSynchronized-append (x ∷ cs) c a s = (a.0, AllSynchronized-append cs c a.1 s)

  find_checkpoint-IsSynchronized :
      (cs : List BeliefQuadCheckpoint) (id : p.Uuid) {c : BeliefQuadCheckpoint}
      → AllSynchronized cs
      → find_checkpoint cs id ≡ some c
      → IsSynchronized c.quad
  unfolding find_checkpoint
  find_checkpoint-IsSynchronized [] id a h = absurd cc
  find_checkpoint-IsSynchronized (x ∷ cs) id {c} a h = elim (Bool-cases (p.uuid_eq.beq x.id id)) [
    | inl t ↦ let e : x ≡ c = some_inj (rw t at h) in rw⁻¹ e a.0
    | inr f ↦ find_checkpoint-IsSynchronized cs id a.1 (rw f at h)
  ]

  pub checkpoint-IsConsistent :
      (q : BeliefQuad) (fresh : p.Uuid) (now_ms : ℕ)
      → IsConsistent q
      → IsConsistent (checkpoint q fresh now_ms).0
  unfolding checkpoint capture
  checkpoint-IsConsistent q fresh now_ms h = record {
    current = h.current;
    saved = AllSynchronized-append q.checkpoints _ h.saved h.current;
  }

  pub rollback_to-IsConsistent :
      (q : BeliefQuad) (id : p.Uuid) → IsConsistent q → IsConsistent (rollback_to q id).0
  unfolding rollback_to
  rollback_to-IsConsistent q id h = elim (Option-cases (find_checkpoint q.checkpoints id)) [
    | inl n ↦ rw (n, rollback_to) h
    | inr (c, e) ↦ elim (Bool-cases (has_contradictions (diff q.core c.quad))) [
      | inr f ↦ rw (e, f, rollback_to) h
      | inl t ↦
          rw (e, t, rollback_to)
            (record {
              current = find_checkpoint-IsSynchronized q.checkpoints id h.saved e;
              saved = tt;
            })
    ]
  ]

module _ ⦃p : Platform⦄ ⦃sm : SlotMap p.BeliefId⦄ ⦃pg : Petgraph p.BeliefId⦄ ⦃sh : Shell⦄ where
  degrade-IsSynchronized :
      (floor : p.F32) (ns : List (p.BeliefId × BeliefNode)) (q : Core)
      → IsSynchronized q
      → IsSynchronized (degrade floor ns q)
  unfolding degrade
  degrade-IsSynchronized floor [] q s = s
  degrade-IsSynchronized floor ((id, n) ∷ ns) q s =
      degrade-IsSynchronized floor ns _ (modify-IsSynchronized q id _ s)

  pub execute_recovery-IsConsistent :
      (q : BeliefQuad) (v : ContractViolation) (r : RecoveryPolicy)
      → IsConsistent q
      → IsConsistent (execute_recovery q v r).0
  unfolding execute_recovery
  execute_recovery-IsConsistent q v rollback_to_last_checkpoint h =
      elim (Option-cases v.last_valid_checkpoint) [
        | inl n ↦ rw (n, execute_recovery) h
        | inr (cp, e) ↦ rw (e, execute_recovery) (rollback_to-IsConsistent q cp h)
      ]
  execute_recovery-IsConsistent q v (rollback_to_checkpoint cp) h = rollback_to-IsConsistent q cp h
  execute_recovery-IsConsistent q v (rollback_to_version n) h =
      elim (Option-cases (latest_until n none q.checkpoints)) [
        | inl e ↦ rw (e, execute_recovery) h
        | inr (c, e) ↦ rw (e, execute_recovery) (rollback_to-IsConsistent q c.id h)
      ]
  execute_recovery-IsConsistent q v (degrade_and_continue floor) h = record {
    current = degrade-IsSynchronized floor (sm.iter q.core.nodes) q.core h.current;
    saved = h.saved;
  }
  execute_recovery-IsConsistent q v emit_causal_diff_and_halt h = h
