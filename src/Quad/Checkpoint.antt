-- ===== src/Quad/Checkpoint.antt =====
-- crates/epica-core/src/checkpoint/types.rs and ops.rs. A snapshot's own list of checkpoints is cleared
-- when it is taken, so a snapshot is a quad without one.
use epica.Quad.Store.{Core}
use epica.Quad.Diff.{BeliefQuadDiff, diff, has_contradictions, has_contradictions-diff_same}
use epica.Quad.Platform.{Platform, SlotMap, Petgraph}
use epica.Prelude.{
  if◌then◌else◌, string_eq, nat_eq, list_eq, Bool-cases, length, Result, ℕ, ◌≡◌, refl, inl, inr,
  not, Option, none, some, List, [], ◌∷◌, ◌++◌, arith, ok, err,
}

pub record BeliefQuadCheckpoint ⦃p : Platform⦄ ⦃sm : SlotMap p.BeliefId⦄ ⦃pg : Petgraph p.BeliefId⦄
    : Type 0 where
  pub id : p.Uuid
  pub version : ℕ
  pub timestamp_ms : ℕ
  pub quad : Core

pub record BeliefQuad ⦃p : Platform⦄ ⦃sm : SlotMap p.BeliefId⦄ ⦃pg : Petgraph p.BeliefId⦄
    : Type 0 where
  pub core : Core
  pub checkpoints : List BeliefQuadCheckpoint

pub data RollbackError ⦃p : Platform⦄ : Type 0 where
  checkpoint_not_found : p.Uuid → RollbackError
  unnecessary_contraction : BeliefQuadDiff → RollbackError

module _ ⦃p : Platform⦄ ⦃sm : SlotMap p.BeliefId⦄ ⦃pg : Petgraph p.BeliefId⦄ where
  unfoldable pub capture : BeliefQuad → p.Uuid → ℕ → BeliefQuadCheckpoint
  capture q fresh now_ms = record {
    id = fresh;
    version = q.core.version;
    timestamp_ms = now_ms;
    quad = q.core;
  }

  unfoldable pub checkpoint : BeliefQuad → p.Uuid → ℕ → BeliefQuad × p.Uuid
  checkpoint q fresh now_ms =
      let cp = capture q fresh now_ms in
      (record { core = q.core; checkpoints = q.checkpoints ++ cp ∷ [] }, cp.id)

  unfoldable pub find_checkpoint : List BeliefQuadCheckpoint → p.Uuid → Option BeliefQuadCheckpoint
  find_checkpoint [] id = none
  find_checkpoint (c ∷ cs) id = if p.uuid_eq.beq c.id id then some c else find_checkpoint cs id

  unfoldable pub checkpoint_by_id : BeliefQuad → p.Uuid → Option BeliefQuadCheckpoint
  checkpoint_by_id q id = find_checkpoint q.checkpoints id

  unfoldable pub rollback_to :
      BeliefQuad → p.Uuid → BeliefQuad × Result RollbackError BeliefQuadDiff
  rollback_to q checkpoint_id = elim (find_checkpoint q.checkpoints checkpoint_id) [
    | none ↦ (q, err (checkpoint_not_found checkpoint_id))
    | some cp ↦
        let d = diff q.core cp.quad in
        if not (has_contradictions d)
        then (q, err (unnecessary_contraction d))
        else (record { core = cp.quad; checkpoints = [] }, ok d)
  ]

  unfoldable pub clear_checkpoints : BeliefQuad → BeliefQuad
  clear_checkpoints q = record { core = q.core; checkpoints = [] }

  unfoldable pub checkpoint_count : BeliefQuad → ℕ
  checkpoint_count q = length q.checkpoints

  pub find_checkpoint-snoc :
      (cs : List BeliefQuadCheckpoint) (c : BeliefQuadCheckpoint)
      → find_checkpoint cs c.id ≡ none
      → find_checkpoint (cs ++ c ∷ []) c.id ≡ some c
  unfolding find_checkpoint
  find_checkpoint-snoc [] c h = rw ((p.uuid_eq.beq_iff c.id c.id).1 refl) refl
  find_checkpoint-snoc (x ∷ cs) c h = elim (Bool-cases (p.uuid_eq.beq x.id c.id)) [
    | inl t ↦ absurd (ground (arith, t, h))
    | inr f ↦ rw f (find_checkpoint-snoc cs c (ground (arith, f, h)))
  ]

  -- A rollback to a checkpoint that was only just taken, under an id that no stored checkpoint has,
  -- is refused as an unnecessary contraction and changes nothing.
  pub rollback_to-unchanged :
      (q : BeliefQuad) (fresh : p.Uuid) (now_ms : ℕ)
      → find_checkpoint q.checkpoints fresh ≡ none
      → rollback_to (checkpoint q fresh now_ms).0 fresh
        ≡ ((checkpoint q fresh now_ms).0, err (unnecessary_contraction (diff q.core q.core)))
  unfolding rollback_to checkpoint capture
  rollback_to-unchanged q fresh now_ms h =
      rw
        (
          find_checkpoint-snoc q.checkpoints (capture q fresh now_ms) h,
          rollback_to,
          has_contradictions-diff_same q.core q.core refl,
        )
        refl
