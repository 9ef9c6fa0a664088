-- ===== src/Contracts/Keeps.antt =====
-- crates/epica-runtime/src/contract_engine.rs: what the recovery keeps of the quad, the checks after an
-- update keep too, whatever they find and however they end.
use epica.Prelude.{
  string_eq, nat_eq, list_eq, Option-cases, Result-cases, ℕ, suc, String, inl, inr, Option, none,
  List, [], ◌∷◌, ok, err,
}
use epica.Quad.Platform.{Platform, SlotMap, Petgraph}
use epica.Quad.Checkpoint.{BeliefQuad}
use epica.Ledger.Defs.{EntryEncoder, Blake3}
use epica.Sovereignty.Checks.{
  ViolationClass, soft, hard, critical, MnemonicSovereignty, RecoveryVerificationResult,
}
use epica.Sovereignty.Emit.{AuditPolicy, World, Outside}
use epica.Contracts.Defs.{
  ContractViolation, RecoveryPolicy, BehavioralContract, collect_all_violations,
}
use epica.Contracts.Engine.{
  ViolationLog, Turn, Step, and_then, recover, respond, handle, handle_all, enforce, post_update,
  verifier,
}
use epica.Contracts.Execution.{Shell, execute_recovery}

module _ ⦃p : Platform⦄ ⦃sm : SlotMap p.BeliefId⦄ ⦃pg : Petgraph p.BeliefId⦄ ⦃sh : Shell⦄
    (P : BeliefQuad → Type 0)
    (keep : (q : BeliefQuad) (v : ContractViolation) (r : RecoveryPolicy)
      → P q
      → P (execute_recovery q v r).0) where
  recover-keeps :
      (vr : BeliefQuad → RecoveryVerificationResult) (c : BehavioralContract BeliefQuad)
      (v : ContractViolation) (t : Turn)
      → P t.quad
      → P (recover vr c v t).0.quad
  unfolding recover
  recover-keeps vr c v t h = elim (Result-cases (execute_recovery t.quad v c.recovery).1) [
    | inl ((d, applied), e) ↦ rw (e, recover) (keep t.quad v c.recovery h)
    | inr (x, e) ↦ rw (e, recover) (keep t.quad v c.recovery h)
  ]

  respond-keeps :
      (vr : BeliefQuad → RecoveryVerificationResult) (c : BehavioralContract BeliefQuad)
      (v : ContractViolation) (t : Turn) (class : ViolationClass)
      → P t.quad
      → P (respond vr c v t class).0.quad
  unfolding respond
  respond-keeps vr c v t soft h = h
  respond-keeps vr c v t critical h = h
  respond-keeps vr c v t hard h = elim (Option-cases t.outcome) [
    | inl e ↦ rw (e, respond) (recover-keeps vr c v t h)
    | inr (x, e) ↦ rw (e, respond) h
  ]

  and_then-keeps : (s rest : Step) → P s.0.quad → P rest.0.quad → P (and_then s rest).0.quad
  and_then-keeps (t, err e) rest h k = h
  and_then-keeps (t, ok u) rest h k = k

  handle_all-keeps :
      (vr : BeliefQuad → RecoveryVerificationResult) (c : BehavioralContract BeliefQuad)
      (vs : List ContractViolation) (t : Turn)
      → P t.quad
      → P (handle_all vr c vs t).0.quad
  unfolding handle_all handle
  handle_all-keeps vr c [] t h = h
  handle_all-keeps vr c (v ∷ vs) t h =
      let h' = respond-keeps vr c v t v.class h in
      and_then-keeps (handle vr c v t) _ h' (handle_all-keeps vr c vs (handle vr c v t).0 h')

  enforce-keeps :
      (vr : BeliefQuad → RecoveryVerificationResult) (last : Option p.Uuid) (draw : ℕ → ℕ → p.Uuid)
      (cs : List (BehavioralContract BeliefQuad)) (t : Turn)
      → P t.quad
      → P (enforce vr last draw cs t).0.quad
  unfolding enforce
  enforce-keeps vr last draw [] t h = h
  enforce-keeps vr last draw (c ∷ cs) t h =
      let here = handle_all vr c (collect_all_violations c t.quad last (draw 0)) t in
      let h' = handle_all-keeps vr c (collect_all_violations c t.quad last (draw 0)) t h in
      and_then-keeps here _ h' (enforce-keeps vr last (λ i. draw (suc i)) cs here.0 h')

  module _ ⦃ser : EntryEncoder p.Json⦄ ⦃b3 : Blake3⦄ ⦃out : Outside p.Json⦄ {Forget : Type 0} where
    pub post_update-keeps :
        (sov : Option (MnemonicSovereignty BeliefQuad Forget AuditPolicy))
        (cs : List (BehavioralContract BeliefQuad)) (q : BeliefQuad) (log : ViolationLog)
        (w : World p.Json) (last : Option p.Uuid) (key agent : String) (now : ℕ)
        (draw : ℕ → ℕ → p.Uuid)
        → P q
        → P (post_update sov cs q log w last key agent now draw).0
    unfolding post_update
    post_update-keeps sov cs q log w last key agent now draw h =
        let t : Turn = record { quad = q; log = log; outcome = none } in
        let k = enforce-keeps (verifier sov) last draw cs t h in
        elim (Result-cases (enforce (verifier sov) last draw cs t).1) [
          | inl (u, e) ↦ rw (e, post_update) k
          | inr (x, e) ↦ rw (e, post_update) k
        ]
