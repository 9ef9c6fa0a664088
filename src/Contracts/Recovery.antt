-- ===== src/Contracts/Recovery.antt =====
-- crates/epica-runtime/src/contract_engine.rs: after the first recovery of an update no other touches the quad.
use epica.Prelude.{
  string_eq, nat_eq, list_eq, Result-cases, ℕ, suc, ◌≡◌, refl, sym, ap, ◌∙◌, subst, inl, inr,
  Option, none, some, List, [], ◌∷◌, ok, err,
}
use epica.Quad.Platform.{Platform, SlotMap, Petgraph}
use epica.Quad.Checkpoint.{BeliefQuad}
use epica.Quad.Diff.{BeliefQuadDiff}
use epica.Sovereignty.Checks.{ViolationClass, soft, hard, critical, RecoveryVerificationResult}
use epica.Contracts.Defs.{
  ContractViolation, RecoveryPolicy, BehavioralContract, collect_all_violations,
}
use epica.Contracts.Engine.{
  ViolationLog, Turn, Step, and_then, recover, respond, handle, handle_all, enforce,
  RecoveryOutcome,
}
use epica.Contracts.Execution.{Shell, execute_recovery}

module _ ⦃p : Platform⦄ ⦃sm : SlotMap p.BeliefId⦄ ⦃pg : Petgraph p.BeliefId⦄ ⦃sh : Shell⦄
    (vr : BeliefQuad → RecoveryVerificationResult) where
  -- The quad and the outcome stay, if the step ends well.
  abbrev Stays : Turn → RecoveryOutcome → Step → Type 0
  Stays t o s = s.1 ≡ ok tt → (s.0.quad ≡ t.quad) × (s.0.outcome ≡ some o)

  respond-Stays :
      (c : BehavioralContract BeliefQuad) (v : ContractViolation) (t : Turn) (o : RecoveryOutcome)
      (class : ViolationClass)
      → t.outcome ≡ some o
      → Stays t o (respond vr c v t class)
  unfolding respond
  respond-Stays c v t o soft e h = (refl, e)
  respond-Stays c v t o hard e h = rw (e, respond) (refl, e)
  respond-Stays c v t o critical e h = cc

  and_then-Stays :
      (t : Turn) (o : RecoveryOutcome) (s rest : Step)
      → Stays t o s
      → (s.0.outcome ≡ some o → Stays s.0 o rest)
      → Stays t o (and_then s rest)
  and_then-Stays t o (u, err e) rest h k g = cc
  and_then-Stays t o (u, ok _) rest h k g =
      let (q, e) = h refl in let (q', e') = k e g in (q' ∙ q, e')

  handle_all-Stays :
      (c : BehavioralContract BeliefQuad) (vs : List ContractViolation) (t : Turn)
      (o : RecoveryOutcome)
      → t.outcome ≡ some o
      → Stays t o (handle_all vr c vs t)
  unfolding handle_all handle
  handle_all-Stays c [] t o e = λ h. (refl, e)
  handle_all-Stays c (v ∷ vs) t o e =
      let here = handle vr c v t in
      and_then-Stays t o here _ (respond-Stays c v t o v.class e)
        (λ e'. handle_all-Stays c vs here.0 o e')

  enforce-Stays :
      (last : Option p.Uuid) (draw : ℕ → ℕ → p.Uuid) (cs : List (BehavioralContract BeliefQuad))
      (t : Turn) (o : RecoveryOutcome)
      → t.outcome ≡ some o
      → Stays t o (enforce vr last draw cs t)
  unfolding enforce
  enforce-Stays last draw [] t o e = λ h. (refl, e)
  enforce-Stays last draw (c ∷ cs) t o e =
      let vs = collect_all_violations c t.quad last (draw 0) in
      let here = handle_all vr c vs t in
      and_then-Stays t o here _ (handle_all-Stays c vs t o e)
        (λ e'. enforce-Stays last (λ n. draw (suc n)) cs here.0 o e')

  -- The first hard violation of an update: what its recovery leaves is what the update leaves.
  recover-ok :
      (c : BehavioralContract BeliefQuad) (v : ContractViolation) (t : Turn)
      → (recover vr c v t).1 ≡ ok tt
      → (o : RecoveryOutcome) × ((recover vr c v t).0.outcome ≡ some o)
        × ((recover vr c v t).0.quad ≡ (execute_recovery t.quad v c.recovery).0)
        × ((d : Option BeliefQuadDiff × RecoveryPolicy) × ((execute_recovery t.quad v c.recovery).1
              ≡ ok d))
  unfolding recover
  recover-ok c v t h = elim (Result-cases (execute_recovery t.quad v c.recovery).1) [
    | inr (x, e) ↦ absurd (cc (rw (e, recover) at h))
    | inl ((d, applied), e) ↦ rw (e, recover) (_, refl, refl, ((d, applied), refl))
  ]

  and_then-first :
      (s rest : Step) → (and_then s rest).1 ≡ ok tt → (s.1 ≡ ok tt) × (and_then s rest ≡ rest)
  and_then-first (t, err e) rest h = cc
  and_then-first (t, ok u) rest h = (refl, refl)

  respond-first :
      (c : BehavioralContract BeliefQuad) (v : ContractViolation) (t : Turn)
      (class : ViolationClass)
      → class ≡ hard
      → t.outcome ≡ none
      → respond vr c v t class ≡ recover vr c v t
  unfolding respond
  respond-first c v t class e f = ap (respond vr c v t) e ∙ by_outcome t.quad t.log t.outcome f
    where
      by_outcome :
          (q : BeliefQuad) (log : ViolationLog) (o : Option RecoveryOutcome)
          → o ≡ none
          → respond vr c v (record { quad = q; log = log; outcome = o }) hard
            ≡ recover vr c v (record { quad = q; log = log; outcome = o })
      by_outcome q log none f = refl
      by_outcome q log (some x) f = absurd cc

  abbrev pub Recovers : BehavioralContract BeliefQuad → ContractViolation → Turn → Step → Type 0
  Recovers c v t s =
      (s.0.quad ≡ (execute_recovery t.quad v c.recovery).0)
      × ((d : Option BeliefQuadDiff × RecoveryPolicy) × ((execute_recovery t.quad v c.recovery).1
            ≡ ok d))

  handle_all-Recovers :
      (c : BehavioralContract BeliefQuad) (v : ContractViolation) (vs : List ContractViolation)
      (t : Turn)
      → t.outcome ≡ none
      → v.class ≡ hard
      → (handle_all vr c (v ∷ vs) t).1 ≡ ok tt
      → Recovers c v t (handle_all vr c (v ∷ vs) t)
        × ((o : RecoveryOutcome) × ((handle_all vr c (v ∷ vs) t).0.outcome ≡ some o))
  unfolding handle_all handle
  handle_all-Recovers c v vs t fresh class h =
      let here = handle vr c v t in
      let first : here ≡ recover vr c v t = respond-first c v t v.class class fresh in
      let (well, whole) = and_then-first here (handle_all vr c vs here.0) h in
      let (o, e, q, d) = recover-ok c v t (ap (λ s. s.1) (sym first) ∙ well) in
      let e' : here.0.outcome ≡ some o = ap (λ s. s.0.outcome) first ∙ e in
      let (q', e'') = handle_all-Stays c vs here.0 o e' (ap (λ s. s.1) (sym whole) ∙ h) in
      (
        (ap (λ s. s.0.quad) whole ∙ q' ∙ ap (λ s. s.0.quad) first ∙ q, d),
        (o, ap (λ s. s.0.outcome) whole ∙ e''),
      )

  pub enforce-Recovers :
      (last : Option p.Uuid) (draw : ℕ → ℕ → p.Uuid) (c : BehavioralContract BeliefQuad)
      (cs : List (BehavioralContract BeliefQuad)) (t : Turn) (v : ContractViolation)
      (vs : List ContractViolation)
      → t.outcome ≡ none
      → collect_all_violations c t.quad last (draw 0) ≡ v ∷ vs
      → v.class ≡ hard
      → (enforce vr last draw (c ∷ cs) t).1 ≡ ok tt
      → Recovers c v t (enforce vr last draw (c ∷ cs) t)
  unfolding enforce
  enforce-Recovers last draw c cs t v vs fresh found class =
      subst (λ l. (run l).1 ≡ ok tt → Recovers c v t (run l)) (sym found) listed
    where
      run : List ContractViolation → Step
      run l =
          and_then (handle_all vr c l t)
            (enforce vr last (λ n. draw (suc n)) cs (handle_all vr c l t).0)

      listed : (run (v ∷ vs)).1 ≡ ok tt → Recovers c v t (run (v ∷ vs))
      listed h =
          let here = handle_all vr c (v ∷ vs) t in
          let (well, whole) = and_then-first here _ h in
          let ((q, d), (o, e)) = handle_all-Recovers c v vs t fresh class well in
          let (q', _) =
            enforce-Stays last (λ n. draw (suc n)) cs here.0 o e (ap (λ s. s.1) (sym whole) ∙ h) in
          (ap (λ s. s.0.quad) whole ∙ q' ∙ q, d)
