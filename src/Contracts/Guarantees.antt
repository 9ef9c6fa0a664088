-- ===== src/Contracts/Guarantees.antt =====
-- crates/epica-runtime/src/contract_engine.rs: what the enforcement guarantees.
use epica.Ledger.Defs.{EntryEncoder, Blake3}
use epica.Contracts.Errors.{contract_halt}
use epica.Contracts.Engine.{
  verifier, Turn, RecoveryOutcome, recover, enforce, handle_all, handle, respond, Step, and_then,
  post_update, ViolationLog,
}
use epica.Contracts.Precheck.{first_failing, authorized, refuse}
use epica.Contracts.Execution.{Shell, execute_recovery}
use epica.Prelude.{
  string_eq, nat_eq, list_eq, Bool-cases, Option-cases, some_inj, all, IsListed, Result, ◌>>=◌,
  ok_inj, Result-cases, ℕ, zero, suc, ◌+◌, String, ◌≡◌, refl, sym, ap, ◌∙◌, ◌↔◌, inl, inr, true,
  false, Option, none, some, List, [], ◌∷◌, arith, ok, err,
}
use epica.Quad.Platform.{Platform, SlotMap, Petgraph}
use epica.Quad.Checkpoint.{BeliefQuad}
use epica.Sovereignty.Checks.{
  soft, hard, critical, RecoveryVerificationResult, MnemonicSovereignty, ViolationClass,
  ContractError,
}
use epica.Sovereignty.Emit.{AuditPolicy, World, Outside}
use epica.Contracts.Defs.{
  violations_of, collect_all_violations, SessionInvariant, ContractViolation, BehavioralContract,
  check_preconditions,
}

module _ ⦃p : Platform⦄ ⦃sm : SlotMap p.BeliefId⦄ ⦃pg : Petgraph p.BeliefId⦄ ⦃sh : Shell⦄ where
  -- One recovery is counted for a turn with an outcome, none for one without.
  abbrev pub recoveries : Option RecoveryOutcome → ℕ
  recoveries none = 0
  recoveries (some _) = 1

  IsCounted : ℕ → Turn → Type 0
  IsCounted n t = t.log.recovery_actions_taken ≡ n + recoveries t.outcome

  recover-IsCounted :
      (vr : BeliefQuad → RecoveryVerificationResult) (c : BehavioralContract BeliefQuad)
      (v : ContractViolation) (t : Turn) (n : ℕ)
      → t.outcome ≡ none
      → IsCounted n t
      → IsCounted n (recover vr c v t).0
  unfolding recover IsCounted
  recover-IsCounted vr c v t n o k = elim (Result-cases (execute_recovery t.quad v c.recovery).1) [
    | inl (a, h) ↦ rw (h, recover) (omega (arith, k, ap recoveries o))
    | inr (e, h) ↦ rw (h, recover) k
  ]

  handle-IsCounted :
      (vr : BeliefQuad → RecoveryVerificationResult) (c : BehavioralContract BeliefQuad)
      (v : ContractViolation) (t : Turn) (n : ℕ)
      → IsCounted n t
      → IsCounted n (handle vr c v t).0
  unfolding handle respond IsCounted
  handle-IsCounted vr c v t n k = by-class v.class
    where
      by-class : (x : ViolationClass) → IsCounted n (respond vr c v t x).0
      by-class soft = k
      by-class hard = elim (Option-cases t.outcome) [
        | inl o ↦ rw (o, respond) (recover-IsCounted vr c v t n o k)
        | inr (x, o) ↦ rw (o, respond) k
      ]
      by-class critical = k

  and_then-IsCounted :
      (n : ℕ) (s rest : Step)
      → IsCounted n s.0
      → IsCounted n rest.0
      → IsCounted n (and_then s rest).0
  and_then-IsCounted n (t, err e) rest a b = a
  and_then-IsCounted n (t, ok u) rest a b = b

  and_then-eq-ok : (s rest : Step) → (and_then s rest).1 ≡ ok tt → (s.1 ≡ ok tt) × (rest.1 ≡ ok tt)
  and_then-eq-ok (t, err e) rest h = cc
  and_then-eq-ok (t, ok u) rest h = (refl, h)

  handle_all-IsCounted :
      (vr : BeliefQuad → RecoveryVerificationResult) (c : BehavioralContract BeliefQuad)
      (vs : List ContractViolation) (t : Turn) (n : ℕ)
      → IsCounted n t
      → IsCounted n (handle_all vr c vs t).0
  unfolding handle_all
  handle_all-IsCounted vr c [] t n k = k
  handle_all-IsCounted vr c (v ∷ vs) t n k =
      let k' = handle-IsCounted vr c v t n k in
      and_then-IsCounted n (handle vr c v t) _ k'
        (handle_all-IsCounted vr c vs (handle vr c v t).0 n k')

  enforce-IsCounted :
      (vr : BeliefQuad → RecoveryVerificationResult) (last : Option p.Uuid) (draw : ℕ → ℕ → p.Uuid)
      (cs : List (BehavioralContract BeliefQuad)) (t : Turn) (n : ℕ)
      → IsCounted n t
      → IsCounted n (enforce vr last draw cs t).0
  unfolding enforce
  enforce-IsCounted vr last draw [] t n k = k
  enforce-IsCounted vr last draw (c ∷ cs) t n k =
      let here = handle_all vr c (collect_all_violations c t.quad last (draw 0)) t in
      let k' = handle_all-IsCounted vr c (collect_all_violations c t.quad last (draw 0)) t n k in
      and_then-IsCounted n here _ k' (enforce-IsCounted vr last (λ i. draw (suc i)) cs here.0 n k')

  violations_of-IsListed :
      (is : List (SessionInvariant BeliefQuad)) (quad : BeliefQuad) (last : Option p.Uuid)
      (draw : ℕ → p.Uuid) (inv : SessionInvariant BeliefQuad)
      → IsListed inv is
      → inv.predicate.evaluate quad ≡ false
      → (v : ContractViolation) × IsListed v (violations_of is quad last draw)
        × (v.class ≡ inv.class)
  unfolding violations_of
  violations_of-IsListed [] quad last draw inv (i, l) h = absurd cc
  violations_of-IsListed (x ∷ is) quad last draw inv (zero, l) h =
      let q : x ≡ inv = some_inj l in rw (q, h) (_, (0, refl), refl)
  violations_of-IsListed (x ∷ is) quad last draw inv (suc i, l) h =
      let (v, (j, at), cl) = violations_of-IsListed is quad last (λ n. draw (suc n)) inv (i, l) h in
      elim (Bool-cases (x.predicate.evaluate quad)) [
        | inl t ↦ rw t (v, (j, at), cl)
        | inr f ↦ rw f (v, (suc j, at), cl)
      ]

  handle_all-critical :
      (vr : BeliefQuad → RecoveryVerificationResult) (c : BehavioralContract BeliefQuad)
      (vs : List ContractViolation) (t : Turn) (v : ContractViolation)
      → IsListed v vs
      → v.class ≡ critical
      → ¬ ((handle_all vr c vs t).1 ≡ ok tt)
  unfolding handle_all handle respond
  handle_all-critical vr c [] t v (i, l) k h = absurd cc
  handle_all-critical vr c (x ∷ vs) t v (zero, l) k h =
      let halts : (handle vr c x t).1
          ≡ err (contract_halt c.domain x.invariant_description x.at_version) =
        ap (λ y. (respond vr c x t y).1) (ap (λ y. y.class) (some_inj l) ∙ k) in
      absurd (cc (halts, (and_then-eq-ok (handle vr c x t) _ h).0))
  handle_all-critical vr c (x ∷ vs) t v (suc i, l) k h =
      handle_all-critical vr c vs (handle vr c x t).0 v (i, l) k
        (and_then-eq-ok (handle vr c x t) _ h).1

  -- When the turn of a contract comes with a critical invariant that the quad violates, enforcement
  -- of that contract and those after it ends in an error.
  pub critical-halts :
      (vr : BeliefQuad → RecoveryVerificationResult) (last : Option p.Uuid) (draw : ℕ → ℕ → p.Uuid)
      (c : BehavioralContract BeliefQuad) (cs : List (BehavioralContract BeliefQuad)) (t : Turn)
      (inv : SessionInvariant BeliefQuad)
      → IsListed inv c.invariants
      → inv.class ≡ critical
      → inv.predicate.evaluate t.quad ≡ false
      → ¬ ((enforce vr last draw (c ∷ cs) t).1 ≡ ok tt)
  unfolding enforce collect_all_violations
  critical-halts vr last draw c cs t inv l k f h =
      let (v, at, cl) = violations_of-IsListed c.invariants t.quad last (draw 0) inv l f in
      handle_all-critical vr c (violations_of c.invariants t.quad last (draw 0)) t v at (cl ∙ k)
        (and_then-eq-ok (handle_all vr c (violations_of c.invariants t.quad last (draw 0)) t) _ h).0

  violations_of-none :
      (is : List (SessionInvariant BeliefQuad)) (quad : BeliefQuad) (last : Option p.Uuid)
      (draw : ℕ → p.Uuid)
      → all (λ i. i.predicate.evaluate quad) is ≡ true
      → violations_of is quad last draw ≡ []
  unfolding violations_of
  violations_of-none [] quad last draw h = refl
  violations_of-none (x ∷ is) quad last draw h = elim (Bool-cases (x.predicate.evaluate quad)) [
    | inl t ↦ rw t (violations_of-none is quad last (λ n. draw (suc n)) (ground (arith, t, h)))
    | inr f ↦ absurd (ground (arith, f, h))
  ]

  -- If every invariant of every contract holds of the quad, enforcement succeeds and leaves the
  -- quad, the violation log and the outcome as they were.
  pub enforce-satisfied :
      (vr : BeliefQuad → RecoveryVerificationResult) (last : Option p.Uuid) (draw : ℕ → ℕ → p.Uuid)
      (cs : List (BehavioralContract BeliefQuad)) (t : Turn)
      → all (λ c. all (λ i. i.predicate.evaluate t.quad) c.invariants) cs ≡ true
      → enforce vr last draw cs t ≡ (t, ok tt)
  unfolding enforce handle_all collect_all_violations
  enforce-satisfied vr last draw [] t h = refl
  enforce-satisfied vr last draw (c ∷ cs) t h =
      elim (Bool-cases (all (λ i. i.predicate.evaluate t.quad) c.invariants)) [
        | inl y ↦
            rw (violations_of-none c.invariants t.quad last (draw 0) y)
              (enforce-satisfied vr last (λ n. draw (suc n)) cs t (ground (arith, y, h)))
        | inr f ↦ absurd (ground (arith, f, h))
      ]

  pub first_failing-none :
      (cs : List (BehavioralContract BeliefQuad)) (quad : BeliefQuad)
      → (first_failing cs quad ≡ none) ↔ (all (λ c. check_preconditions c quad) cs ≡ true)
  unfolding first_failing
  first_failing-none [] quad = (λ h. refl, λ h. refl)
  first_failing-none (c ∷ cs) quad = elim (Bool-cases (check_preconditions c quad)) [
    | inl t ↦ rw t (first_failing-none cs quad)
    | inr f ↦ rw f (λ h. absurd cc, λ h. absurd cc)
  ]

  pub gate_iff :
      (r : Result ContractError (Unit {0})) (o : Option String) (key : String)
      → ((authorized r >>= λ _. refuse o key) ≡ ok tt) ↔ ((r ≡ ok tt) × (o ≡ none))
  gate_iff (err e) o key = (λ h. cc, λ (a, n). cc)
  gate_iff (ok u) none key = (λ h. (refl, refl), λ h. refl)
  gate_iff (ok u) (some d) key = (λ h. cc, λ (a, n). cc)

module _ ⦃p : Platform⦄ ⦃sm : SlotMap p.BeliefId⦄ ⦃pg : Petgraph p.BeliefId⦄ ⦃sh : Shell⦄
    ⦃ser : EntryEncoder p.Json⦄ ⦃b3 : Blake3⦄ ⦃out : Outside p.Json⦄ {Forget : Type 0} where
  -- When the checks after an update succeed, the log counts exactly one recovery more if they report
  -- an outcome, and none otherwise.
  pub post_update-recovers :
      (sov : Option (MnemonicSovereignty BeliefQuad Forget AuditPolicy))
      (cs : List (BehavioralContract BeliefQuad)) (quad : BeliefQuad) (log : ViolationLog)
      (w : World p.Json) (last : Option p.Uuid) (key agent : String) (now_ms : ℕ)
      (draw : ℕ → ℕ → p.Uuid) {o : Option RecoveryOutcome}
      → (post_update sov cs quad log w last key agent now_ms draw).3 ≡ ok o
      → (post_update sov cs quad log w last key agent now_ms draw).1.recovery_actions_taken
        ≡ log.recovery_actions_taken + recoveries o
  unfolding post_update IsCounted
  post_update-recovers sov cs quad log w last key agent now_ms draw {o} h =
      let start : Turn = record { quad = quad; log = log; outcome = none } in
      let k =
        enforce-IsCounted (verifier sov) last draw cs start log.recovery_actions_taken
          (omega arith) in
      let run = enforce (verifier sov) last draw cs start in
      elim (Result-cases run.1) [
        | inl (u, e) ↦
            let end : (post_update sov cs quad log w last key agent now_ms draw).3
                ≡ ok run.0.outcome =
              rw (e, post_update) refl in
            let same : run.0.outcome ≡ o = ok_inj (sym end ∙ h) in
            rw (e, post_update) (k ∙ ap (λ x. log.recovery_actions_taken + recoveries x) same)
        | inr (x, e) ↦
            let end : (post_update sov cs quad log w last key agent now_ms draw).3 ≡ err x =
              rw (e, post_update) refl in
            absurd (cc (end, h))
      ]
