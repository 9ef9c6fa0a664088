-- ===== src/Runtime/Report.antt =====
-- crates/epica-runtime/src/session.rs and `session_report` of runtime.rs, with the counts of contract_engine.rs.
use epica.Prelude.{
  string_eq, nat_eq, list_eq, Bool-cases, Option-cases, length, length-map, ℕ, suc, ◌≤◌, ◌≡◌, refl,
  ap, ◌∙◌, subst, inl, inr, Bool, true, false, Option, none, some, List, [], ◌∷◌, map, arith,
}
use epica.Quad.Platform.{Platform, SlotMap, Petgraph, id_eq}
use epica.Contracts.Drift.{DriftBound, drift_bound}
use epica.Contracts.Engine.{ViolationLog}
use epica.Runtime.History.{
  assumed, finalize_session, finalize_record, as_tece_input-finalize_session, ConfidenceRecord,
  as_tece_input, tece_pairs, finalize_record, finalize_session,
}
use epica.Runtime.History
use epica.Runtime.Tece.{compute}
use epica.Runtime.Beliefs.{seal_session, BeliefRuntime, ContractEngine}

pub record SessionReport ⦃p : Platform⦄ : Type 0 where
  pub tece : Option p.F32
  pub total_revisions : ℕ
  pub contradictions_detected : ℕ
  pub system2_activations : ℕ
  pub system2_throttled : ℕ
  pub calibration_target_met : Bool
  pub soft_violations : ℕ
  pub hard_violations : ℕ
  pub critical_violations : ℕ
  pub recovery_actions_taken : ℕ
  pub drift_bounds : List DriftBound
  pub governance_tokens_used : ℕ

module _ ⦃p : Platform⦄ where
  unfoldable pub contradictions : List (p.F32 × Bool) → ℕ
  contradictions [] = 0
  contradictions ((c, true) ∷ pairs) = contradictions pairs
  contradictions ((c, false) ∷ pairs) = suc (contradictions pairs)

  unfoldable pub is_calibrated : Option p.F32 → Bool
  is_calibrated none = true
  is_calibrated (some t) = p.lt t p.tece_target

  unfoldable pub violation_counts : ViolationLog → ℕ × ℕ × ℕ × ℕ
  violation_counts log =
      (length log.soft, length log.hard, length log.critical, log.recovery_actions_taken)

module _ ⦃p : Platform⦄ where
  abbrev Counted : List (ConfidenceRecord p.BeliefId p.F32) → Type 0
  Counted rs =
      (contradictions (map assumed rs) ≡ contradictions (tece_pairs rs))
      × (contradictions (map assumed rs) ≤ length rs)

  contradictions-Counted : (rs : List (ConfidenceRecord p.BeliefId p.F32)) → Counted rs
  unfolding contradictions tece_pairs assumed
  contradictions-Counted [] = (refl, omega arith)
  contradictions-Counted (r ∷ rs) =
      let (same, few) = contradictions-Counted rs in
      elim (Option-cases r.was_correct) [
        | inl n ↦ rw (n, tece_pairs, assumed) (same, omega (arith, few))
        | inr (c, s) ↦ elim (Bool-cases c) [
          | inl t ↦ rw (s, t, tece_pairs, assumed) (same, omega (arith, few))
          | inr f ↦ rw (s, f, tece_pairs, assumed) (ap suc same, omega (arith, few))
        ]
      ]

module _ ⦃p : Platform⦄ ⦃sm : SlotMap p.BeliefId⦄ ⦃pg : Petgraph p.BeliefId⦄ {Forget : Type 0} where
  unfoldable pub drift_bounds : ContractEngine Forget → List DriftBound
  drift_bounds engine = map drift_bound engine.contracts

  unfoldable pub session_report : BeliefRuntime Forget → SessionReport
  session_report rt =
      let pairs = as_tece_input rt.confidence_history in
      let tece = compute pairs in
      let (soft, hard, critical, recovery) = violation_counts rt.contract_engine.violation_log in
      record {
        tece = tece;
        total_revisions = History.len rt.confidence_history;
        contradictions_detected = contradictions pairs;
        system2_activations = rt.system2_activations;
        system2_throttled = rt.system2_throttled;
        calibration_target_met = is_calibrated tece;
        soft_violations = soft;
        hard_violations = hard;
        critical_violations = critical;
        recovery_actions_taken = recovery;
        drift_bounds = drift_bounds rt.contract_engine;
        governance_tokens_used = rt.governance_tracker.tokens_used;
      }

  -- Sealing a session changes neither how many revisions nor how many contradictions its report counts, and
  -- the second number is at most the first.
  session_report-seal_session :
      (rt : BeliefRuntime Forget)
      → ((session_report (seal_session rt)).total_revisions ≡ (session_report rt).total_revisions)
        × ((session_report (seal_session rt)).contradictions_detected
            ≡ (session_report rt).contradictions_detected)
        × ((session_report rt).contradictions_detected ≤ (session_report rt).total_revisions)
  unfolding session_report seal_session as_tece_input finalize_session History.len
  session_report-seal_session rt =
      let rs = rt.confidence_history.records in
      let (same, few) = contradictions-Counted rs in
      let sealed = (as_tece_input-finalize_session rt.confidence_history).0 in
      (
        length-map rs finalize_record,
        ap contradictions sealed ∙ same,
        subst (λ n. n ≤ length rs) same few,
      )
