-- ===== src/Contracts/Drift.antt =====
-- crates/epica-contracts/src/drift.rs, and `drift_bound` of contract.rs.
use epica.Prelude.{nat_beq, if◌then◌else◌, string_eq, nat_eq, list_eq, ℕ, Bool, true}
use epica.Quad.Platform.{Platform}
use epica.Contracts.Defs.{BehavioralContract}

pub record DriftBound ⦃p : Platform⦄ : Type 0 where
  pub alpha : p.F64
  pub gamma : p.F64
  pub expected_drift : p.F64
  pub gaussian_concentration : p.F64

module _ ⦃p : Platform⦄ where
  unfoldable pub expected : p.F64 → p.F64 → p.F64
  expected alpha gamma =
      if p.f64_lt (p.f64_of_nat 0) gamma then p.f64_div alpha gamma else p.f64_infinity

  unfoldable pub new_bound : p.F64 → p.F64 → DriftBound
  new_bound alpha gamma =
      let drift = expected alpha gamma in
      let clamped = p.f64_max (p.f64_min drift (p.f64_of_nat 1)) (p.f64_of_nat 0) in
      record {
        alpha = alpha;
        gamma = gamma;
        expected_drift = drift;
        gaussian_concentration =
            p.f64_sqrt (p.f64_mul clamped (p.f64_sub (p.f64_of_nat 1) clamped));
      }

  unfoldable pub satisfies : DriftBound → ℕ → ℕ → Bool
  satisfies b delta k =
      if nat_beq k 0
      then true
      else p.f64_le (p.f64_mul b.expected_drift (p.f64_of_nat k)) (p.f64_of_nat delta)

  unfoldable pub drift_bound : {Quad : Type 0} → BehavioralContract Quad → DriftBound
  drift_bound c = new_bound c.alpha c.gamma
