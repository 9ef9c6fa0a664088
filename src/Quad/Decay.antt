-- ===== src/Quad/Decay.antt =====
-- crates/epica-core/src/quad/temporal.rs, `compute_decay`, and `decay_factor` of quad/mod.rs.
use epica.Prelude.{nat_beq, if◌then◌else◌, string_eq, nat_eq, list_eq, ℕ, ◌-◌, Option, none, some}
use epica.Quad.Platform.{Platform, SlotMap, Petgraph}
use epica.Quad.Store.{Core, get}

module _ ⦃p : Platform⦄ where
  unfoldable pub compute_decay : ℕ → Option ℕ → ℕ → p.F32
  compute_decay created_at_ms none current_ms = p.one
  compute_decay created_at_ms (some ttl) current_ms =
      if nat_beq ttl 0
      then p.zero
      else (let elapsed = p.f64_of_nat (current_ms - created_at_ms) in
          let lambda = p.f64_div (p.f64_of_nat 1) (p.f64_of_nat ttl) in
          p.clamp_unit (p.to_f32 (p.f64_exp (p.f64_mul (p.f64_neg lambda) elapsed))))

module _ ⦃p : Platform⦄ ⦃sm : SlotMap p.BeliefId⦄ ⦃pg : Petgraph p.BeliefId⦄ where
  unfoldable pub decay_factor : Core → p.BeliefId → ℕ → p.F32
  decay_factor q id current_ms = elim (get q id) [
    | none ↦ p.one
    | some n ↦ compute_decay n.created_at_ms n.ttl_ms current_ms
  ]
