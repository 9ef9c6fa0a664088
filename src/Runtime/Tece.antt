-- ===== src/Runtime/Tece.antt =====
-- crates/epica-core/src/diff/tece.rs: the calibration error of a session.
use epica.Prelude.{
  if◌then◌else◌, string_eq, nat_eq, list_eq, length, Bool, Option, none, some, List, [], ◌∷◌,
}
use epica.Quad.Platform.{Platform}

module _ ⦃p : Platform⦄ where
  unfoldable pub deviations : List (p.F32 × Bool) → p.F32 → p.F32
  deviations [] acc = acc
  deviations ((conf, correct) ∷ rest) acc =
      deviations rest (p.add acc (p.abs (p.sub conf (if correct then p.one else p.zero))))

  -- A sum of floats starts at -0.0.
  unfoldable pub compute : List (p.F32 × Bool) → Option p.F32
  compute [] = none
  compute (x ∷ history) =
      some (p.div (deviations (x ∷ history) p.negative_zero) (p.of_nat (length (x ∷ history))))
