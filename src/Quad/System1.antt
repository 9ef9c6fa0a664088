-- ===== src/Quad/System1.antt =====
-- crates/epica-core/src/system1/mod.rs and noisy_or.rs: how a change of confidence spreads along the
-- causal graph. The clock is read once per belief visited: `clock n` is what the reading gives after `n`
-- beliefs were visited. The recursion runs on fuel, which Propagation shows to be enough.
use epica.Prelude.{
  if◌then◌else◌, string_eq, nat_eq, ◌==◌, list_eq, length, any, ℕ, zero, suc, ◌+◌, Bool, Option,
  none, some, List, [], ◌∷◌,
}
use epica.Quad.Platform.{Platform, SlotMap, Petgraph, id_eq}
use epica.Quad.Value.{BeliefNode}
use epica.Quad.Store.{Core, get, modify, inferred_from_premises, descendants_of}
use epica.Quad.Decay.{decay_factor}

module _ ⦃p : Platform⦄ where
  unfoldable pub product : List p.F32 → p.F32 → p.F32
  product [] acc = acc
  product (c ∷ cs) acc = product cs (p.mul acc (p.sub p.one (p.clamp_unit c)))

  unfoldable pub combine : List p.F32 → p.F32
  combine [] = p.zero
  combine (c ∷ cs) = p.sub p.one (product (c ∷ cs) p.one)

  unfoldable pub best : List p.F32 → p.F32 → p.F32
  best [] acc = acc
  best (c ∷ cs) acc = best cs (p.max acc c)

  abbrev pub set_fast : p.F32 → BeliefNode → BeliefNode
  set_fast c n = record n { fast_confidence = c }

  abbrev pub is_visited : List p.BeliefId → p.BeliefId → Bool
  is_visited visited id = any (λ x. x == id) visited

module _ ⦃p : Platform⦄ ⦃sm : SlotMap p.BeliefId⦄ ⦃pg : Petgraph p.BeliefId⦄ where
  -- The confidences of the premises that are still there.
  unfoldable pub confidences_of : Core → List p.BeliefId → List p.F32
  confidences_of q [] = []
  confidences_of q (i ∷ is) =
      let rest = confidences_of q is in
      elim (get q i) [ none ↦ rest | some n ↦ n.fast_confidence ∷ rest ]

  unfoldable pub per_edge : Core → List (List p.BeliefId) → List p.F32
  per_edge q [] = []
  per_edge q (premises ∷ ls) = combine (confidences_of q premises) ∷ per_edge q ls

  unfoldable pub new_confidence : Core → p.BeliefId → ℕ → p.F32
  new_confidence q id now_ms =
      let combined = best (per_edge q (inferred_from_premises q.causal id)) p.zero in
      p.clamp_unit (p.mul combined (decay_factor q id now_ms))

  -- A belief that is inferred from nothing keeps its confidence.
  unfoldable pub refresh : Core → p.BeliefId → ℕ → Core
  refresh q id now_ms = elim (inferred_from_premises q.causal id) [
    | [] ↦ q
    | _ ∷ _ ↦ modify q id (set_fast (new_confidence q id now_ms))
  ]

  -- The quad and the visited set, last visited first; `none` where the fuel ran out.
  abbrev pub Walk : Type 0
  Walk = Option (Core × List p.BeliefId)

  unfoldable pub each :
      (Core → List p.BeliefId → p.BeliefId → Walk) → List p.BeliefId → Core → List p.BeliefId → Walk
  each visit [] q visited = some (q, visited)
  each visit (d ∷ ds) q visited = elim (visit q visited d) [
    | none ↦ none
    | some (q', visited') ↦ each visit ds q' visited'
  ]

  unfoldable pub propagate_system1_inner : (ℕ → ℕ) → ℕ → Core → List p.BeliefId → p.BeliefId → Walk
  propagate_system1_inner clock zero q visited id =
      if is_visited visited id then some (q, visited) else none
  propagate_system1_inner clock (suc fuel) q visited id =
      if is_visited visited id
      then some (q, visited)
      else (let q' = refresh q id (clock (length visited)) in
          each (propagate_system1_inner clock fuel) (descendants_of q'.causal id) q' (id ∷ visited))

  abbrev pub fuel_of : Core → ℕ
  fuel_of q = length (pg.node_indices q.causal.graph) + 1

  unfoldable pub walk : (ℕ → ℕ) → Core → p.BeliefId → Walk
  walk clock q changed = propagate_system1_inner clock (fuel_of q) q [] changed

  -- The second case does not occur.
  unfoldable pub propagate_system1 : (ℕ → ℕ) → Core → p.BeliefId → Core
  propagate_system1 clock q changed = elim (walk clock q changed) [ some (q', _) ↦ q' | none ↦ q ]
