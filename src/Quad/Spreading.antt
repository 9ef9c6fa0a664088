-- ===== src/Quad/Spreading.antt =====
-- crates/epica-core/src/system1/mod.rs: what `propagate_system1` promises as a whole.
use epica.Prelude.{
  string_eq, nat_eq, list_eq, Bool-cases, ℕ, ◌≡◌, refl, sym, subst, ◌↔◌, inl, inr, true, false,
  Option, none, some, List, [],
}
use epica.Quad.Platform.{Platform, SlotMap, Petgraph, id_eq}
use epica.Quad.Value.{BeliefNode}
use epica.Quad.Store.{Core, get}
use epica.Quad.Projection.{Mirrors, Mirrors-same}
use epica.Quad.Propagation.{IsVisited, walk-returns}
use epica.Quad.Synchronized.{IsSynchronized, is_live}
use epica.Quad.Downstream.{Follows, here, next, SameBut, SameRest, Spread}
use epica.Quad.Visits.{inner-Spread}
use epica.Quad.System1.{is_visited, walk, propagate_system1}

module _ ⦃p : Platform⦄ ⦃sm : SlotMap p.BeliefId⦄ ⦃pg : Petgraph p.BeliefId⦄ where
  walk-Spread :
      (clock : ℕ → ℕ) (q : Core) (changed : p.BeliefId) {q' : Core} {visited : List p.BeliefId}
      → walk clock q changed ≡ some (q', visited)
      → Spread (Follows q.causal changed) q [] q' visited × IsVisited visited changed
  unfolding walk
  walk-Spread clock q changed {q'} {visited} h =
      inner-Spread (Follows q.causal changed) q.causal clock (λ x c f d. next f d) _ q [] changed q'
        visited refl here h

  -- A walk of System 1 that ends has visited exactly the beliefs that can be reached from the
  -- changed one along `descendants_of`.
  pub walk-visits :
      (clock : ℕ → ℕ) (q : Core) (changed x : p.BeliefId) {q' : Core} {visited : List p.BeliefId}
      → walk clock q changed ≡ some (q', visited)
      → IsVisited visited x ↔ Follows q.causal changed x
  walk-visits clock q changed x {q'} {visited} h =
      let (s, there) = walk-Spread clock q changed h in
      (λ m. elim (s.only x m) [ inl n ↦ absurd cc | inr f ↦ f ], λ f. all s there f)
    where
      all :
          Spread (Follows q.causal changed) q [] q' visited
          → IsVisited visited changed
          → {y : p.BeliefId} → Follows q.causal changed y
          → IsVisited visited y
      all s there here = there
      all s there (next {x} {c} f d) = elim (s.closed x (all s there f)) [
        | inl n ↦ absurd cc
        | inr onward ↦ onward c d
      ]

  not_visited :
      (clock : ℕ → ℕ) (q : Core) (changed : p.BeliefId) {q' : Core} {visited : List p.BeliefId}
      → walk clock q changed ≡ some (q', visited)
      → (x : p.BeliefId) → ¬ Follows q.causal changed x
      → is_visited visited x ≡ false
  not_visited clock q changed {q'} {visited} e x n = elim (Bool-cases (is_visited visited x)) [
    | inl t ↦ absurd (n ((walk-visits clock q changed x e).0 t))
    | inr f ↦ f
  ]

  -- System 1 changes nothing of a quad but fast confidences, and those only of beliefs that can be
  -- reached from the changed one along `descendants_of`; no belief appears or disappears.
  pub propagate_system1-writes :
      (clock : ℕ → ℕ) (q : Core) (changed : p.BeliefId)
      → SameRest q (propagate_system1 clock q changed)
        × ((x : p.BeliefId) → SameBut (get q x) (get (propagate_system1 clock q changed) x))
        × ((x : p.BeliefId)
            → ¬ Follows q.causal changed x
            → get (propagate_system1 clock q changed) x ≡ get q x)
  unfolding propagate_system1
  propagate_system1-writes clock q changed =
      let (q', visited, e) = walk-returns clock q changed in
      let s = (walk-Spread clock q changed e).0 in
      let unvisited = not_visited clock q changed e in
      rw (e, propagate_system1) (s.rest, s.same, λ x n. s.kept x (unvisited x n))

  is_live-SameBut :
      (q q' : Core) (x : p.BeliefId) → SameBut (get q x) (get q' x) → is_live q' x ≡ is_live q x
  unfolding is_live get
  is_live-SameBut q q' x h = by_cases (sm.get q.nodes x) (sm.get q'.nodes x) h
    where
      by_cases :
          (a b : Option BeliefNode)
          → SameBut a b
          → elim b [ none ↦ false | some n ↦ true ] ≡ elim a [ none ↦ false | some n ↦ true ]
      by_cases none none h = refl
      by_cases (some n) (some m) h = refl
      by_cases none (some m) h = absurd h
      by_cases (some n) none h = absurd h

  pub propagate_system1-IsSynchronized :
      (clock : ℕ → ℕ) (q : Core) (changed : p.BeliefId)
      → IsSynchronized q
      → IsSynchronized (propagate_system1 clock q changed)
  propagate_system1-IsSynchronized clock q changed s =
      let (rest, same, _) = propagate_system1-writes clock q changed in
      let q' = propagate_system1 clock q changed in
      let live = λ (x : p.BeliefId). is_live-SameBut q q' x (same x) in
      record {
        semantic =
            subst (Mirrors (is_live q')) (sym rest.semantic)
              (Mirrors-same (is_live q) _ q.semantic live s.semantic);
        temporal =
            subst (Mirrors (is_live q')) (sym rest.temporal)
              (Mirrors-same (is_live q) _ q.temporal live s.temporal);
        causal =
            subst (Mirrors (is_live q')) (sym rest.causal)
              (Mirrors-same (is_live q) _ q.causal live s.causal);
        entity =
            subst (Mirrors (is_live q')) (sym rest.entity)
              (Mirrors-same (is_live q) _ q.entity live s.entity);
      }
