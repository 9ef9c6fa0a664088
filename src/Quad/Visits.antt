-- ===== src/Quad/Visits.antt =====
-- crates/epica-core/src/system1/mod.rs: what a walk visits and writes, by recursion on its fuel.
use epica.Prelude.{
  string_eq, nat_eq, ◌==◌, list_eq, Bool-cases, Option-cases, some_inj, length, all, ℕ, zero, suc,
  ◌≡◌, sym, ◌∙◌, subst, inl, inr, true, some, List, [], ◌∷◌, arith,
}
use epica.Quad.Platform.{Platform, SlotMap, Petgraph, id_eq}
use epica.Quad.Store.{Core, descendants_of, CausalEdge}
use epica.Quad.Projection.{Projection}
use epica.Quad.Propagation.{refresh-causal, is_visited-cons, Grows-cons, IsVisited}
use epica.Quad.System1.{propagate_system1_inner, each, refresh, is_visited, Walk}
use epica.Quad.Downstream.{Spread-refl, Spread-trans, Spread-enter, Spread}

module _ ⦃p : Platform⦄ ⦃sm : SlotMap p.BeliefId⦄ ⦃pg : Petgraph p.BeliefId⦄ where
  each-Spread :
      (R : p.BeliefId → Type 0) (g : Projection p.BeliefId CausalEdge)
      (visit : Core → List p.BeliefId → p.BeliefId → Walk)
      → ((q : Core) (visited : List p.BeliefId) (d : p.BeliefId) (q' : Core)
            (visited' : List p.BeliefId)
          → q.causal ≡ g
          → R d
          → visit q visited d ≡ some (q', visited')
          → Spread R q visited q' visited' × IsVisited visited' d)
      → (ds : List p.BeliefId) (q : Core) (visited : List p.BeliefId) (q' : Core)
        (visited' : List p.BeliefId)
      → q.causal ≡ g
      → ((d : p.BeliefId) → IsVisited ds d → R d)
      → each visit ds q visited ≡ some (q', visited')
      → Spread R q visited q' visited' × ((d : p.BeliefId) → IsVisited ds d → IsVisited visited' d)
  unfolding each
  each-Spread R g visit call [] q visited q' visited' same all h =
      let e : ◌≡◌ {A = Core × List p.BeliefId} (q, visited) (q', visited') = some_inj h in
      (subst (λ w. Spread R q visited w.0 w.1) e (Spread-refl R q visited), λ d m. absurd cc)
  each-Spread R g visit call (d ∷ ds) q visited q' visited' same all h =
      elim (Option-cases (visit q visited d)) [
        | inl n ↦ absurd (cc (rw (n, each) at h))
        | inr ((q1, v1), n) ↦
            let (first, there) = call q visited d q1 v1 same (all d (is_visited-cons d ds)) n in
            let (later, others) =
              each-Spread R g visit call ds q1 v1 q' visited' (first.rest.causal ∙ same)
                (λ x m. all x (Grows-cons d ds x m)) (rw (n, each) at h) in
            (
              Spread-trans R first later,
              λ x m. elim (Bool-cases (d == x)) [
                | inl t ↦
                    later.grows x (subst (IsVisited v1) ((p.belief_id_eq.beq_iff d x).0 t) there)
                | inr f ↦ others x (ground (arith, f, m))
              ],
            )
      ]

  pub inner-Spread :
      (R : p.BeliefId → Type 0) (g : Projection p.BeliefId CausalEdge) (clock : ℕ → ℕ)
      → ((x c : p.BeliefId) → R x → IsVisited (descendants_of g x) c → R c)
      → (fuel : ℕ) (q : Core) (visited : List p.BeliefId) (id : p.BeliefId) (q' : Core)
        (visited' : List p.BeliefId)
      → q.causal ≡ g
      → R id
      → propagate_system1_inner clock fuel q visited id ≡ some (q', visited')
      → Spread R q visited q' visited' × IsVisited visited' id
  unfolding propagate_system1_inner
  inner-Spread R g clock step zero q visited id q' visited' same r h =
      elim (Bool-cases (is_visited visited id)) [
        | inr f ↦ absurd (cc (rw f at h))
        | inl t ↦
            let e : (q, visited) ≡ (q', visited') = some_inj (rw t at h) in
            (
              subst (λ w. Spread R q visited w.0 w.1) e (Spread-refl R q visited),
              subst (λ w. IsVisited w.1 id) e t,
            )
      ]
  inner-Spread R g clock step (suc fuel) q visited id q' visited' same r h =
      elim (Bool-cases (is_visited visited id)) [
        | inl t ↦
            let e : (q, visited) ≡ (q', visited') = some_inj (rw t at h) in
            (
              subst (λ w. Spread R q visited w.0 w.1) e (Spread-refl R q visited),
              subst (λ w. IsVisited w.1 id) e t,
            )
        | inr f ↦
            let now = clock (length visited) in
            let same1 : (refresh q id now).causal ≡ g = refresh-causal q id now ∙ same in
            let to_g =
              λ (c : p.BeliefId) (d : IsVisited (descendants_of (refresh q id now).causal id) c).
                subst (λ g. is_visited (descendants_of g id) c ≡ true) same1 d in
            let (spread, all) =
              each-Spread R g (propagate_system1_inner clock fuel)
                (inner-Spread R g clock step fuel) (descendants_of (refresh q id now).causal id)
                (refresh q id now) (id ∷ visited) q' visited' same1 (λ d m. step id d r (to_g d m))
                (rw f at h) in
            (
              Spread-enter R q visited id now r spread (λ c d. all c (
                  subst (λ g. is_visited (descendants_of g id) c ≡ true)
                    (sym (refresh-causal q id now)) d)),
              spread.grows id (is_visited-cons id visited),
            )
      ]
