-- ===== src/Quad/Propagation.antt =====
-- crates/epica-core/src/system1/mod.rs: the recursion ends, and which beliefs it touches.
use epica.Prelude.{
  if◌then◌else◌, string_eq, nat_eq, ◌==◌, ==_refl, list_eq, Bool-cases, Option-cases, some_inj,
  length, IsListed, List-cases, ℕ, zero, suc, ◌+◌, ◌≤◌, ◌<◌, ◌≡◌, refl, ap, ◌∙◌, subst, inl, inr,
  true, false, some, List, [], ◌∷◌, arith, add-one,
}
use epica.Quad.Platform.{Platform, SlotMap, Petgraph, id_eq}
use epica.Quad.Store.{Core, modify, inferred_from_premises, descendants_of, labels, CausalEdge}
use epica.Quad.Projection.{Projection}
use epica.Quad.HashMap.{hash_get}
use epica.Quad.System1.{propagate_system1_inner, each, refresh, is_visited, Walk, walk}

module _ ⦃p : Platform⦄ ⦃sm : SlotMap p.BeliefId⦄ ⦃pg : Petgraph p.BeliefId⦄ where
  -- How many of the listed beliefs are not visited yet.
  abbrev unseen : List p.BeliefId → List p.BeliefId → ℕ
  unseen [] visited = 0
  unseen (x ∷ xs) visited = (if is_visited visited x then 0 else 1) + unseen xs visited

  unseen-le : (xs visited : List p.BeliefId) → unseen xs visited ≤ length xs
  unseen-le [] visited = omega arith
  unseen-le (x ∷ xs) visited = ground (arith, unseen-le xs visited)

  abbrev pub Grows : List p.BeliefId → List p.BeliefId → Type 0
  Grows visited visited' =
      (x : p.BeliefId) → is_visited visited x ≡ true → is_visited visited' x ≡ true

  unseen_mono :
      (xs visited visited' : List p.BeliefId)
      → Grows visited visited'
      → unseen xs visited' ≤ unseen xs visited
  unseen_mono [] visited visited' g = omega arith
  unseen_mono (x ∷ xs) visited visited' g = ground (arith, g x, unseen_mono xs visited visited' g)

  pub Grows-cons : (id : p.BeliefId) (visited : List p.BeliefId) → Grows visited (id ∷ visited)
  Grows-cons id visited x h = ground (arith, h)

  pub is_visited-cons :
      (id : p.BeliefId) (visited : List p.BeliefId) → is_visited (id ∷ visited) id ≡ true
  is_visited-cons id visited = rw (==_refl id) refl

  unseen_falls :
      (xs visited : List p.BeliefId) (id : p.BeliefId)
      → is_visited xs id ≡ true
      → is_visited visited id ≡ false
      → unseen xs (id ∷ visited) < unseen xs visited
  unseen_falls [] visited id m f = absurd cc
  unseen_falls (x ∷ xs) visited id m f = elim (Bool-cases (x == id)) [
    | inl t ↦
        let e : x ≡ id = (p.belief_id_eq.beq_iff x id).0 t in
        rw e (
          ground
            (arith, ==_refl id, f, unseen_mono xs visited (id ∷ visited) (Grows-cons id visited)))
    | inr n ↦ ground (arith, n, f, m, unseen_falls xs visited id, Grows-cons id visited x)
  ]

  labels-weight :
      (g : Projection p.BeliefId CausalEdge) (is : List pg.NodeIndex) (c : p.BeliefId)
      → is_visited (labels g is) c ≡ true
      → (i : pg.NodeIndex) × (pg.weight g.graph i ≡ some c)
  unfolding labels
  labels-weight g [] c h = absurd cc
  labels-weight g (i ∷ is) c h = elim (Option-cases (pg.weight g.graph i)) [
    | inl n ↦ labels-weight g is c (rw (n, labels) at h)
    | inr (x, s) ↦
        let h' : is_visited (x ∷ labels g is) c ≡ true = rw (s, labels) at h in
        elim (Bool-cases (x == c)) [
          | inl t ↦ (i, s ∙ ap some ((p.belief_id_eq.beq_iff x c).0 t))
          | inr f ↦ labels-weight g is c (ground (arith, f, h'))
        ]
  ]

  labels-of_weight :
      (g : Projection p.BeliefId CausalEdge) (is : List pg.NodeIndex) (i : pg.NodeIndex)
      (c : p.BeliefId)
      → IsListed i is
      → pg.weight g.graph i ≡ some c
      → is_visited (labels g is) c ≡ true
  unfolding labels
  labels-of_weight g [] i c (n, at) w = absurd cc
  labels-of_weight g (j ∷ is) i c (zero, at) w =
      let e : pg.weight g.graph j ≡ some c = ap (pg.weight g.graph) (some_inj at) ∙ w in
      rw (e, labels) (rw (==_refl c) refl)
  labels-of_weight g (j ∷ is) i c (suc n, at) w =
      let later = labels-of_weight g is i c (n, at) w in
      elim (Option-cases (pg.weight g.graph j)) [
        | inl e ↦ rw (e, labels) later
        | inr (x, e) ↦ rw (e, labels) (Grows-cons x (labels g is) c later)
      ]

  length-labels-le :
      (g : Projection p.BeliefId CausalEdge) (is : List pg.NodeIndex)
      → length (labels g is) ≤ length is
  unfolding labels
  length-labels-le g [] = omega arith
  length-labels-le g (i ∷ is) = elim (Option-cases (pg.weight g.graph i)) [
    | inl e ↦ rw (e, labels) (omega (arith, length-labels-le g is))
    | inr (x, e) ↦ rw (e, labels) (omega (arith, length-labels-le g is))
  ]

  -- The beliefs of the causal graph.
  unfoldable pub everyone : Projection p.BeliefId CausalEdge → List p.BeliefId
  everyone g = labels g (pg.node_indices g.graph)

  descendants_of-everyone :
      (g : Projection p.BeliefId CausalEdge) (id c : p.BeliefId)
      → is_visited (descendants_of g id) c ≡ true
      → is_visited (everyone g) c ≡ true
  unfolding descendants_of everyone
  descendants_of-everyone g id c h = elim (Option-cases (hash_get g.indices id)) [
    | inl e ↦ absurd (cc (rw (e, descendants_of) at h))
    | inr (start, e) ↦
        let (i, w) = labels-weight g _ c (rw (e, descendants_of) at h) in
        labels-of_weight g (pg.node_indices g.graph) i c (pg.weight-node_indices g.graph i w) w
  ]

  pub refresh-causal :
      (q : Core) (id : p.BeliefId) (now_ms : ℕ) → (refresh q id now_ms).causal ≡ q.causal
  unfolding refresh modify
  refresh-causal q id now_ms = elim (List-cases (inferred_from_premises q.causal id)) [
    | inl e ↦ rw (e, refresh) refl
    | inr (x, xs, e) ↦ rw (e, refresh) refl
  ]

  abbrev pub IsVisited : List p.BeliefId → p.BeliefId → Type 0
  IsVisited visited x = is_visited visited x ≡ true

  -- What a call for `id` with enough fuel does, from one visited set to a larger one.
  abbrev Returns :
      (Core → List p.BeliefId → p.BeliefId → Walk) → Core → List p.BeliefId → p.BeliefId → Type 0
  Returns visit q visited id =
      (q' : Core) × (visited' : List p.BeliefId) × (visit q visited id ≡ some (q', visited'))
      × (q'.causal ≡ q.causal)
      × Grows visited visited'

  each-Returns :
      (g : Projection p.BeliefId CausalEdge) (bound : ℕ)
      (visit : Core → List p.BeliefId → p.BeliefId → Walk)
      → ((q : Core) (visited : List p.BeliefId) (d : p.BeliefId)
          → q.causal ≡ g
          → unseen (everyone g) visited ≤ bound
          → IsVisited (everyone g) d
          → Returns visit q visited d)
      → (ds : List p.BeliefId) (q : Core) (visited : List p.BeliefId)
      → ((d : p.BeliefId) → IsVisited ds d → IsVisited (everyone g) d)
      → q.causal ≡ g
      → unseen (everyone g) visited ≤ bound
      → (q' : Core) × (visited' : List p.BeliefId) × (each visit ds q visited ≡ some (q', visited'))
        × (q'.causal ≡ q.causal)
        × Grows visited visited'
  unfolding each
  each-Returns g bound visit call [] q visited known same few = (q, visited, refl, refl, λ x h. h)
  each-Returns g bound visit call (d ∷ ds) q visited known same few =
      let (q1, v1, e, c, g1) = call q visited d same few (known d (is_visited-cons d ds)) in
      let fewer = unseen_mono (everyone g) visited v1 g1 in
      let (q2, v2, e2, c2, g2) =
        each-Returns g bound visit call ds q1 v1 (λ x h. known x (Grows-cons d ds x h)) (c ∙ same)
          (omega arith) in
      (q2, v2, rw (e, each) e2, c2 ∙ c, λ x h. g2 x (g1 x h))

  enter-Returns :
      (g : Projection p.BeliefId CausalEdge) (clock : ℕ → ℕ) (fuel : ℕ)
      → ((q : Core) (visited : List p.BeliefId) (d : p.BeliefId)
          → q.causal ≡ g
          → unseen (everyone g) visited ≤ fuel
          → IsVisited (everyone g) d
          → Returns (propagate_system1_inner clock fuel) q visited d)
      → (q : Core) (visited : List p.BeliefId) (id : p.BeliefId) → q.causal ≡ g
      → (is_visited visited id ≡ false → unseen (everyone g) (id ∷ visited) ≤ fuel)
      → Returns (propagate_system1_inner clock (suc fuel)) q visited id
  unfolding propagate_system1_inner
  enter-Returns g clock fuel call q visited id same few =
      elim (Bool-cases (is_visited visited id)) [
        | inl t ↦ (q, visited, rw t refl, refl, λ x h. h)
        | inr f ↦
            let now = clock (length visited) in
            let same1 : (refresh q id now).causal ≡ g = refresh-causal q id now ∙ same in
            let (q2, v2, e, c, grows) =
              each-Returns g fuel _ call (descendants_of (refresh q id now).causal id)
                (refresh q id now) (id ∷ visited)
                (λ d h.
                  descendants_of-everyone g id d
                    (subst (λ c. is_visited (descendants_of c id) d ≡ true) same1 h))
                same1 (few f) in
            (
              q2,
              v2,
              rw f e,
              c ∙ refresh-causal q id now,
              λ x h. grows x (Grows-cons id visited x h),
            )
      ]

  inner-Returns :
      (g : Projection p.BeliefId CausalEdge) (clock : ℕ → ℕ) (fuel : ℕ) (q : Core)
      (visited : List p.BeliefId) (id : p.BeliefId)
      → q.causal ≡ g
      → unseen (everyone g) visited ≤ fuel
      → IsVisited (everyone g) id
      → Returns (propagate_system1_inner clock fuel) q visited id
  unfolding propagate_system1_inner
  inner-Returns g clock zero q visited id same few known =
      elim (Bool-cases (is_visited visited id)) [
        | inl t ↦ (q, visited, rw t refl, refl, λ x h. h)
        | inr f ↦ absurd (omega (arith, unseen_falls (everyone g) visited id known f))
      ]
  inner-Returns g clock (suc fuel) q visited id same few known =
      enter-Returns g clock fuel (inner-Returns g clock fuel) q visited id same
        (λ f. omega (arith, unseen_falls (everyone g) visited id known f))

  -- The walk of System 1 from any belief of any quad ends, with as much fuel as the causal graph has
  -- nodes and one more.
  pub walk-returns :
      (clock : ℕ → ℕ) (q : Core) (changed : p.BeliefId)
      → (q' : Core) × (visited : List p.BeliefId) × (walk clock q changed ≡ some (q', visited))
  unfolding walk everyone
  walk-returns clock q changed =
      let nodes = pg.node_indices q.causal.graph in
      let bound : unseen (everyone q.causal) (changed ∷ []) ≤ length nodes =
        omega
          (arith, unseen-le (everyone q.causal) (changed ∷ []), length-labels-le q.causal nodes) in
      let (q', v, e, c, grows) =
        enter-Returns q.causal clock (length nodes) (inner-Returns q.causal clock (length nodes)) q
          [] changed refl (λ f. bound) in
      (q', v, ap (λ n. propagate_system1_inner clock n q [] changed) (add-one _) ∙ e)
