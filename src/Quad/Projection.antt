-- ===== src/Quad/Projection.antt =====
-- crates/epica-core/src/quad/causal.rs, semantic.rs, temporal.rs, entity.rs: the four graphs, which have
-- the same fields and the same `new`, `add_node`, `remove_node`, and, but for the semantic one, `add_edge`.
use epica.Quad.Platform.{Petgraph}
use epica.Prelude.{
  Eq, string_eq, nat_eq, ◌==◌, ne_of_test, list_eq, Bool-cases, Option-cases, some_inj, ◌≡◌, refl,
  sym, ap, ◌∙◌, subst, ◌≢◌, inl, inr, Bool, true, false, Option, none, some, [],
}
use epica.Quad.HashMap.{
  HashMap, hash_get-remove_other, hash_get, hash_insert, hash_get-insert_same, hash_remove,
  hash_get-insert_other, hash_get-remove_same,
}

pub record Projection (K : Type 0) ⦃pg : Petgraph K⦄ (E : Type 0) : Type 0 where
  pub graph : pg.Graph E
  pub indices : HashMap K pg.NodeIndex

module _ {K E : Type 0} ⦃e : Eq K⦄ ⦃pg : Petgraph K⦄ where
  unfoldable pub new_graph : Projection K E
  new_graph = record { graph = pg.empty; indices = [] }

  unfoldable pub add_node : Projection K E → K → Projection K E
  add_node g id =
      let (graph, idx) = pg.add_node g.graph id in
      record { graph = graph; indices = hash_insert g.indices id idx }

  unfoldable pub remove_node : Projection K E → K → Projection K E
  remove_node g id = elim (hash_get g.indices id) [
    | some idx ↦ record { graph = pg.remove_node g.graph idx; indices = hash_remove g.indices id }
    | none ↦ g
  ]

  -- Both ends are looked up first; an edge to a belief that is not there is dropped.
  unfoldable pub ends : Projection K E → K → K → Option (pg.NodeIndex × pg.NodeIndex)
  ends g from to = elim (hash_get g.indices from) [
    | none ↦ none
    | some fi ↦ elim (hash_get g.indices to) [ none ↦ none | some ti ↦ some (fi, ti) ]
  ]

  unfoldable pub add_edge : Projection K E → K → K → E → Projection K E
  add_edge g from to edge = elim (ends g from to) [
    | none ↦ g
    | some (fi, ti) ↦ record { graph = pg.add_edge g.graph fi ti edge; indices = g.indices }
  ]

  -- Every live belief is indexed at a node that bears its id, no other belief is indexed, and every node
  -- of the graph is the one at which the belief that it bears is indexed: none is stale and none is double.
  pub record Mirrors (is_live : K → Bool) (g : Projection K E) : Type 0 where
    pub present :
        (id : K)
        → is_live id ≡ true
        → (i : pg.NodeIndex) × (hash_get g.indices id ≡ some i) × (pg.weight g.graph i ≡ some id)
    pub absent : (id : K) → is_live id ≡ false → hash_get g.indices id ≡ none
    pub only :
        (i : pg.NodeIndex) (id : K) → pg.weight g.graph i ≡ some id → hash_get g.indices id ≡ some i

  pub Mirrors-new_graph :
      (is_live : K → Bool) → ((id : K) → is_live id ≡ false) → Mirrors is_live new_graph
  unfolding new_graph hash_get
  Mirrors-new_graph is_live dead = record {
    present = λ id h. absurd (cc (h, dead id));
    absent = λ id h. refl;
    only = λ i id h. absurd (cc (h, pg.weight-empty i));
  }

  pub Mirrors-same :
      (was is : K → Bool) (g : Projection K E)
      → ((id : K) → is id ≡ was id)
      → Mirrors was g
      → Mirrors is g
  Mirrors-same was is g same m = record {
    present = λ id h. m.present id (sym (same id) ∙ h);
    absent = λ id h. m.absent id (sym (same id) ∙ h);
    only = m.only;
  }

  pub Mirrors-add_node :
      (was is : K → Bool) (g : Projection K E) (k : K)
      → was k ≡ false
      → is k ≡ true
      → ((id : K) → k ≢ id → is id ≡ was id)
      → Mirrors was g
      → Mirrors is (add_node g k)
  unfolding add_node
  Mirrors-add_node was is g k new live same m = record {
    present = λ id h. elim (Bool-cases (k == id)) [
      | inl t ↦
          let q = (e.beq_iff k id).0 t in
          (
            (pg.add_node g.graph k).1,
            rw⁻¹ q (hash_get-insert_same g.indices k _),
            rw⁻¹ q (pg.weight-add_node_same g.graph k),
          )
      | inr f ↦
          let (i, l, w) = m.present id (sym (same id (ne_of_test k id f)) ∙ h) in
          (
            i,
            hash_get-insert_other g.indices k id _ (ne_of_test k id f) ∙ l,
            pg.weight-add_node_other g.graph k i
                  (λ q. cc (w, pg.weight-add_node_fresh g.graph k, ap (pg.weight g.graph) q))
                ∙ w,
          )
    ];
    absent = λ id h.
        let ne : k ≢ id = λ q. absurd (cc (h, live, ap is q)) in
        hash_get-insert_other g.indices k id _ ne ∙ m.absent id (sym (same id ne) ∙ h);
    only = λ i id h. elim (Bool-cases (pg.index_eq.beq (pg.add_node g.graph k).1 i)) [
      | inl t ↦
          let q = (pg.index_eq.beq_iff (pg.add_node g.graph k).1 i).0 t in
          let bears : pg.weight (pg.add_node g.graph k).0 i ≡ some k =
            subst (λ j. pg.weight (pg.add_node g.graph k).0 j ≡ some k) q
              (pg.weight-add_node_same g.graph k) in
          let e : k ≡ id = some_inj (sym bears ∙ h) in
          rw⁻¹ (e, q) (hash_get-insert_same g.indices k _)
      | inr f ↦
          let other = pg.weight-add_node_other g.graph k i (ne_of_test ⦃e = pg.index_eq⦄ _ _ f) in
          let at = m.only i id (sym other ∙ h) in
          let ne : k ≢ id = λ q. cc (m.absent k new, ap (hash_get g.indices) q, at) in
          hash_get-insert_other g.indices k id _ ne ∙ at
    ];
  }

  pub Mirrors-remove_node :
      (was is : K → Bool) (g : Projection K E) (k : K)
      → was k ≡ true
      → is k ≡ false
      → ((id : K) → k ≢ id → is id ≡ was id)
      → Mirrors was g
      → Mirrors is (remove_node g k)
  unfolding remove_node
  Mirrors-remove_node was is g k live dead same m =
      let (i, l, w) = m.present k live in
      rw (l, remove_node)
        (record {
          present = λ id h.
              let ne : k ≢ id = λ q. absurd (cc (h, dead, ap is q)) in
              let (j, l', w') = m.present id (sym (same id ne) ∙ h) in
              (
                j,
                hash_get-remove_other g.indices k id ne ∙ l',
                pg.weight-remove_node g.graph i j
                      (λ q. ne (some_inj (sym w ∙ ap (pg.weight g.graph) q ∙ w')))
                    ∙ w',
              );
          absent = λ id h. elim (Bool-cases (k == id)) [
            | inl t ↦ rw⁻¹ ((e.beq_iff k id).0 t) (hash_get-remove_same g.indices k)
            | inr f ↦
                hash_get-remove_other g.indices k id (ne_of_test k id f)
                ∙ m.absent id (sym (same id (ne_of_test k id f)) ∙ h)
          ];
          only = λ j id h. elim (Bool-cases (pg.index_eq.beq i j)) [
            | inl t ↦
                let q = (pg.index_eq.beq_iff i j).0 t in
                absurd (cc (h, pg.weight-remove_node_same g.graph i, q))
            | inr f ↦
                let off = ne_of_test ⦃e = pg.index_eq⦄ i j f in
                let at = m.only j id (sym (pg.weight-remove_node g.graph i j off) ∙ h) in
                let ne : k ≢ id = λ q. off (some_inj (sym l ∙ ap (hash_get g.indices) q ∙ at)) in
                hash_get-remove_other g.indices k id ne ∙ at
          ];
        })

  pub Mirrors-add_edge :
      (is_live : K → Bool) (g : Projection K E) (from to : K) (edge : E)
      → Mirrors is_live g
      → Mirrors is_live (add_edge g from to edge)
  unfolding add_edge
  Mirrors-add_edge is_live g from to edge m = elim (Option-cases (ends g from to)) [
    | inl n ↦ rw (n, add_edge) m
    | inr ((fi, ti), s) ↦
        rw (s, add_edge)
          (record {
            present = λ id h.
                let (i, l, w) = m.present id h in
                (i, l, pg.weight-add_edge g.graph fi ti i edge ∙ w);
            absent = m.absent;
            only = λ i id h. m.only i id (sym (pg.weight-add_edge g.graph fi ti i edge) ∙ h);
          })
  ]
