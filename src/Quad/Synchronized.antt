-- ===== src/Quad/Synchronized.antt =====
-- crates/epica-core/src/quad/mod.rs: the four graphs mirror the belief map.
use epica.Quad.Value.{BeliefNode}
use epica.Quad.Projection.{
  Mirrors-new_graph, Mirrors, Mirrors-remove_node, Mirrors-add_node, Mirrors-same, Projection,
  Mirrors-add_edge, add_edge,
}
use epica.Prelude.{
  string_eq, nat_eq, ne_of_test, list_eq, Bool-cases, Option-cases, ◌≡◌, refl, sym, ap, ◌∙◌, subst,
  ◌≢◌, inl, inr, Bool, true, false, Option, none, some,
}
use epica.Quad.Platform.{id_eq, Platform, SlotMap, Petgraph}
use epica.Quad.Store.{
  Core, new_core, get, remove, insert, modify, add_semantic_edge, add_semantic, add_temporal_edge,
  add_causal_edge, SemanticEdge, add_entity_edge, is_symmetric, TemporalEdge, CausalEdge,
  EntityEdge,
}

module _ ⦃p : Platform⦄ ⦃sm : SlotMap p.BeliefId⦄ ⦃pg : Petgraph p.BeliefId⦄ where
  unfoldable pub is_live : Core → p.BeliefId → Bool
  is_live q id = elim (sm.get q.nodes id) [ none ↦ false | some n ↦ true ]

  -- All four graphs have exactly one node for every live belief, and no other node.
  pub record IsSynchronized (q : Core) : Type 0 where
    pub semantic : Mirrors (is_live q) q.semantic
    pub temporal : Mirrors (is_live q) q.temporal
    pub causal : Mirrors (is_live q) q.causal
    pub entity : Mirrors (is_live q) q.entity

  is_live-of-some :
      (q : Core) (id : p.BeliefId) {n : BeliefNode}
      → sm.get q.nodes id ≡ some n
      → is_live q id ≡ true
  unfolding is_live
  is_live-of-some q id h = rw (h, is_live) refl

  is_live-of-none : (q : Core) (id : p.BeliefId) → sm.get q.nodes id ≡ none → is_live q id ≡ false
  unfolding is_live
  is_live-of-none q id h = rw (h, is_live) refl

  is_live-same :
      (q r : Core) (id : p.BeliefId)
      → sm.get r.nodes id ≡ sm.get q.nodes id
      → is_live r id ≡ is_live q id
  unfolding is_live
  is_live-same q r id h = rw (h, is_live) refl

  pub new_core-IsSynchronized : IsSynchronized new_core
  unfolding new_core
  new_core-IsSynchronized =
      let dead : (id : p.BeliefId) → is_live new_core id ≡ false =
        λ id. is_live-of-none new_core id (sm.get-with_key id) in
      record {
        semantic = Mirrors-new_graph _ dead;
        temporal = Mirrors-new_graph _ dead;
        causal = Mirrors-new_graph _ dead;
        entity = Mirrors-new_graph _ dead;
      }

  -- An insertion into a quad whose four graphs have a node for exactly the live beliefs leaves such
  -- a quad.
  pub insert-IsSynchronized :
      (q : Core) (node : BeliefNode) → IsSynchronized q → IsSynchronized (insert q node).0
  unfolding insert
  insert-IsSynchronized q node s =
      let r = (insert q node).0 in
      let k = (insert q node).1 in
      let new : is_live q k ≡ false = is_live-of-none q k (sm.get-insert_fresh q.nodes _) in
      let live : is_live r k ≡ true = is_live-of-some r k (sm.get-insert_same q.nodes _) in
      let same : (id : p.BeliefId) → k ≢ id → is_live r id ≡ is_live q id =
        λ id ne. is_live-same q r id (sm.get-insert_other q.nodes _ id ne) in
      record {
        semantic = Mirrors-add_node _ _ q.semantic k new live same s.semantic;
        temporal = Mirrors-add_node _ _ q.temporal k new live same s.temporal;
        causal = Mirrors-add_node _ _ q.causal k new live same s.causal;
        entity = Mirrors-add_node _ _ q.entity k new live same s.entity;
      }

  remove-hit :
      (q : Core) (id : p.BeliefId) {n : BeliefNode}
      → sm.get q.nodes id ≡ some n
      → IsSynchronized q
      → IsSynchronized (remove q id).0
  unfolding remove
  remove-hit q k h s =
      let r = (remove q k).0 in
      let nodes : r.nodes ≡ sm.remove q.nodes k = rw (h, remove) refl in
      let dead : is_live r k ≡ false =
        is_live-of-none r k (ap (λ m. sm.get m k) nodes ∙ sm.get-remove_same q.nodes k) in
      let same : (id : p.BeliefId) → k ≢ id → is_live r id ≡ is_live q id = λ id ne.
        is_live-same q r id (ap (λ m. sm.get m id) nodes ∙ sm.get-remove_other q.nodes k id ne) in
      let was : is_live q k ≡ true = is_live-of-some q k h in
      record {
        semantic =
            subst (Mirrors (is_live r)) (rw (h, remove) refl)
              (Mirrors-remove_node _ (is_live r) q.semantic k was dead same s.semantic);
        temporal =
            subst (Mirrors (is_live r)) (rw (h, remove) refl)
              (Mirrors-remove_node _ (is_live r) q.temporal k was dead same s.temporal);
        causal =
            subst (Mirrors (is_live r)) (rw (h, remove) refl)
              (Mirrors-remove_node _ (is_live r) q.causal k was dead same s.causal);
        entity =
            subst (Mirrors (is_live r)) (rw (h, remove) refl)
              (Mirrors-remove_node _ (is_live r) q.entity k was dead same s.entity);
      }

  -- A removal from a quad whose four graphs have a node for exactly the live beliefs leaves such a
  -- quad, whether or not the belief was there.
  pub remove-IsSynchronized :
      (q : Core) (id : p.BeliefId) → IsSynchronized q → IsSynchronized (remove q id).0
  unfolding remove
  remove-IsSynchronized q id s = elim (Option-cases (sm.get q.nodes id)) [
    | inl n ↦ rw (n, remove) s
    | inr (node, h) ↦ remove-hit q id h s
  ]

  pub get-remove_other : (q : Core) (k id : p.BeliefId) → k ≢ id → get (remove q k).0 id ≡ get q id
  unfolding get remove
  get-remove_other q k id ne = elim (Option-cases (sm.get q.nodes k)) [
    | inl n ↦ rw (n, remove) refl
    | inr (node, h) ↦ rw (h, remove) (sm.get-remove_other q.nodes k id ne)
  ]

  pub modify-IsSynchronized :
      (q : Core) (id : p.BeliefId) (f : BeliefNode → BeliefNode)
      → IsSynchronized q
      → IsSynchronized (modify q id f)
  unfolding modify
  modify-IsSynchronized q k f s =
      let r = modify q k f in
      let same : (id : p.BeliefId) → is_live r id ≡ is_live q id = λ id.
        elim (Bool-cases (p.belief_id_eq.beq k id)) [
          | inl t ↦
              subst (λ j. is_live r j ≡ is_live q j) ((p.belief_id_eq.beq_iff k id).0 t)
                (at-k (sm.get q.nodes k) refl)
          | inr n ↦ is_live-same q r id (sm.get-update_other q.nodes k id f (ne_of_test k id n))
        ] in
      record {
        semantic = Mirrors-same _ _ q.semantic same s.semantic;
        temporal = Mirrors-same _ _ q.temporal same s.temporal;
        causal = Mirrors-same _ _ q.causal same s.causal;
        entity = Mirrors-same _ _ q.entity same s.entity;
      }
    where
      at-k : (o : Option BeliefNode) → sm.get q.nodes k ≡ o → is_live (modify q k f) k ≡ is_live q k
      at-k none h =
          is_live-of-none (modify q k f) k (sm.get-update_none q.nodes k f h)
          ∙ sym (is_live-of-none q k h)
      at-k (some n) h =
          is_live-of-some (modify q k f) k (sm.get-update_same q.nodes k f h)
          ∙ sym (is_live-of-some q k h)

  pub get-remove_same : (q : Core) (k : p.BeliefId) → get (remove q k).0 k ≡ none
  unfolding get remove
  get-remove_same q k = elim (Option-cases (sm.get q.nodes k)) [
    | inl n ↦ rw (n, remove) n
    | inr (node, h) ↦ rw (h, remove) (sm.get-remove_same q.nodes k)
  ]

  add_semantic-Mirrors :
      (live : p.BeliefId → Bool) (g : Projection p.BeliefId SemanticEdge) (from to : p.BeliefId)
      (edge : SemanticEdge)
      → Mirrors live g
      → Mirrors live (add_semantic g from to edge)
  unfolding add_semantic
  add_semantic-Mirrors live g from to edge m =
      let once = Mirrors-add_edge live g from to edge m in
      elim (Bool-cases (is_symmetric edge)) [
        | inl t ↦ rw t (Mirrors-add_edge live (add_edge g from to edge) to from edge once)
        | inr f ↦ rw f once
      ]

  -- Adding a semantic, temporal, causal or entity edge between any two ids to a quad whose four
  -- graphs have a node for exactly the live beliefs leaves such a quad.
  pub add_edges-IsSynchronized :
      (q : Core) (from to : p.BeliefId) (se : SemanticEdge) (te : TemporalEdge) (ce : CausalEdge)
      (ee : EntityEdge)
      → IsSynchronized q
      → IsSynchronized (add_semantic_edge q from to se)
        × IsSynchronized (add_temporal_edge q from to te)
        × IsSynchronized (add_causal_edge q from to ce)
        × IsSynchronized (add_entity_edge q from to ee)
  unfolding is_live add_semantic_edge add_temporal_edge add_causal_edge add_entity_edge
  add_edges-IsSynchronized q from to se te ce ee s = (
    record {
      semantic = add_semantic-Mirrors _ q.semantic from to se s.semantic;
      temporal = s.temporal;
      causal = s.causal;
      entity = s.entity;
    },
    record {
      semantic = s.semantic;
      temporal = Mirrors-add_edge _ q.temporal from to te s.temporal;
      causal = s.causal;
      entity = s.entity;
    },
    record {
      semantic = s.semantic;
      temporal = s.temporal;
      causal = Mirrors-add_edge _ q.causal from to ce s.causal;
      entity = s.entity;
    },
    record {
      semantic = s.semantic;
      temporal = s.temporal;
      causal = s.causal;
      entity = Mirrors-add_edge _ q.entity from to ee s.entity;
    },
  )
