-- ===== src/Quad/Queries.antt =====
-- crates/epica-core/src/quad/causal.rs, temporal.rs and entity.rs: the queries on the graphs beside those of
-- Store. A `HashSet` is the list of what was put into it.
use Prim.Native.String.{String}
use epica.Prelude.{string_eq, nat_eq, list_eq, drop, none, some, List, [], ◌∷◌}
use epica.Quad.Platform.{Platform, Petgraph, id_eq}
use epica.Quad.HashMap.{hash_get}
use epica.Quad.Projection.{Projection}
use epica.Quad.Store.{
  CausalEdge, TemporalEdge, precedes, co_occurs, supersedes, EntityEdge, produced_by, consumed,
  shared_with, labels,
}

module _ ⦃p : Platform⦄ ⦃pg : Petgraph p.BeliefId⦄ where
  unfoldable pub ancestors_of : Projection p.BeliefId CausalEdge → p.BeliefId → List p.BeliefId
  ancestors_of g id = elim (hash_get g.indices id) [
    | none ↦ []
    | some start ↦ labels g (drop 1 (pg.dfs_reversed g.graph start))
  ]

  unfoldable pub sources_of :
      Projection p.BeliefId CausalEdge
      → List (pg.NodeIndex × CausalEdge)
      → List (p.BeliefId × CausalEdge)
  sources_of g [] = []
  sources_of g ((i, e) ∷ es) =
      let rest = sources_of g es in
      elim (pg.weight g.graph i) [ none ↦ rest | some id ↦ (id, e) ∷ rest ]

  unfoldable pub incoming_edges :
      Projection p.BeliefId CausalEdge → p.BeliefId → List (p.BeliefId × CausalEdge)
  incoming_edges g id = elim (hash_get g.indices id) [
    | none ↦ []
    | some idx ↦ sources_of g (pg.incoming g.graph idx)
  ]

  unfoldable pub preceding :
      Projection p.BeliefId TemporalEdge → List (pg.NodeIndex × TemporalEdge) → List p.BeliefId
  preceding g [] = []
  preceding g ((i, precedes gap_ms) ∷ es) =
      let rest = preceding g es in elim (pg.weight g.graph i) [ none ↦ rest | some id ↦ id ∷ rest ]
  preceding g ((i, co_occurs) ∷ es) = preceding g es
  preceding g ((i, supersedes) ∷ es) = preceding g es

  unfoldable pub predecessors_of : Projection p.BeliefId TemporalEdge → p.BeliefId → List p.BeliefId
  predecessors_of g id = elim (hash_get g.indices id) [
    | none ↦ []
    | some idx ↦ preceding g (pg.incoming g.graph idx)
  ]

  unfoldable pub agents_of : List (pg.NodeIndex × EntityEdge) → List String
  agents_of [] = []
  agents_of ((i, produced_by agent_id) ∷ es) = agent_id ∷ agents_of es
  agents_of ((i, consumed agent turn) ∷ es) = agents_of es
  agents_of ((i, shared_with agents) ∷ es) = agents_of es

  unfoldable pub producers_of : Projection p.BeliefId EntityEdge → p.BeliefId → List String
  producers_of g id = elim (hash_get g.indices id) [
    | none ↦ []
    | some idx ↦ agents_of (pg.incoming g.graph idx)
  ]
