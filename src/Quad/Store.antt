-- ===== src/Quad/Store.antt =====
-- crates/epica-core/src/quad/mod.rs, with the edges of the four graphs and prospective/mod.rs.
use epica.Quad.Value.{
  BeliefNode, BeliefValue, default_thresholds, VerdictTrace, EmbeddingProvider, literal_agree,
  SemanticEquivalence, value_contradicts_semantic,
}
use epica.Quad.Projection.{new_graph, Projection, remove_node, add_edge, add_node}
use epica.Prelude.{
  if◌then◌else◌, nat_eq, string_eq, list_eq, length, drop, any, ℕ, ◌+◌, ◌%◌, ◌^◌, String, Bool,
  true, false, ◌||◌, Option, none, some, List, [], ◌∷◌,
}
use epica.Quad.HashMap.{HashMap, hash_get, hash_remove}
use epica.Quad.Platform.{Platform, id_eq, Petgraph, SlotMap}

-- The parameter `p` is the platform of the belief ids.
pub data SemanticEdge : Type 0 where
  subsumes contradicts_edge synonymous : SemanticEdge

pub data TemporalEdge : Type 0 where
  precedes : ℕ → TemporalEdge
  co_occurs : TemporalEdge
  supersedes : TemporalEdge

pub data CausalEdge ⦃p : Platform⦄ : Type 0 where
  causes : p.F32 → p.F32 → CausalEdge
  inferred_from : List p.BeliefId → CausalEdge
  counterfactual : p.BeliefId → CausalEdge

pub data EntityEdge : Type 0 where
  produced_by : String → EntityEdge
  consumed : String → ℕ → EntityEdge
  shared_with : List String → EntityEdge

pub record CausalEvent ⦃p : Platform⦄ : Type 0 where
  pub trigger : String
  pub consequence : String
  pub probability : p.F32
  pub precondition_beliefs : List p.BeliefId

pub record ProspectiveEntry ⦃p : Platform⦄ : Type 0 where
  pub scenario : String
  pub embedding : List p.F32
  pub causal_events : List CausalEvent

-- Everything but the checkpoints, which hold such a value each.
pub record Core ⦃p : Platform⦄ ⦃sm : SlotMap p.BeliefId⦄ ⦃pg : Petgraph p.BeliefId⦄ : Type 0 where
  pub nodes : sm.Map BeliefNode
  pub semantic : Projection p.BeliefId SemanticEdge
  pub temporal : Projection p.BeliefId TemporalEdge
  pub causal : Projection p.BeliefId CausalEdge
  pub entity : Projection p.BeliefId EntityEdge
  pub version : ℕ
  pub prospective_index : HashMap p.BeliefId (List ProspectiveEntry)
  pub embedding_provider : Option EmbeddingProvider
  pub equivalence : SemanticEquivalence

module _ ⦃p : Platform⦄ ⦃pg : Petgraph p.BeliefId⦄ where
  unfoldable pub is_symmetric : SemanticEdge → Bool
  is_symmetric subsumes = false
  is_symmetric contradicts_edge = true
  is_symmetric synonymous = true

  unfoldable pub add_semantic :
      Projection p.BeliefId SemanticEdge
      → p.BeliefId
      → p.BeliefId
      → SemanticEdge
      → Projection p.BeliefId SemanticEdge
  add_semantic g from to edge =
      let g1 = add_edge g from to edge in if is_symmetric edge then add_edge g1 to from edge else g1

  unfoldable pub has_contradiction_edges : Projection p.BeliefId SemanticEdge → p.BeliefId → Bool
  has_contradiction_edges g id = elim (hash_get g.indices id) [
    | none ↦ false
    | some idx ↦
        any (λ e. elim e.1 [ contradicts_edge ↦ true | _ ↦ false ]) (pg.outgoing g.graph idx)
  ]

  unfoldable pub premises_of : List (pg.NodeIndex × CausalEdge) → List (List p.BeliefId)
  premises_of [] = []
  premises_of ((i, inferred_from premises) ∷ es) = premises ∷ premises_of es
  premises_of ((i, causes _ _) ∷ es) = premises_of es
  premises_of ((i, counterfactual _) ∷ es) = premises_of es

  unfoldable pub inferred_from_premises :
      Projection p.BeliefId CausalEdge → p.BeliefId → List (List p.BeliefId)
  inferred_from_premises g id = elim (hash_get g.indices id) [
    | none ↦ []
    | some idx ↦ premises_of (pg.incoming g.graph idx)
  ]

  unfoldable pub labels : Projection p.BeliefId CausalEdge → List pg.NodeIndex → List p.BeliefId
  labels g [] = []
  labels g (i ∷ is) =
      let rest = labels g is in elim (pg.weight g.graph i) [ none ↦ rest | some id ↦ id ∷ rest ]

  -- The start, which the search yields first, is left out.
  unfoldable pub descendants_of : Projection p.BeliefId CausalEdge → p.BeliefId → List p.BeliefId
  descendants_of g id = elim (hash_get g.indices id) [
    | none ↦ []
    | some start ↦ labels g (drop 1 (pg.dfs g.graph start))
  ]

module _ ⦃p : Platform⦄ ⦃sm : SlotMap p.BeliefId⦄ ⦃pg : Petgraph p.BeliefId⦄ where
  unfoldable pub new_core : Core
  new_core = record {
    nodes = sm.with_key;
    semantic = new_graph;
    temporal = new_graph;
    causal = new_graph;
    entity = new_graph;
    version = 0;
    prospective_index = [];
    embedding_provider = none;
    equivalence = default_thresholds;
  }

  abbrev with_id : BeliefNode → p.BeliefId → BeliefNode
  with_id n k = record {
    id = k;
    key = n.key;
    value = n.value;
    provenance = n.provenance;
    created_at_ms = n.created_at_ms;
    ttl_ms = n.ttl_ms;
    fast_confidence = n.fast_confidence;
    slow_confidence = n.slow_confidence;
    reflection_threshold = n.reflection_threshold;
    prospect = n.prospect;
  }

  unfoldable pub insert : Core → BeliefNode → Core × p.BeliefId
  insert q node =
      let (nodes, id) = sm.insert_with_key q.nodes (with_id node) in
      (
        record {
          nodes = nodes;
          semantic = add_node q.semantic id;
          temporal = add_node q.temporal id;
          causal = add_node q.causal id;
          entity = add_node q.entity id;
          version = (q.version + 1) % 2 ^ 64;
          prospective_index = q.prospective_index;
          embedding_provider = q.embedding_provider;
          equivalence = q.equivalence;
        },
        id,
      )

  unfoldable pub get : Core → p.BeliefId → Option BeliefNode
  get q id = sm.get q.nodes id

  -- A write through `get_mut`.
  unfoldable pub modify : Core → p.BeliefId → (BeliefNode → BeliefNode) → Core
  modify q id f = record {
    nodes = sm.update q.nodes id f;
    semantic = q.semantic;
    temporal = q.temporal;
    causal = q.causal;
    entity = q.entity;
    version = q.version;
    prospective_index = q.prospective_index;
    embedding_provider = q.embedding_provider;
    equivalence = q.equivalence;
  }

  unfoldable pub remove : Core → p.BeliefId → Core × Option BeliefNode
  remove q id = elim (sm.get q.nodes id) [
    | none ↦ (q, none)
    | some node ↦ (
      record {
        nodes = sm.remove q.nodes id;
        semantic = remove_node q.semantic id;
        temporal = remove_node q.temporal id;
        causal = remove_node q.causal id;
        entity = remove_node q.entity id;
        version = (q.version + 1) % 2 ^ 64;
        prospective_index = hash_remove q.prospective_index id;
        embedding_provider = q.embedding_provider;
        equivalence = q.equivalence;
      },
      some node,
    )
  ]

  unfoldable pub len : Core → ℕ
  len q = length (sm.iter q.nodes)

  unfoldable pub check_contradiction_traced : Core → p.BeliefId → BeliefValue → Bool × VerdictTrace
  check_contradiction_traced q id new_value = elim (sm.get q.nodes id) [
    | none ↦ (false, literal_agree)
    | some node ↦
        let (value_contra, trace) =
          value_contradicts_semantic q.embedding_provider q.equivalence node.value new_value in
        (value_contra || has_contradiction_edges q.semantic id, trace)
  ]

  -- `add_semantic_edge` and its kin: each changes one graph and neither the beliefs nor the version.
  unfoldable pub add_causal_edge : Core → p.BeliefId → p.BeliefId → CausalEdge → Core
  add_causal_edge q from to edge = record {
    nodes = q.nodes;
    semantic = q.semantic;
    temporal = q.temporal;
    causal = add_edge q.causal from to edge;
    entity = q.entity;
    version = q.version;
    prospective_index = q.prospective_index;
    embedding_provider = q.embedding_provider;
    equivalence = q.equivalence;
  }

  unfoldable pub add_semantic_edge : Core → p.BeliefId → p.BeliefId → SemanticEdge → Core
  add_semantic_edge q from to edge = record {
    nodes = q.nodes;
    semantic = add_semantic q.semantic from to edge;
    temporal = q.temporal;
    causal = q.causal;
    entity = q.entity;
    version = q.version;
    prospective_index = q.prospective_index;
    embedding_provider = q.embedding_provider;
    equivalence = q.equivalence;
  }

  unfoldable pub add_temporal_edge : Core → p.BeliefId → p.BeliefId → TemporalEdge → Core
  add_temporal_edge q from to edge = record {
    nodes = q.nodes;
    semantic = q.semantic;
    temporal = add_edge q.temporal from to edge;
    causal = q.causal;
    entity = q.entity;
    version = q.version;
    prospective_index = q.prospective_index;
    embedding_provider = q.embedding_provider;
    equivalence = q.equivalence;
  }

  unfoldable pub add_entity_edge : Core → p.BeliefId → p.BeliefId → EntityEdge → Core
  add_entity_edge q from to edge = record {
    nodes = q.nodes;
    semantic = q.semantic;
    temporal = q.temporal;
    causal = q.causal;
    entity = add_edge q.entity from to edge;
    version = q.version;
    prospective_index = q.prospective_index;
    embedding_provider = q.embedding_provider;
    equivalence = q.equivalence;
  }
