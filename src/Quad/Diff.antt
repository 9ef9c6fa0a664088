-- ===== src/Quad/Diff.antt =====
-- crates/epica-core/src/diff/mod.rs and edge_diff.rs: the structural difference of two quads by belief key.
use epica.Quad.Value.{BeliefNode, BeliefValue, deterministic, inferred, asserted, reference}
use epica.Quad.Store.{SemanticEdge, TemporalEdge, CausalEdge, Core, EntityEdge}
use epica.Quad.Platform.{Platform, SlotMap, Petgraph}
use epica.Prelude.{
  if◌then◌else◌, string_eq, nat_eq, list_eq, ℕ, String, ◌≡◌, refl, Bool, true, false, not, ◌||◌,
  Option, none, some, List, [], ◌∷◌,
}
use epica.Quad.HashMap.{
  HashMap, Agrees, Distinct, hash_insert, hash_get, hash_insert-Distinct, Distinct-Agrees,
}

pub record BeliefSnapshot ⦃p : Platform⦄ : Type 0 where
  pub id : p.BeliefId
  pub key : String
  pub value : BeliefValue
  pub fast_confidence : p.F32
  pub slow_confidence : Option p.F32
  pub version_at_snapshot : ℕ

pub record BeliefModification ⦃p : Platform⦄ : Type 0 where
  pub id : p.BeliefId
  pub key : String
  pub old_value : BeliefValue
  pub new_value : BeliefValue
  pub old_confidence : p.F32
  pub new_confidence : p.F32

pub record EdgeDiff ⦃p : Platform⦄ (E : Type 0) : Type 0 where
  pub added : List (p.BeliefId × p.BeliefId × E)
  pub removed : List (p.BeliefId × p.BeliefId × E)

pub record BeliefQuadDiff ⦃p : Platform⦄ : Type 0 where
  pub added : List BeliefSnapshot
  pub removed : List BeliefSnapshot
  pub modified : List BeliefModification
  pub semantic_edges : EdgeDiff SemanticEdge
  pub temporal_edges : EdgeDiff TemporalEdge
  pub causal_edges : EdgeDiff CausalEdge
  pub entity_edges : EdgeDiff EntityEdge
  pub confidence_delta : HashMap String (p.F32 × p.F32)
  pub trajectory_ece : Option p.F32

module _ ⦃p : Platform⦄ where
  abbrev is_nil : {A : Type 0} → List A → Bool
  is_nil [] = true
  is_nil (_ ∷ _) = false

  unfoldable pub from_node : BeliefNode → ℕ → BeliefSnapshot
  from_node node version = record {
    id = node.id;
    key = node.key;
    value = node.value;
    fast_confidence = node.fast_confidence;
    slow_confidence = node.slow_confidence;
    version_at_snapshot = version;
  }

  abbrev no_edges : {E : Type 0} → EdgeDiff E
  no_edges = record { added = []; removed = [] }

  unfoldable pub has_contradictions : BeliefQuadDiff → Bool
  has_contradictions d = not (is_nil d.added) || not (is_nil d.modified) || not (is_nil d.removed)

  -- The derived equality of `BeliefValue`.
  unfoldable pub same_value : BeliefValue → BeliefValue → Bool
  same_value (deterministic a) (deterministic b) = p.json_eq.beq a b
  same_value (inferred a) (inferred b) = p.json_eq.beq a b
  same_value (asserted a) (asserted b) = string_eq.beq a b
  same_value (reference a) (reference b) = p.belief_id_eq.beq a b
  same_value _ _ = false

  -- `contains_key`
  unfoldable pub has_key : HashMap String BeliefNode → String → Bool
  has_key m k = elim (hash_get m k) [ none ↦ false | some n ↦ true ]

  -- The beliefs of `m` whose key `other` lacks.
  unfoldable pub missing_from :
      HashMap String BeliefNode → ℕ → HashMap String BeliefNode → List BeliefSnapshot
  missing_from other version [] = []
  missing_from other version ((k, n) ∷ m) =
      let rest = missing_from other version m in
      if has_key other k then rest else from_node n version ∷ rest

  abbrev modification : BeliefNode → BeliefNode → BeliefModification
  modification new old = record {
    id = new.id;
    key = new.key;
    old_value = old.value;
    new_value = new.value;
    old_confidence = old.fast_confidence;
    new_confidence = new.fast_confidence;
  }

  abbrev conf_changed : BeliefNode → BeliefNode → Bool
  conf_changed new old = p.moved new.fast_confidence old.fast_confidence

  abbrev is_modified : BeliefNode → BeliefNode → Bool
  is_modified new old = not (same_value new.value old.value) || conf_changed new old

  unfoldable pub modified_from :
      HashMap String BeliefNode → HashMap String BeliefNode → List BeliefModification
  modified_from other [] = []
  modified_from other ((k, n) ∷ m) =
      let rest = modified_from other m in
      elim (hash_get other k) [
        | none ↦ rest
        | some old ↦ if is_modified n old then modification n old ∷ rest else rest
      ]

  unfoldable pub deltas :
      HashMap String BeliefNode
      → HashMap String BeliefNode
      → HashMap String (p.F32 × p.F32)
      → HashMap String (p.F32 × p.F32)
  deltas other [] acc = acc
  deltas other ((k, n) ∷ m) acc = deltas other m (elim (hash_get other k) [
    | none ↦ acc
    | some old ↦
        if conf_changed n old
        then hash_insert acc n.key (old.fast_confidence, n.fast_confidence)
        else acc
  ])

  -- `collect` into a map by key: of two beliefs with one key the later one stays.
  unfoldable pub by_key :
      HashMap String BeliefNode → List (p.BeliefId × BeliefNode) → HashMap String BeliefNode
  by_key acc [] = acc
  by_key acc ((id, n) ∷ ns) = by_key (hash_insert acc n.key n) ns

module _ ⦃p : Platform⦄ ⦃sm : SlotMap p.BeliefId⦄ ⦃pg : Petgraph p.BeliefId⦄ where
  unfoldable pub diff : Core → Core → BeliefQuadDiff
  diff self other =
      let self_by_key = by_key [] (sm.iter self.nodes) in
      let other_by_key = by_key [] (sm.iter other.nodes) in
      record {
        added = missing_from other_by_key self.version self_by_key;
        removed = missing_from self_by_key other.version other_by_key;
        modified = modified_from other_by_key self_by_key;
        semantic_edges = no_edges;
        temporal_edges = no_edges;
        causal_edges = no_edges;
        entity_edges = no_edges;
        confidence_delta = deltas other_by_key self_by_key [];
        trajectory_ece = none;
      }

module _ ⦃p : Platform⦄ where
  pub by_key-Distinct :
      (acc : HashMap String BeliefNode) (ns : List (p.BeliefId × BeliefNode))
      → Distinct acc
      → Distinct (by_key acc ns)
  unfolding by_key
  by_key-Distinct acc [] d = d
  by_key-Distinct acc ((id, n) ∷ ns) d =
      by_key-Distinct (hash_insert acc n.key n) ns (hash_insert-Distinct acc n.key n d)

  missing_from-Agrees :
      (m s : HashMap String BeliefNode) (version : ℕ) → Agrees s m → missing_from m version s ≡ []
  unfolding missing_from Agrees has_key
  missing_from-Agrees m [] version a = refl
  missing_from-Agrees m ((k, n) ∷ s) version a =
      rw (a.0, has_key) (missing_from-Agrees m s version a.1)

  pub same_value_refl : (v : BeliefValue) → same_value v v ≡ true
  unfolding same_value
  same_value_refl (deterministic a) = (p.json_eq.beq_iff a a).1 refl
  same_value_refl (inferred a) = (p.json_eq.beq_iff a a).1 refl
  same_value_refl (asserted a) = (string_eq.beq_iff a a).1 refl
  same_value_refl (reference a) = (p.belief_id_eq.beq_iff a a).1 refl

  modified_from-Agrees : (m s : HashMap String BeliefNode) → Agrees s m → modified_from m s ≡ []
  unfolding modified_from Agrees
  modified_from-Agrees m [] a = refl
  modified_from-Agrees m ((k, n) ∷ s) a =
      rw (a.0, modified_from, same_value_refl n.value, p.moved_refl n.fast_confidence)
        (modified_from-Agrees m s a.1)

module _ ⦃p : Platform⦄ ⦃sm : SlotMap p.BeliefId⦄ ⦃pg : Petgraph p.BeliefId⦄ where
  -- The difference of two quads with the same belief map has no beliefs added, removed or modified,
  -- whatever their graphs and versions.
  pub has_contradictions-diff_same :
      (q r : Core) → q.nodes ≡ r.nodes → has_contradictions (diff q r) ≡ false
  unfolding has_contradictions diff Distinct
  has_contradictions-diff_same q r same =
      let m = by_key [] (sm.iter r.nodes) in
      let d : Distinct m = by_key-Distinct [] (sm.iter r.nodes) tt in
      let a = Distinct-Agrees m d in
      rw
        (
          same,
          missing_from-Agrees m m q.version a,
          missing_from-Agrees m m r.version a,
          modified_from-Agrees m m a,
        )
        refl
