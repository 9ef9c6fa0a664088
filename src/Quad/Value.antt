-- ===== src/Quad/Value.antt =====
-- crates/epica-core/src/belief/node.rs, belief/confidence.rs, embedding/mod.rs and the value comparisons
-- of quad/semantic.rs.
use epica.Prelude.{
  leb, nat_beq, if◌then◌else◌, nat_eq, string_eq, list_eq, Bool-cases, length, ℕ, ◌-◌, String, ◌≡◌,
  inl, inr, Bool, true, false, not, ◌||◌, Option, none, some, List, ◌∷◌, arith,
}
use epica.Quad.Platform.{Platform}

pub data BeliefValue ⦃p : Platform⦄ : Type 0 where
  deterministic : p.Json → BeliefValue
  inferred : p.Json → BeliefValue
  asserted : String → BeliefValue
  reference : p.BeliefId → BeliefValue

pub data Provenance ⦃p : Platform⦄ : Type 0 where
  tool_result : String → p.Uuid → Provenance
  llm_inference : String → p.Uuid → ℕ → Provenance
  user_statement : ℕ → Provenance
  runtime_inference : List p.BeliefId → Provenance

pub record BeliefNode ⦃p : Platform⦄ : Type 0 where
  pub id : p.BeliefId
  pub key : String
  pub value : BeliefValue
  pub provenance : Provenance
  pub created_at_ms : ℕ
  pub ttl_ms : Option ℕ
  pub fast_confidence : p.F32
  pub slow_confidence : Option p.F32
  pub reflection_threshold : p.F32
  pub prospect : Bool

pub record SemanticEquivalence ⦃p : Platform⦄ : Type 0 where
  pub equivalence : p.F32
  pub contradiction : p.F32

pub data EquivalenceVerdict ⦃p : Platform⦄ : Type 0 where
  equivalent contradicts undecided : p.F32 → EquivalenceVerdict

pub data VerdictTrace ⦃p : Platform⦄ : Type 0 where
  literal_agree : VerdictTrace
  semantic_equivalent semantic_contradicts literal_disagree_undecided : p.F32 → VerdictTrace
  literal_disagree_no_cache : VerdictTrace

module _ ⦃p : Platform⦄ where
  unfoldable pub new_node : String → BeliefValue → Provenance → p.F32 → ℕ → BeliefNode
  new_node key value provenance confidence now_ms = record {
    id = p.null_id;
    key = key;
    value = value;
    provenance = provenance;
    created_at_ms = now_ms;
    ttl_ms = none;
    fast_confidence = p.clamp_unit confidence;
    slow_confidence = none;
    reflection_threshold = p.default_reflection_threshold;
    prospect = false;
  }

  unfoldable pub is_node_expired : BeliefNode → ℕ → Bool
  is_node_expired n current_ms = elim n.ttl_ms [
    | none ↦ false
    | some ttl ↦ leb ttl (current_ms - n.created_at_ms)
  ]

  unfoldable pub default_thresholds : SemanticEquivalence
  default_thresholds = record {
    equivalence = p.default_equivalence;
    contradiction = p.default_contradiction;
  }

  -- The three accumulators of the loop, from the first component on.
  unfoldable pub cosine_sums :
      List p.F32 → List p.F32 → p.F32 → p.F32 → p.F32 → p.F32 × p.F32 × p.F32
  cosine_sums (x ∷ xs) (y ∷ ys) dot na nb =
      cosine_sums xs ys (p.add dot (p.mul x y)) (p.add na (p.mul x x)) (p.add nb (p.mul y y))
  cosine_sums _ _ dot na nb = (dot, na, nb)

  unfoldable pub cosine_similarity : List p.F32 → List p.F32 → p.F32
  cosine_similarity a b =
      if not (nat_beq (length a) (length b)) || nat_beq (length a) 0
      then p.zero
      else (let (dot, na, nb) = cosine_sums a b p.zero p.zero p.zero in
          let denom = p.mul (p.sqrt na) (p.sqrt nb) in
          if p.is_zero denom then p.zero else p.div dot denom)

  unfoldable pub classify : SemanticEquivalence → List p.F32 → List p.F32 → EquivalenceVerdict
  classify q a b =
      let s = cosine_similarity a b in
      if p.le q.equivalence s
      then equivalent s
      else if p.le s q.contradiction
      then contradicts s
      else undecided s

  unfoldable pub value_contradicts : BeliefValue → BeliefValue → Bool
  value_contradicts (deterministic a) (deterministic b) = not (p.json_eq.beq a b)
  value_contradicts (inferred a) (inferred b) = not (p.json_eq.beq a b)
  value_contradicts (asserted a) (asserted b) = not (string_eq.beq (p.normalize a) (p.normalize b))
  value_contradicts (reference a) (reference b) = not (p.belief_id_eq.beq a b)
  value_contradicts _ _ = true

  -- `dyn EmbeddingProvider` by its `embed_cached`.
  abbrev pub EmbeddingProvider : Type 0
  EmbeddingProvider = String → Option (List p.F32)

  unfoldable pub verdict_of : EquivalenceVerdict → Bool × VerdictTrace
  verdict_of (equivalent s) = (false, semantic_equivalent s)
  verdict_of (contradicts s) = (true, semantic_contradicts s)
  verdict_of (undecided s) = (true, literal_disagree_undecided s)

  unfoldable pub consult :
      Option EmbeddingProvider
      → SemanticEquivalence
      → BeliefValue
      → BeliefValue
      → Bool × VerdictTrace
  consult (some provider) q (asserted a) (asserted b) = elim (provider a) [
    | none ↦ (true, literal_disagree_no_cache)
    | some va ↦ elim (provider b) [
      | none ↦ (true, literal_disagree_no_cache)
      | some vb ↦ verdict_of (classify q va vb)
    ]
  ]
  consult _ q _ _ = (true, literal_disagree_no_cache)

  unfoldable pub value_contradicts_semantic :
      Option EmbeddingProvider
      → SemanticEquivalence
      → BeliefValue
      → BeliefValue
      → Bool × VerdictTrace
  value_contradicts_semantic provider q current_value new_value =
      if value_contradicts current_value new_value
      then consult provider q current_value new_value
      else (false, literal_agree)

  -- The semantic comparison only ever withdraws a contradiction that the literal one reports.
  pub value_contradicts_semantic-le :
      (provider : Option EmbeddingProvider) (q : SemanticEquivalence) (v w : BeliefValue)
      → (value_contradicts_semantic provider q v w).0 ≡ true
      → value_contradicts v w ≡ true
  unfolding value_contradicts_semantic
  value_contradicts_semantic-le provider q v w h = elim (Bool-cases (value_contradicts v w)) [
    | inl t ↦ t
    | inr f ↦ absurd (ground (arith, f, h))
  ]
