-- ===== src/Quad/Revision.antt =====
-- crates/epica-core/src/revision/agm.rs, postulates.rs, record.rs, error.rs: belief revision.
-- A method that mutates the quad returns it beside its result, so an error keeps what was done before it.
-- The clock and the fresh `Uuid` are arguments; a `HashSet` is the list of its elements, each once.
use epica.Quad.HashMap.{hash_remove}
use epica.Quad.Value.{
  EmbeddingProvider, VerdictTrace, BeliefValue, BeliefNode, Provenance, classify,
}
use epica.Prelude.{
  if◌then◌else◌, string_eq, nat_eq, list_eq, bool_eq, any, Result, ℕ, ◌+◌, ◌%◌, ◌^◌, String, Bool,
  true, false, not, ◌&&◌, ◌||◌, Option, none, some, List, [], ◌∷◌, ok, err,
}
use epica.Quad.Value.{asserted, equivalent, classify, value_contradicts_semantic}
use epica.Quad.Platform.{Platform, SlotMap, Petgraph}
use epica.Quad.Store.{
  Core, get, remove, modify, check_contradiction_traced, has_contradiction_edges,
  inferred_from_premises,
}

pub record PostulateAudit ⦃p : Platform⦄ : Type 0 where
  pub success : Bool
  pub inclusion : Bool
  pub vacuity : Bool
  pub consistency : Bool
  pub extensionality : Bool
  pub verdict_trace : VerdictTrace
  pub extensionality_witness : Option p.BeliefId

pub data BeliefRevisionError : Type 0 where
  belief_not_found : BeliefRevisionError
  inconsistent_revision : BeliefRevisionError
  postulate_violation : String → BeliefRevisionError

pub record RevisionRecord ⦃p : Platform⦄ : Type 0 where
  pub revision_id : p.Uuid
  pub belief_id : p.BeliefId
  pub old_value : BeliefValue
  pub new_value : BeliefValue
  pub old_confidence : p.F32
  pub new_confidence : p.F32
  pub contracted : List p.BeliefId
  pub postulate_audit : PostulateAudit
  pub timestamp_ms : ℕ
  pub from_version : ℕ
  pub to_version : ℕ

-- The arguments of a revision, and what it draws from the clock and the random source.
pub record Revision ⦃p : Platform⦄ : Type 0 where
  pub belief_id : p.BeliefId
  pub new_value : BeliefValue
  pub new_provenance : Provenance
  pub new_confidence : p.F32
  pub now_ms : ℕ
  pub revision_id : p.Uuid

module _ ⦃p : Platform⦄ where
  unfoldable pub all_critical_pass : PostulateAudit → Bool
  all_critical_pass a = a.success && a.inclusion && a.consistency && a.extensionality

  unfoldable pub failed_postulate_name : PostulateAudit → String
  failed_postulate_name a =
      if not a.success
      then "K*2 (success)"
      else if not a.inclusion
      then "K*3 (inclusion)"
      else if not a.consistency
      then "K*5 (consistency)"
      else if not a.extensionality
      then "K*6 (extensionality)"
      else "none"

  unfoldable pub is_expansion : RevisionRecord → Bool
  is_expansion r = elim r.contracted [ [] ↦ true | _ ∷ _ ↦ false ]

module _ ⦃p : Platform⦄ ⦃sm : SlotMap p.BeliefId⦄ ⦃pg : Petgraph p.BeliefId⦄ where
  -- `v.is_null() && false`
  unfoldable pub is_self_contradictory : BeliefValue → Bool
  is_self_contradictory value = false

  -- One turn of the loop: `some id` is the early return.
  unfoldable pub breaks_extensionality :
      Core
      → EmbeddingProvider
      → List p.F32
      → p.BeliefId
      → BeliefValue
      → Bool
      → p.BeliefId × BeliefNode
      → Bool
  breaks_extensionality q provider new_emb belief_id target_value expected (other_id, node) =
      if p.belief_id_eq.beq other_id belief_id then false else elim node.value [
        | asserted other_text ↦ elim (provider other_text) [
          | none ↦ false
          | some other_emb ↦ elim (classify q.equivalence new_emb other_emb) [
            | equivalent s ↦
                let alt =
                  (value_contradicts_semantic (some provider) q.equivalence target_value
                    (asserted other_text)).0 in
                not (bool_eq (alt || has_contradiction_edges q.semantic belief_id) expected)
            | _ ↦ false
          ]
        ]
        | _ ↦ false
      ]

  unfoldable pub find_break :
      (p.BeliefId × BeliefNode → Bool) → List (p.BeliefId × BeliefNode) → Option p.BeliefId
  find_break test [] = none
  find_break test ((id, n) ∷ es) = if test (id, n) then some id else find_break test es

  abbrev no_break : Bool × Option p.BeliefId
  no_break = (true, none)

  unfoldable pub check_extensionality :
      Core → p.BeliefId → BeliefValue → Bool → Bool × Option p.BeliefId
  check_extensionality q belief_id new_value expected = elim q.embedding_provider [
    | none ↦ no_break
    | some provider ↦ elim new_value [
      | asserted new_text ↦ elim (provider new_text) [
        | none ↦ no_break
        | some new_emb ↦ elim (get q belief_id) [
          | none ↦ no_break
          | some target_node ↦
              elim (find_break
                (breaks_extensionality q provider new_emb belief_id target_node.value expected)
                (sm.iter q.nodes)) [ none ↦ no_break | some other ↦ (false, some other) ]
        ]
      ]
      | _ ↦ no_break
    ]
  ]

  unfoldable pub audit_of : Core → p.BeliefId → BeliefValue → Bool → VerdictTrace → PostulateAudit
  audit_of q belief_id new_value contradicts_current trace =
      let exists : Bool = elim (get q belief_id) [ none ↦ false | some n ↦ true ] in
      let ext = check_extensionality q belief_id new_value contradicts_current in
      record {
        success = exists;
        inclusion = exists;
        vacuity = not contradicts_current;
        consistency = not (is_self_contradictory new_value);
        extensionality = ext.0;
        verdict_trace = trace;
        extensionality_witness = ext.1;
      }

  unfoldable pub confidence_of : Core → p.BeliefId → p.F32
  confidence_of q id = p.not_nan (elim (get q id) [ none ↦ p.zero | some n ↦ n.fast_confidence ])

  -- `min_by_key` keeps the first of equal minima.
  unfoldable pub smaller : Core → p.BeliefId → p.BeliefId → p.BeliefId
  smaller q x y = if p.le (confidence_of q x) (confidence_of q y) then x else y

  unfoldable pub weakest_from : Core → p.BeliefId → List p.BeliefId → p.BeliefId
  weakest_from q x [] = x
  weakest_from q x (y ∷ ys) = weakest_from q (smaller q x y) ys

  unfoldable pub collect_weakest : Core → List (List p.BeliefId) → List p.BeliefId
  collect_weakest q [] = []
  collect_weakest q ([] ∷ paths) = collect_weakest q paths
  collect_weakest q ((x ∷ xs) ∷ paths) =
      let rest = collect_weakest q paths in
      let w = weakest_from q x xs in
      if any (λ i. p.belief_id_eq.beq i w) rest then rest else w ∷ rest

  unfoldable pub minimal_contraction_set : Core → p.BeliefId → List p.BeliefId
  minimal_contraction_set q belief_id =
      collect_weakest q (inferred_from_premises q.causal belief_id)

  unfoldable pub apply_contraction : Core → List p.BeliefId → Core
  apply_contraction q [] = q
  apply_contraction q (id ∷ ids) = apply_contraction (remove q id).0 ids

  -- The writes to the node; only a contradicting revision resets System 2.
  unfoldable pub rewrite : Bool → Revision → BeliefNode → BeliefNode
  rewrite reset r n = record {
    id = n.id;
    key = n.key;
    value = r.new_value;
    provenance = r.new_provenance;
    created_at_ms = n.created_at_ms;
    ttl_ms = n.ttl_ms;
    fast_confidence = p.clamp_unit r.new_confidence;
    slow_confidence = if reset then none else n.slow_confidence;
    reflection_threshold = n.reflection_threshold;
    prospect = n.prospect;
  }

  unfoldable pub bump : Core → p.BeliefId → Core
  bump q id = record {
    nodes = q.nodes;
    semantic = q.semantic;
    temporal = q.temporal;
    causal = q.causal;
    entity = q.entity;
    version = (q.version + 1) % 2 ^ 64;
    prospective_index = hash_remove ⦃e = p.belief_id_eq⦄ q.prospective_index id;
    embedding_provider = q.embedding_provider;
    equivalence = q.equivalence;
  }

  abbrev pub Revised : Type 0
  Revised = Core × Result BeliefRevisionError RevisionRecord

  abbrev pub record_of :
      Core → Core → BeliefNode → Revision → List p.BeliefId → PostulateAudit → RevisionRecord
  record_of q q' node r contracted audit = record {
    revision_id = r.revision_id;
    belief_id = r.belief_id;
    old_value = node.value;
    new_value = r.new_value;
    old_confidence = node.fast_confidence;
    new_confidence = r.new_confidence;
    contracted = contracted;
    postulate_audit = audit;
    timestamp_ms = r.now_ms;
    from_version = q.version;
    to_version = q'.version;
  }

  -- The expansion that both branches end with.
  unfoldable pub expand : Core → Revision → Bool → List p.BeliefId → PostulateAudit → Revised
  expand q r reset contracted audit = elim (get q r.belief_id) [
    | none ↦ (q, err belief_not_found)
    | some node ↦
        let q' = bump (modify q r.belief_id (rewrite reset r)) r.belief_id in
        (q', ok (record_of q q' node r contracted audit))
  ]

  unfoldable pub expand_only : Core → Revision → PostulateAudit → Revised
  expand_only q r audit = expand q r false [] audit

  unfoldable pub contract_and_expand : Core → Revision → PostulateAudit → Revised
  contract_and_expand q r audit =
      let contraction_set = minimal_contraction_set q r.belief_id in
      expand (apply_contraction q contraction_set) r true contraction_set audit

  unfoldable pub revise : Core → Revision → Revised
  revise q r = elim (get q r.belief_id) [
    | none ↦ (q, err belief_not_found)
    | some _ ↦
        let (contra, trace) = check_contradiction_traced q r.belief_id r.new_value in
        let audit = audit_of q r.belief_id r.new_value contra trace in
        if not (all_critical_pass audit)
        then (q, err (postulate_violation (failed_postulate_name audit)))
        else if contra
        then contract_and_expand q r audit
        else expand_only q r audit
  ]
