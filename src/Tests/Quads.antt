-- ===== src/Tests/Quads.antt =====
-- Runs of the theorems on the belief quad and on contract enforcement.
use epica.Prelude.{
  nat_beq, if◌then◌else◌, string_eq, nat_eq, list_eq, some_inj, get_elem?, IsListed, ℕ, zero, suc,
  String, ◌≡◌, refl, ap, subst, ◌⊎◌, false, none, some, [], ◌∷◌, arith, ok, err,
}
use epica.Quad.Platform.{id_eq}
use epica.Quad.Value.{BeliefNode, asserted, user_statement}
use epica.Quad.Store.{
  add_semantic_edge, add_temporal_edge, add_entity_edge, contradicts_edge, co_occurs, produced_by,
  add_causal_edge, inferred_from, has_contradiction_edges, Core, new_core, insert, remove, get,
}
use epica.Quad.Synchronized.{IsSynchronized, new_core-IsSynchronized, insert-IsSynchronized}
use epica.Quad.Revision.{Revision, RevisionRecord, revise}
use epica.Quad.Postulates.{revise-success, revise-gone, revise-kept}
use epica.Quad.Reassertion.{revise-reasserts}
use epica.Quad.Diff.{diff}
use epica.Quad.Checkpoint.{
  BeliefQuad, rollback_to, find_checkpoint, unnecessary_contraction, BeliefQuadCheckpoint,
  checkpoint_not_found,
}
use epica.Quad.Difference.{SameBeliefs, rollback_to_lem}
use epica.Tests.Instances.{toy_hash}
use epica.Tests.Stores.{toy_platform, toy_slots, toy_graphs}

abbrev pub intent : String → BeliefNode
intent text = record {
  id = 0;
  key = "intent";
  value = asserted text;
  provenance = user_statement 0;
  created_at_ms = 1;
  ttl_ms = none;
  fast_confidence = 1;
  slow_confidence = none;
  reflection_threshold = 0;
  prospect = false;
}

abbrev pub one : Core
one = (insert new_core (intent "read")).0

pub one-IsSynchronized : IsSynchronized one
one-IsSynchronized = insert-IsSynchronized new_core (intent "read") new_core-IsSynchronized

abbrev change : Revision
change = record {
  belief_id = 0;
  new_value = asserted "write";
  new_provenance = user_statement 1;
  new_confidence = 1;
  now_ms = 5;
  revision_id = 9;
}

changes : (rec : RevisionRecord) × ((revise one change).1 ≡ ok rec)
unfolding revise epica.Quad.Store.get insert new_core epica.Quad.HashMap.hash_get
    epica.Quad.HashMap.hash_insert epica.Quad.Revision.all_critical_pass
    epica.Quad.Revision.audit_of epica.Quad.Revision.is_self_contradictory
    epica.Quad.Revision.check_extensionality epica.Quad.Store.check_contradiction_traced
    epica.Quad.Value.value_contradicts_semantic epica.Quad.Value.value_contradicts
    epica.Quad.Value.consult epica.Quad.Revision.contract_and_expand epica.Quad.Revision.expand
    epica.Quad.Revision.apply_contraction epica.Quad.Revision.minimal_contraction_set
    epica.Quad.Projection.add_node epica.Quad.Projection.new_graph
    epica.Quad.Revision.collect_weakest epica.Quad.Store.has_contradiction_edges
    epica.Quad.Store.inferred_from_premises epica.Quad.Store.premises_of
changes = (_, refl)

revise-success_example :
    (n : BeliefNode) × (get (revise one change).0 0 ≡ some n)
    × (n.value ≡ asserted "write")
    × (n.provenance ≡ user_statement 1)
    × (n.fast_confidence ≡ 1)
revise-success_example = revise-success one change changes.1

-- A second belief, which the revised one was inferred from.
abbrev pub premise : BeliefNode
premise = record {
  id = 0;
  key = "premise";
  value = asserted "notes";
  provenance = user_statement 0;
  created_at_ms = 1;
  ttl_ms = none;
  fast_confidence = 1;
  slow_confidence = none;
  reflection_threshold = 0;
  prospect = false;
}

abbrev pub inferred : Core
inferred = add_causal_edge (insert one premise).0 1 0 (inferred_from (1 ∷ []))

infers : (rec : RevisionRecord) × ((revise inferred change).1 ≡ ok rec)
unfolding revise epica.Quad.Store.get insert new_core epica.Quad.HashMap.hash_get
    epica.Quad.HashMap.hash_insert epica.Quad.Revision.all_critical_pass
    epica.Quad.Revision.audit_of epica.Quad.Revision.is_self_contradictory
    epica.Quad.Revision.check_extensionality epica.Quad.Store.check_contradiction_traced
    epica.Quad.Value.value_contradicts_semantic epica.Quad.Value.value_contradicts
    epica.Quad.Value.consult epica.Quad.Revision.contract_and_expand epica.Quad.Revision.expand
    epica.Quad.Revision.apply_contraction epica.Quad.Revision.minimal_contraction_set
    epica.Quad.Projection.add_node epica.Quad.Projection.new_graph
    epica.Quad.Revision.collect_weakest epica.Quad.Store.inferred_from_premises
    epica.Quad.Store.premises_of epica.Quad.Revision.expand_only epica.Quad.Revision.weakest_from
    epica.Quad.Store.add_causal_edge epica.Quad.Projection.add_edge epica.Quad.Projection.ends
    epica.Quad.Store.has_contradiction_edges epica.Quad.Store.remove
    epica.Quad.Revision.confidence_of epica.Quad.Revision.bump epica.Quad.Store.modify
    epica.Quad.HashMap.hash_remove epica.Quad.Projection.remove_node
infers = (_, refl)

infers-contracts : infers.0.contracted ≡ 1 ∷ []
unfolding infers revise epica.Quad.Store.get insert new_core epica.Quad.HashMap.hash_get
    epica.Quad.HashMap.hash_insert epica.Quad.Revision.all_critical_pass
    epica.Quad.Revision.audit_of epica.Quad.Revision.is_self_contradictory
    epica.Quad.Revision.check_extensionality epica.Quad.Store.check_contradiction_traced
    epica.Quad.Value.value_contradicts_semantic epica.Quad.Value.value_contradicts
    epica.Quad.Value.consult epica.Quad.Revision.contract_and_expand epica.Quad.Revision.expand
    epica.Quad.Revision.apply_contraction epica.Quad.Revision.minimal_contraction_set
    epica.Quad.Projection.add_node epica.Quad.Projection.new_graph
    epica.Quad.Revision.collect_weakest epica.Quad.Store.inferred_from_premises
    epica.Quad.Store.premises_of epica.Quad.Revision.expand_only epica.Quad.Revision.weakest_from
    epica.Quad.Store.add_causal_edge epica.Quad.Projection.add_edge epica.Quad.Projection.ends
    epica.Quad.Store.has_contradiction_edges epica.Quad.Store.remove
    epica.Quad.Revision.confidence_of epica.Quad.Revision.bump epica.Quad.Store.modify
    epica.Quad.HashMap.hash_remove epica.Quad.Projection.remove_node
infers-contracts = refl

revise-gone_example : get (revise inferred change).0 1 ≡ none
revise-gone_example =
    revise-gone inferred change 1 infers.1 (omega arith)
      (0, ap (λ x. get_elem? x 0) infers-contracts)

revise-kept_example : get (revise inferred change).0 5 ≡ get inferred 5
revise-kept_example =
    revise-kept inferred change 5 infers.1 (omega arith)
      (λ l. not-listed (subst (IsListed {A = ℕ} 5) infers-contracts l))
  where
    not-listed : ¬ IsListed {A = ℕ} 5 (1 ∷ [])
    not-listed (zero, h) = absurd (omega (arith, some_inj h))
    not-listed (suc i, h) = absurd cc

-- The same statement again, which contradicts nothing.
abbrev restated : Revision
restated = record {
  belief_id = 0;
  new_value = asserted "read";
  new_provenance = user_statement 1;
  new_confidence = 1;
  now_ms = 5;
  revision_id = 9;
}

restates : (rec : RevisionRecord) × ((revise one restated).1 ≡ ok rec)
unfolding revise epica.Quad.Store.get insert new_core epica.Quad.HashMap.hash_get
    epica.Quad.HashMap.hash_insert epica.Quad.Revision.all_critical_pass
    epica.Quad.Revision.audit_of epica.Quad.Revision.is_self_contradictory
    epica.Quad.Revision.check_extensionality epica.Quad.Store.check_contradiction_traced
    epica.Quad.Value.value_contradicts_semantic epica.Quad.Value.value_contradicts
    epica.Quad.Value.consult epica.Quad.Revision.contract_and_expand epica.Quad.Revision.expand
    epica.Quad.Revision.apply_contraction epica.Quad.Revision.minimal_contraction_set
    epica.Quad.Projection.add_node epica.Quad.Projection.new_graph
    epica.Quad.Revision.collect_weakest epica.Quad.Store.inferred_from_premises
    epica.Quad.Store.premises_of epica.Quad.Revision.expand_only epica.Quad.Revision.weakest_from
    epica.Quad.Store.add_causal_edge epica.Quad.Projection.add_edge epica.Quad.Projection.ends
    epica.Quad.Store.has_contradiction_edges epica.Quad.Store.remove
    epica.Quad.Revision.confidence_of epica.Quad.Revision.bump epica.Quad.Store.modify
    epica.Quad.HashMap.hash_remove epica.Quad.Projection.remove_node
restates = (_, refl)

unopposed : has_contradiction_edges one.semantic 0 ≡ false
unfolding has_contradiction_edges epica.Quad.HashMap.hash_get insert new_core
    epica.Quad.Projection.add_node epica.Quad.Projection.new_graph epica.Quad.HashMap.hash_insert
unopposed = refl

there : (n : BeliefNode) × (get one 0 ≡ some n) × (n.value ≡ asserted "read")
unfolding get insert new_core epica.Quad.HashMap.hash_get epica.Quad.HashMap.hash_insert
there = (_, refl, refl)

revise-reasserts_example :
    (restates.0.contracted ≡ [])
    × (get (revise one restated).0 0 ≡ (
        if nat_beq 0 0 then some (epica.Quad.Reassertion.restated restated there.0) else get one 0))
revise-reasserts_example = revise-reasserts one restated 0 there.1 there.2 unopposed restates.1

abbrev quad : BeliefQuad
quad = record { core = one; checkpoints = [] }

rollback_to_lem_example :
    ((cp : BeliefQuadCheckpoint) × (find_checkpoint quad.checkpoints 77 ≡ some cp)
      × (¬ SameBeliefs one cp.quad)
      × (rollback_to quad 77
          ≡ (record { core = cp.quad; checkpoints = [] }, ok (diff one cp.quad))))
    ⊎ ((cp : BeliefQuadCheckpoint) × (find_checkpoint quad.checkpoints 77 ≡ some cp)
        × SameBeliefs one cp.quad
        × (rollback_to quad 77 ≡ (quad, err (unnecessary_contraction (diff one cp.quad)))))
    ⊎ ((find_checkpoint quad.checkpoints 77 ≡ none)
        × (rollback_to quad 77 ≡ (quad, err (checkpoint_not_found 77))))
rollback_to_lem_example = rollback_to_lem quad 77
