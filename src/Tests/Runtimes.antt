-- ===== src/Tests/Runtimes.antt =====
-- Runs of the theorems on the runtime.
use epica.Prelude.{
  string_eq, nat_eq, list_eq, ◌+◌, ◌≡◌, refl, ◌⊎◌, false, none, some, List, [], ◌∷◌, ok,
}
use epica.Quad.Platform.{id_eq}
use epica.Quad.Value.{BeliefNode, asserted, user_statement}
use epica.Quad.Store.{get}
use epica.Contracts.Defs.{
  ContractViolation, collect_all_violations, violations_of, BehavioralContract, SessionInvariant,
  rollback_to_last_checkpoint,
}
use epica.Sovereignty.Checks.{hard}
use epica.Quad.Checkpoint.{find_checkpoint, BeliefQuad}
use epica.Runtime.Beliefs.{RuntimeUpdateResult, BeliefRuntime, new_runtime, with_contract}
use epica.Runtime.Update.{Change, update_belief}
use epica.Runtime.Consistent.{IsConsistent}
use epica.Runtime.Sessions.{
  session, session-IsConsistent, insert_belief_call, update_belief_call, rollback_call,
}
use epica.Runtime.Outcomes.{spread_of}
use epica.Runtime.Restores.{AllHold, update_belief-holds, update_belief-restores}
use epica.Runtime.Gate.{IsAdmissible, IsRefused, counted, update_belief-admits}
use epica.Runtime.Update.{commit}
use epica.Runtime.Beliefs.{key_of}
use epica.Tests.Instances.{toy_hash, toy_encoder}
use epica.Tests.Stores.{toy_platform, toy_slots, toy_graphs}
use epica.Tests.Quads.{intent, one-IsSynchronized}
use epica.Tests.Updates.{toy_shell, quiet, quad, world, contract, always, never, invariant}
use epica.Tests.Propagations.{toy_stopwatch}

abbrev pub runtime : BeliefRuntime Unit
runtime = new_runtime quad 0 3 0 0

abbrev pub write : Change
write = record {
  id = 0;
  value = asserted "write";
  provenance = user_statement 1;
  confidence = 1;
  checkpoint_id = 7;
  checkpoint_ms = 2;
  revision_id = 9;
  revision_ms = 5;
  clock = λ n. n;
  violation_ids = λ i j. i + j;
  audit_ms = 6;
  record_ms = 8;
}

starts : IsConsistent runtime.quad
unfolding new_runtime
starts = record { current = one-IsSynchronized; saved = tt }

session-IsConsistent_example :
    IsConsistent
      (session
        (insert_belief_call (intent "plan") ∷ update_belief_call write ∷ rollback_call 7 ∷ [])
        runtime
        world).0.quad
session-IsConsistent_example =
    session-IsConsistent
      (insert_belief_call (intent "plan") ∷ update_belief_call write ∷ rollback_call 7 ∷ []) runtime
      world starts

abbrev watched : BeliefRuntime Unit
watched = with_contract runtime (contract (invariant always false ∷ []))

holds : AllHold watched (spread_of watched write)
unfolding new_runtime with_contract epica.Runtime.Beliefs.new_engine
holds = refl

updates : (x : RuntimeUpdateResult) × ((update_belief watched world write).2 ≡ ok x)
unfolding update_belief new_runtime with_contract epica.Contracts.Precheck.pre_update
    epica.Runtime.Beliefs.new_engine epica.Contracts.Precheck.first_failing
    epica.Contracts.Defs.check_preconditions epica.Runtime.Update.admit
    epica.Runtime.Governance.track_token_usage epica.Runtime.Update.token_limit
    epica.Runtime.Update.commit epica.Quad.Revision.revise get epica.Quad.Checkpoint.checkpoint
    epica.Quad.Store.insert epica.Quad.Store.new_core epica.Quad.HashMap.hash_get
    epica.Quad.HashMap.hash_insert epica.Quad.Revision.all_critical_pass
    epica.Quad.Revision.audit_of epica.Quad.Revision.is_self_contradictory
    epica.Quad.Revision.check_extensionality epica.Quad.Store.check_contradiction_traced
    epica.Quad.Value.value_contradicts_semantic epica.Quad.Value.value_contradicts
    epica.Quad.Value.consult epica.Quad.Revision.contract_and_expand epica.Quad.Revision.expand
    epica.Quad.Revision.apply_contraction epica.Quad.Revision.minimal_contraction_set
    epica.Quad.Revision.collect_weakest epica.Quad.Store.inferred_from_premises
    epica.Quad.Projection.add_node epica.Quad.Projection.new_graph epica.Quad.Store.premises_of
    epica.Runtime.Update.settle epica.Contracts.Engine.post_update epica.Contracts.Engine.enforce
    epica.Contracts.Engine.handle_all epica.Contracts.Defs.collect_all_violations
    epica.Contracts.Defs.violations_of epica.Runtime.Update.finish
updates = (_, refl)

update_belief-holds_example :
    (n : BeliefNode) × (get (update_belief watched world write).0.quad.core 0 ≡ some n)
    × (n.value ≡ asserted "write")
    × (n.provenance ≡ user_statement 1)
update_belief-holds_example = update_belief-holds watched world write updates.1 holds

abbrev strict : BehavioralContract BeliefQuad
strict = record (contract (invariant never false ∷ [])) { recovery = rollback_to_last_checkpoint }

abbrev guarded : BeliefRuntime Unit
guarded = with_contract runtime strict

rolls_back : (x : RuntimeUpdateResult) × ((update_belief guarded world write).2 ≡ ok x)
unfolding update_belief new_runtime with_contract epica.Contracts.Precheck.pre_update
    epica.Runtime.Beliefs.new_engine epica.Contracts.Precheck.first_failing
    epica.Contracts.Defs.check_preconditions epica.Runtime.Update.admit
    epica.Runtime.Governance.track_token_usage epica.Runtime.Update.token_limit
    epica.Runtime.Update.commit epica.Quad.Revision.revise get epica.Quad.Checkpoint.checkpoint
    epica.Quad.Store.insert epica.Quad.Store.new_core epica.Quad.HashMap.hash_get
    epica.Quad.HashMap.hash_insert epica.Quad.Revision.all_critical_pass
    epica.Quad.Revision.audit_of epica.Quad.Revision.is_self_contradictory
    epica.Quad.Revision.check_extensionality epica.Quad.Store.check_contradiction_traced
    epica.Quad.Value.value_contradicts_semantic epica.Quad.Value.value_contradicts
    epica.Quad.Value.consult epica.Quad.Revision.contract_and_expand epica.Quad.Revision.expand
    epica.Quad.Revision.apply_contraction epica.Quad.Revision.minimal_contraction_set
    epica.Quad.Revision.collect_weakest epica.Quad.Store.inferred_from_premises
    epica.Quad.Projection.add_node epica.Quad.Projection.new_graph epica.Quad.Store.premises_of
    epica.Runtime.Update.settle epica.Contracts.Engine.post_update epica.Contracts.Engine.enforce
    epica.Contracts.Engine.handle_all collect_all_violations violations_of
    epica.Contracts.Engine.handle epica.Contracts.Engine.respond epica.Contracts.Engine.recover
    epica.Contracts.Execution.execute_recovery epica.Quad.Checkpoint.rollback_to find_checkpoint
    epica.Quad.Checkpoint.capture epica.Quad.Diff.has_contradictions epica.Quad.Diff.diff
    epica.Quad.Diff.missing_from epica.Quad.Diff.by_key epica.Quad.System1.propagate_system1
    epica.Quad.System1.walk epica.Quad.System1.propagate_system1_inner epica.Quad.Revision.bump
    epica.Quad.Store.modify epica.Quad.System1.each epica.Quad.Store.descendants_of
    epica.Quad.System1.refresh epica.Quad.Store.labels epica.Quad.Diff.has_key
    epica.Quad.Revision.rewrite epica.Quad.Diff.modified_from epica.Quad.Diff.same_value
    epica.Runtime.Update.finish
rolls_back = (_, refl)

found :
    (v : ContractViolation) × (vs : List ContractViolation) × (collect_all_violations strict
        (spread_of guarded write)
        (some 7)
        (write.violation_ids 0)
      ≡ v ∷ vs)
    × (v.class ≡ hard)
unfolding collect_all_violations violations_of
found = (_, _, refl, refl)

only_strict : guarded.contract_engine.contracts ≡ strict ∷ []
unfolding new_runtime with_contract epica.Runtime.Beliefs.new_engine
only_strict = refl

unused : find_checkpoint guarded.quad.checkpoints 7 ≡ none
unfolding new_runtime with_contract find_checkpoint
unused = refl

update_belief-restores_example :
    (update_belief guarded world write).0.quad
    ≡ record { core = guarded.quad.core; checkpoints = [] }
update_belief-restores_example =
    update_belief-restores guarded world write strict [] found.0 found.1 rolls_back.1 only_strict
      refl found.2 found.3 unused

update_belief-admits_example :
    (IsAdmissible watched
      × (update_belief watched world write
          ≡ commit (counted watched) world write (key_of watched.quad.core write.id)))
    ⊎ ((¬ IsAdmissible watched) × IsRefused watched world (update_belief watched world write))
update_belief-admits_example = update_belief-admits watched world write
