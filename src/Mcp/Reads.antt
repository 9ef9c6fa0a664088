-- ===== src/Mcp/Reads.antt =====
-- crates/epica-mcp/src/handlers/belief.rs: the handlers that only read. The JSON of a task is the task.
use epica.Runtime.Beliefs.{
  RuntimeUpdateResult, DiagnosticSignal, try_consume_system2_budget, get_by_key, system1_only,
  system2_activated, system2_pending, system2_throttled,
}
use epica.Runtime.TokenBucket.{Stopwatch}
use epica.Sovereignty.Emit.{Outside}
use epica.Ledger.Defs.{EntryEncoder, Blake3}
use epica.Contracts.Execution.{Shell}
use Prim.Native.String.{String, ◌++◌ as str_append}
use epica.Prelude.{
  if◌then◌else◌, string_eq, nat_eq, list_eq, Bool-cases, Option-cases, Result, Result-cases, ◌≡◌,
  refl, ap, inl, inr, Option, none, some, List, [], ◌∷◌, ok, err,
}
use epica.Quad.HashMap.{hash_get-insert_same}
use epica.Runtime.Update.{update_belief}
use epica.Mcp.Tasks.{
  InMemoryTaskStore, in_memory, memory_get, memory_insert, TaskStatus, pending, TaskStore, McpTask,
}
use epica.Mcp.Server.{
  BeliefSetRequest, BeliefSetResponse, handle_belief_set, set_existing, set_new, after_update,
  spawn, new_task, change_of, AppState, McpError, runtime, not_found, task_not_found, Rendering,
}
use epica.Quad.Platform.{Platform, SlotMap, Petgraph}
use epica.Quad.Value.{
  BeliefValue, deterministic, inferred, asserted, reference, BeliefNode, Provenance,
}

pub record Printing ⦃p : Platform⦄ : Type 0 where
  pub json_string : String → p.Json
  pub json_reference : p.BeliefId → p.Json
  pub show_provenance : Provenance → String

pub record BeliefGetResponse ⦃p : Platform⦄ : Type 0 where
  pub key : String
  pub value : p.Json
  pub fast_confidence : p.F32
  pub slow_confidence : Option p.F32
  pub provenance : String

module _ ⦃p : Platform⦄ ⦃pr : Printing⦄ where
  unfoldable pub value_json : BeliefValue → p.Json
  value_json (deterministic v) = v
  value_json (inferred v) = v
  value_json (asserted s) = pr.json_string s
  value_json (reference id) = pr.json_reference id

  unfoldable pub first_with : String → List (p.BeliefId × BeliefNode) → Option BeliefNode
  first_with key [] = none
  first_with key ((id, n) ∷ ns) =
      let rest = first_with key ns in if string_eq.beq n.key key then some n else rest

module _ ⦃p : Platform⦄ ⦃sm : SlotMap p.BeliefId⦄ ⦃pg : Petgraph p.BeliefId⦄ ⦃re : Rendering⦄
    {Forget Store : Type 0} where
  unfoldable pub handle_belief_get :
      ⦃pr : Printing⦄ → AppState Forget Store → String → Result McpError BeliefGetResponse
  handle_belief_get ⦃pr⦄ s key = elim (first_with key (sm.iter s.runtime.quad.core.nodes)) [
    | none ↦ err (not_found key)
    | some n ↦ ok (record {
      key = n.key;
      value = value_json n.value;
      fast_confidence = n.fast_confidence;
      slow_confidence = n.slow_confidence;
      provenance = pr.show_provenance n.provenance;
    })
  ]

  unfoldable pub handle_belief_set_result :
      ⦃ts : TaskStore Store⦄
      → (ts.Error → String)
      → AppState Forget Store
      → p.Uuid
      → Result McpError McpTask
  handle_belief_set_result ⦃ts⦄ show s id = elim (ts.get s.task_store id) [
    | err e ↦ err (runtime (str_append "task store error: " (show e)))
    | ok none ↦ err (task_not_found id)
    | ok (some t) ↦ ok t
  ]

module _ ⦃p : Platform⦄ ⦃sm : SlotMap p.BeliefId⦄ ⦃pg : Petgraph p.BeliefId⦄ ⦃sh : Shell⦄
    ⦃ser : EntryEncoder p.Json⦄ ⦃b3 : Blake3⦄ ⦃out : Outside p.Json⦄ ⦃sw : Stopwatch⦄
    ⦃re : Rendering⦄ {Forget : Type 0} (E : Type 0) (show : E → String) where
  abbrev polled : AppState Forget InMemoryTaskStore → p.Uuid → Result McpError McpTask
  polled s id = handle_belief_set_result ⦃ts = in_memory E⦄ show s id

  abbrev AnswersFor : BeliefSetRequest → AppState Forget InMemoryTaskStore → Option p.Uuid → Type 0
  AnswersFor r s none = Unit
  AnswersFor r s (some id) =
      (task : McpTask) × (polled s id ≡ ok task) × (task.task_id ≡ id) × (task.belief_key ≡ r.key)

  -- A task id that a response gives can be polled, and is a task for the request's key.
  abbrev pub IsPollable :
      BeliefSetRequest
      → AppState Forget InMemoryTaskStore
      → Result McpError BeliefSetResponse
      → Type 0
  IsPollable r s (err e) = Unit
  IsPollable r s (ok response) = AnswersFor r s response.task_id

  stored :
      (s : AppState Forget InMemoryTaskStore) (r : BeliefSetRequest) (u : TaskStatus)
      → AnswersFor r
          (record s { task_store = memory_insert s.task_store (new_task r u) })
          (some r.task_id)
  unfolding handle_belief_set_result memory_insert memory_get new_task
  stored s r u = (
    new_task r u,
    ap answered (hash_get-insert_same ⦃e = p.uuid_eq⦄ s.task_store r.task_id (new_task r u)),
    refl,
    refl,
  )
    where
      answered : Option McpTask → Result McpError McpTask
      answered none = err (task_not_found r.task_id)
      answered (some t) = ok t

  spawn-IsPollable :
      (s : AppState Forget InMemoryTaskStore) (r : BeliefSetRequest) (id : p.BeliefId)
      (signal : DiagnosticSignal)
      → IsPollable r
          (spawn ⦃ts = in_memory E⦄ s r id signal).0
          (spawn ⦃ts = in_memory E⦄ s r id signal).2
  unfolding spawn
  spawn-IsPollable s r id signal =
      elim (Bool-cases (try_consume_system2_budget s.runtime r.now).1) [
        | inr f ↦ rw (f, spawn) tt
        | inl t ↦
            rw (t, spawn)
              (stored (record s { runtime = (try_consume_system2_budget s.runtime r.now).0 }) r
                pending)
      ]

  after_update-IsPollable :
      (s : AppState Forget InMemoryTaskStore) (r : BeliefSetRequest) (id : p.BeliefId)
      (x : RuntimeUpdateResult)
      → IsPollable r
          (after_update ⦃ts = in_memory E⦄ s r id x).0
          (after_update ⦃ts = in_memory E⦄ s r id x).2
  unfolding after_update
  after_update-IsPollable s r id (system2_activated d result) = stored s r _
  after_update-IsPollable s r id (system2_pending signal) = spawn-IsPollable s r id signal
  after_update-IsPollable s r id system2_throttled = tt
  after_update-IsPollable s r id system1_only = tt

  -- Over the store in memory, when the answer to a request on a belief names a task, the task can be
  -- polled at once: it has that id and the key of the request.
  pub handle_belief_set-IsPollable :
      (s : AppState Forget InMemoryTaskStore) (r : BeliefSetRequest)
      → IsPollable r
          (handle_belief_set ⦃ts = in_memory E⦄ s r).0
          (handle_belief_set ⦃ts = in_memory E⦄ s r).2
  unfolding handle_belief_set set_existing set_new
  handle_belief_set-IsPollable s r = elim (Option-cases (get_by_key s.runtime r.key)) [
    | inl e ↦ rw (e, handle_belief_set, set_new) tt
    | inr (id, e) ↦ elim (Result-cases (update_belief s.runtime s.world (change_of r id)).2) [
      | inr (x, f) ↦ rw (e, f, handle_belief_set, set_existing) tt
      | inl (x, f) ↦ rw (e, f, handle_belief_set, set_existing) (after_update-IsPollable _ r id x)
    ]
  ]
