-- ===== src/Mcp/Settling.antt =====
-- crates/epica-mcp/src/handlers/belief.rs with tasks.rs: what the store in memory shows of a spawned task
-- while requests and the steps of other tasks go on beside it.
use epica.Prelude.{
  string_eq, nat_eq, list_eq, Bool-cases, Option-cases, Result, Result-cases, ◌≡◌, refl, sym, subst,
  ◌≢◌, inl, inr, Option, none, some, List, [], ◌∷◌, ok, err,
}
use epica.Quad.Platform.{Platform, SlotMap, Petgraph}
use epica.Quad.HashMap.{hash_get-insert_same, hash_get-insert_other}
use epica.Ledger.Defs.{EntryEncoder, Blake3}
use epica.Sovereignty.Emit.{Outside}
use epica.Contracts.Errors.{LlmClientError}
use epica.Contracts.Execution.{Shell}
use epica.Runtime.TokenBucket.{Stopwatch}
use epica.Runtime.Update.{update_belief}
use epica.Runtime.Beliefs.{
  System2Result, RuntimeUpdateResult, DiagnosticSignal, system1_only, system2_activated,
  system2_pending, system2_throttled, get_by_key, try_consume_system2_budget,
}
use epica.Mcp.Tasks.{
  InMemoryTaskStore, in_memory, memory_get, memory_insert, memory_update_status, with_status,
  TaskStatus, McpTask, pending, running, completed, failed,
}
use epica.Mcp.Server.{
  AppState, BeliefSetRequest, Job, Rendering, handle_belief_set, set_existing, set_new,
  after_update, spawn, new_task, change_of, advance, set_status, spawned, reflecting, applied,
  refunded, finished, abandoned, given_up,
}
use epica.Mcp.Steps.{Event, request, progress}

module _ ⦃p : Platform⦄ where
  -- The job is not about the task.
  abbrev pub IsAway : p.Uuid → Job → Type 0
  IsAway task (spawned id k signal) = k ≢ task
  IsAway task (reflecting id k signal) = k ≢ task
  IsAway task (applied k result) = k ≢ task
  IsAway task (refunded k e) = k ≢ task
  IsAway task finished = Unit
  IsAway task abandoned = Unit
  IsAway task given_up = Unit

  -- No request draws the id of the task again.
  abbrev pub IsFresh : p.Uuid → List Event → Type 0
  IsFresh task [] = Unit
  IsFresh task (request r ∷ es) = (r.task_id ≢ task) × IsFresh task es
  IsFresh task (progress n reply ∷ es) = IsFresh task es

module _ ⦃p : Platform⦄ ⦃re : Rendering⦄ where
  -- What the store has under the id of a task, by how far its job is.
  abbrev pub Shows : p.Uuid → Job → McpTask → Type 0
  Shows task (spawned id k signal) t = k ≡ task
  Shows task (reflecting id k signal) t = (k ≡ task) × (t.status ≡ running)
  Shows task (applied k result) t = (k ≡ task) × (t.status ≡ running)
  Shows task (refunded k e) t = (k ≡ task) × (t.status ≡ running)
  Shows task finished t = (r : System2Result) × (t.status ≡ completed (re.reflection_json r))
  Shows task abandoned t = t.status ≡ running
  Shows task given_up t = (e : LlmClientError) × (t.status ≡ failed (re.show_llm_error e))

module _ ⦃p : Platform⦄ where
  stored-other :
      (s : InMemoryTaskStore) (r : BeliefSetRequest) (u : TaskStatus) (task : p.Uuid)
      → r.task_id ≢ task
      → memory_get (memory_insert s (new_task r u)) task ≡ memory_get s task
  unfolding memory_get memory_insert new_task
  stored-other s r u task ne =
      hash_get-insert_other ⦃e = p.uuid_eq⦄ s r.task_id task (new_task r u) ne

module _ ⦃p : Platform⦄ ⦃sm : SlotMap p.BeliefId⦄ ⦃pg : Petgraph p.BeliefId⦄ {Forget : Type 0} where
  abbrev pub task_at : AppState Forget InMemoryTaskStore → p.Uuid → Option McpTask
  task_at s task = memory_get s.task_store task

  -- What a request leaves of a task that it does not draw, with the job that it spawns.
  abbrev pub LeavesAlone :
      p.Uuid
      → AppState Forget InMemoryTaskStore
      → AppState Forget InMemoryTaskStore
      → Option Job
      → Type 0
  LeavesAlone task s s' none = task_at s' task ≡ task_at s task
  LeavesAlone task s s' (some j) = (task_at s' task ≡ task_at s task) × IsAway task j

module _ ⦃p : Platform⦄ ⦃sm : SlotMap p.BeliefId⦄ ⦃pg : Petgraph p.BeliefId⦄ ⦃sh : Shell⦄
    ⦃ser : EntryEncoder p.Json⦄ ⦃b3 : Blake3⦄ ⦃out : Outside p.Json⦄ ⦃sw : Stopwatch⦄
    ⦃re : Rendering⦄ {Forget : Type 0} (E : Type 0) where
  set_status-other :
      (s : AppState Forget InMemoryTaskStore) (k task : p.Uuid) (u : TaskStatus)
      → k ≢ task
      → task_at (set_status ⦃ts = in_memory E⦄ s k u) task ≡ task_at s task
  unfolding set_status memory_update_status memory_get
  set_status-other s k task u ne = elim (Option-cases (memory_get s.task_store k)) [
    | inl e ↦ rw (e, memory_update_status) refl
    | inr (t, e) ↦
        rw (e, memory_update_status)
          (hash_get-insert_other ⦃e = p.uuid_eq⦄ s.task_store k task _ ne)
  ]

  set_status-same :
      (s : AppState Forget InMemoryTaskStore) (k task : p.Uuid) (u : TaskStatus) {t : McpTask}
      → k ≡ task
      → task_at s task ≡ some t
      → task_at (set_status ⦃ts = in_memory E⦄ s k u) task ≡ some (with_status t u)
  unfolding set_status memory_update_status memory_get
  set_status-same s k task u {t} h e =
      subst (λ i. task_at (set_status ⦃ts = in_memory E⦄ s i u) task ≡ some (with_status t u))
        (sym h)
        (rw (e, memory_update_status)
          (hash_get-insert_same ⦃e = p.uuid_eq⦄ s.task_store task (with_status t u)))

  pub advance-other :
      (reply : Result LlmClientError System2Result) (j : Job)
      (s : AppState Forget InMemoryTaskStore) (task : p.Uuid)
      → IsAway task j
      → (task_at (advance ⦃ts = in_memory E⦄ reply j s).0 task ≡ task_at s task)
        × IsAway task (advance ⦃ts = in_memory E⦄ reply j s).1
  unfolding advance
  advance-other reply (spawned id k signal) s task ne = (
    set_status-other s k task running ne,
    elim (Option-cases s.runtime.llm_client) [ inl e ↦ rw e tt | inr (c, e) ↦ rw e ne ],
  )
  advance-other (ok r) (reflecting id k signal) s task ne = (refl, ne)
  advance-other (err e) (reflecting id k signal) s task ne = (refl, ne)
  advance-other reply (applied k result) s task ne = (set_status-other s k task _ ne, tt)
  advance-other reply (refunded k e) s task ne = (set_status-other s k task _ ne, tt)
  advance-other reply finished s task ne = (refl, tt)
  advance-other reply abandoned s task ne = (refl, tt)
  advance-other reply given_up s task ne = (refl, tt)

  -- The step of the task itself.
  pub advance-own :
      (reply : Result LlmClientError System2Result) (j : Job)
      (s : AppState Forget InMemoryTaskStore) (task : p.Uuid) (t : McpTask)
      → task_at s task ≡ some t
      → Shows task j t
      → (t' : McpTask) × (task_at (advance ⦃ts = in_memory E⦄ reply j s).0 task ≡ some t')
        × Shows task (advance ⦃ts = in_memory E⦄ reply j s).1 t'
  unfolding advance
  advance-own reply (spawned id k signal) s task t e h = (
    with_status t running,
    set_status-same s k task running h e,
    elim (Option-cases s.runtime.llm_client) [ inl n ↦ rw n refl | inr (c, n) ↦ rw n (h, refl) ],
  )
  advance-own (ok r) (reflecting id k signal) s task t e h = (t, e, h)
  advance-own (err x) (reflecting id k signal) s task t e h = (t, e, h)
  advance-own reply (applied k r) s task t e h = (
    with_status t (completed (re.reflection_json r)),
    set_status-same s k task _ h.0 e,
    (r, refl),
  )
  advance-own reply (refunded k x) s task t e h =
      (with_status t (failed (re.show_llm_error x)), set_status-same s k task _ h.0 e, (x, refl))
  advance-own reply finished s task t e h = (t, e, h)
  advance-own reply abandoned s task t e h = (t, e, h)
  advance-own reply given_up s task t e h = (t, e, h)

  spawn-other :
      (s : AppState Forget InMemoryTaskStore) (r : BeliefSetRequest) (id : p.BeliefId)
      (signal : DiagnosticSignal) (task : p.Uuid)
      → r.task_id ≢ task
      → LeavesAlone task s
          (spawn ⦃ts = in_memory E⦄ s r id signal).0
          (spawn ⦃ts = in_memory E⦄ s r id signal).1
  unfolding spawn
  spawn-other s r id signal task ne =
      elim (Bool-cases (try_consume_system2_budget s.runtime r.now).1) [
        | inr f ↦ rw (f, spawn) refl
        | inl t ↦ rw (t, spawn) (stored-other s.task_store r pending task ne, ne)
      ]

  after_update-other :
      (s : AppState Forget InMemoryTaskStore) (r : BeliefSetRequest) (id : p.BeliefId)
      (x : RuntimeUpdateResult) (task : p.Uuid)
      → r.task_id ≢ task
      → LeavesAlone task s
          (after_update ⦃ts = in_memory E⦄ s r id x).0
          (after_update ⦃ts = in_memory E⦄ s r id x).1
  unfolding after_update
  after_update-other s r id (system2_activated d result) task ne =
      stored-other s.task_store r _ task ne
  after_update-other s r id (system2_pending signal) task ne = spawn-other s r id signal task ne
  after_update-other s r id system2_throttled task ne = refl
  after_update-other s r id system1_only task ne = refl

  pub handle_belief_set-other :
      (s : AppState Forget InMemoryTaskStore) (r : BeliefSetRequest) (task : p.Uuid)
      → r.task_id ≢ task
      → LeavesAlone task s
          (handle_belief_set ⦃ts = in_memory E⦄ s r).0
          (handle_belief_set ⦃ts = in_memory E⦄ s r).1
  unfolding handle_belief_set set_existing set_new
  handle_belief_set-other s r task ne = elim (Option-cases (get_by_key s.runtime r.key)) [
    | inl e ↦ rw (e, handle_belief_set, set_new) refl
    | inr (id, e) ↦ elim (Result-cases (update_belief s.runtime s.world (change_of r id)).2) [
      | inr (x, f) ↦ rw (e, f, handle_belief_set, set_existing) refl
      | inl (x, f) ↦
          rw (e, f, handle_belief_set, set_existing) (after_update-other _ r id x task ne)
    ]
  ]
