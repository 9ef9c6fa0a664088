-- ===== src/Tests/Servers.antt =====
-- Runs of the theorems on the task stores and on the server.
use epica.Prelude.{
  if◌then◌else◌, string_eq, nat_eq, list_eq, Bool-cases, Result, ◌>>=◌, ok_inj, ℕ, zero, suc, ◌≡◌,
  refl, sym, ap, ◌∙◌, subst, inl, inr, none, some, List, [], ◌∷◌, arith, ok, err,
}
use epica.Quad.HashMap.{HashMap, hash_get, hash_insert, hash_get-insert_same, hash_get-insert_other}
use epica.Ledger.Defs.{Bytes}
use epica.Runtime.TokenBucket.{Holds-new_bucket}
use epica.Runtime.Beliefs.{BeliefRuntime, DiagnosticSignal, System2Result}
use epica.Mcp.Tasks.{
  TaskStatus, pending, running, completed, failed, McpTask, TaskStore, Sled, InMemoryTaskStore,
  in_memory, map_result, map_status, on_disk, StoreError, memory_get,
}
use epica.Mcp.Stores.{
  Operation, get_task, insert_task, update_task, Same, answers, IsFaithful, answers-IsFaithful,
}
use epica.Mcp.Server.{BeliefSetRequest, Rendering, spawned}
use epica.Mcp.Reads.{IsPollable, handle_belief_set-IsPollable}
use epica.Mcp.Server.{handle_belief_set}
use epica.Mcp.Steps.{Server, Event, request, progress, run}
use epica.Mcp.Budget.{charges, IsBalanced, run-IsBalanced}
use epica.Tests.Instances.{toy_hash, toy_encoder}
use epica.Tests.Stores.{toy_platform, toy_slots, toy_graphs}
use epica.Tests.Updates.{toy_shell, quiet, world}
use epica.Tests.Propagations.{toy_stopwatch}
use epica.Tests.Runtimes.{runtime, write}

-- The tasks with the key "k" that are pending or running have an encoding.
abbrev encoded : McpTask → TaskStatus → Result ℕ Bytes
encoded t pending = ok (t.task_id ∷ t.created_at_ms ∷ 0 ∷ [])
encoded t running = ok (t.task_id ∷ t.created_at_ms ∷ 1 ∷ [])
encoded t (completed v) = err 0
encoded t (failed e) = err 0

abbrev to_vec : McpTask → Result ℕ Bytes
to_vec t = if string_eq.beq t.belief_key "k" then encoded t t.status else err 0

abbrev task : ℕ → ℕ → TaskStatus → McpTask
task id ms s = record { task_id = id; belief_key = "k"; status = s; created_at_ms = ms }

abbrev from_slice : Bytes → Result ℕ McpTask
from_slice (id ∷ ms ∷ zero ∷ []) = ok (task id ms pending)
from_slice (id ∷ ms ∷ suc zero ∷ []) = ok (task id ms running)
from_slice b = err 0

decoded_status :
    (id ms : ℕ) (s : TaskStatus) (b : Bytes)
    → encoded (task id ms s) s ≡ ok b
    → from_slice b ≡ ok (task id ms s)
decoded_status id ms pending b h =
    subst (λ c. from_slice c ≡ ok (task id ms pending)) (ok_inj h) refl
decoded_status id ms running b h =
    subst (λ c. from_slice c ≡ ok (task id ms running)) (ok_inj h) refl
decoded_status id ms (completed v) b h = absurd cc
decoded_status id ms (failed e) b h = absurd cc

unchanged : (t : McpTask) → ok t ≡ map_result {E = ℕ} ok t
unfolding map_result map_status
unchanged t = ap (λ r. r >>= λ s. ok (record t { status = s })) (same t.status)
  where
    same : (s : TaskStatus) → ok s ≡ map_status {E = ℕ} ok s
    same pending = refl
    same running = refl
    same (completed v) = refl
    same (failed e) = refl

round_trips : (t : McpTask) (b : Bytes) → to_vec t ≡ ok b → from_slice b ≡ map_result ok t
round_trips t b h = elim (Bool-cases (string_eq.beq t.belief_key "k")) [
  | inr f ↦ absurd (cc (rw f at h))
  | inl e ↦
      let key : "k" ≡ t.belief_key = sym ((string_eq.beq_iff t.belief_key "k").0 e) in
      decoded_status t.task_id t.created_at_ms t.status b (rw e at h)
      ∙ ap (λ k. ok (record t { belief_key = k })) key
      ∙ unchanged t
]

abbrev id_bytes : ℕ → Bytes
id_bytes id = id ∷ []

id_bytes-injective : (a b : ℕ) → id_bytes a ≡ id_bytes b → a ≡ b
id_bytes-injective a b h = cc

instance abbrev toy_sled : Sled
toy_sled = record {
  Db = HashMap Bytes Bytes;
  SledError = ℕ;
  SerdeError = ℕ;
  to_string = λ e. "";
  as_bytes = id_bytes;
  db_get = λ d k. ok (hash_get d k);
  db_insert = λ d k v. (hash_insert d k v, ok tt);
  to_vec = to_vec;
  from_slice = from_slice;
  reread = ok;
  from_slice-to_vec = round_trips;
  holds = hash_get;
  as_bytes-injective = id_bytes-injective;
  db_get-holds = λ d k h. sym (ok_inj h);
  holds-insert_same = λ d k v h. hash_get-insert_same d k v;
  holds-insert_other = λ d k v j h n. hash_get-insert_other d k j v n;
}

both_empty : Same [] []
unfolding memory_get hash_get
both_empty = record { at = λ id. tt }

abbrev calls : List Operation
calls = insert_task (task 4 0 pending) ∷ update_task 4 running ∷ get_task 4 ∷ []

answers-IsFaithful_example :
    IsFaithful (answers (in_memory StoreError) calls []) (answers on_disk calls [])
answers-IsFaithful_example = answers-IsFaithful calls [] [] both_empty

instance abbrev toy_rendering : Rendering
toy_rendering = record {
  JsonError = ℕ;
  show_id = λ id. "id";
  show_json = λ v. "v";
  show_error = λ e. "";
  show_llm_error = λ e. "";
  confidence_json = λ c. c;
  reflection_json = λ r. r.revised_confidence;
}

instance abbrev toy_tasks : TaskStore InMemoryTaskStore
toy_tasks = in_memory ℕ

abbrev reflection : System2Result
reflection = record { revised_confidence = 1; reasoning = "" }

abbrev with_client : BeliefRuntime Unit
with_client = record runtime { llm_client = some (λ d. ok reflection) }

abbrev set_intent : BeliefSetRequest
set_intent = record {
  key = "intent";
  value = 0;
  confidence = 1;
  provenance_kind = none;
  call_id = 1;
  task_id = 4;
  now = 0;
  now_ms = 0;
  change = write;
}

abbrev signal : DiagnosticSignal
signal = record { belief_key = "k"; fast_confidence = 1; reliability_baseline = 0; divergence = 1 }

abbrev idle : Server Unit InMemoryTaskStore
idle = record {
  state = record { runtime = with_client; world = world; task_store = [] };
  jobs = [];
}

abbrev events : List Event
events =
    progress 0 (ok reflection)
    ∷ request set_intent
    ∷ progress 0 (ok reflection)
    ∷ progress 0 (ok reflection)
    ∷ []

-- Task 4 is spawned and pending; a request draws the id 5 while it goes on.
abbrev tracked : Server Unit InMemoryTaskStore
tracked = record {
  state = record { runtime = with_client; world = world; task_store = (4, task 4 0 pending) ∷ [] };
  jobs = spawned 0 4 signal ∷ [];
}

abbrev crossing : List Event
crossing =
    progress 0 (ok reflection)
    ∷ request (record set_intent { task_id = 5 })
    ∷ progress 0 (ok reflection)
    ∷ progress 0 (ok reflection)
    ∷ []

balanced : IsBalanced 3 idle.state.runtime.reflection_budget (charges idle.jobs)
unfolding epica.Runtime.Beliefs.new_runtime epica.Runtime.TokenBucket.new_bucket charges
balanced = record {
  tokens = 3;
  held = Holds-new_bucket 3 0 0 refl (omega arith);
  size = refl;
  sum = omega arith;
}

run-IsBalanced_example :
    IsBalanced 3 (run events idle).state.runtime.reflection_budget (charges (run events idle).jobs)
run-IsBalanced_example = run-IsBalanced 3 events idle balanced

handle_belief_set-IsPollable_example :
    IsPollable ℕ
      (λ e. "")
      set_intent
      (handle_belief_set ⦃ts = in_memory ℕ⦄ idle.state set_intent).0
      (handle_belief_set ⦃ts = in_memory ℕ⦄ idle.state set_intent).2
handle_belief_set-IsPollable_example =
    handle_belief_set-IsPollable ℕ (λ e. "") idle.state set_intent
