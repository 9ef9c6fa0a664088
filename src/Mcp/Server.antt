-- ===== src/Mcp/Server.antt =====
-- crates/epica-mcp/src/handlers/belief.rs: `handle_belief_set` and the task that it spawns for System 2. The
-- spawned task runs beside later requests, so it is a `Job` that goes on by steps: it marks the task as
-- running and takes the client, gets the client's answer and applies it or gives the token back, and marks
-- the task as completed or failed. Counters of the telemetry are left out.
use Prim.Native.String.{String}
use Prim.Native.Char.{Char, code}
use text.Mathlib.TextBridge.{to_list, of_list}
use epica.Prelude.{
  nat_beq, if◌then◌else◌, string_eq, nat_eq, list_eq, Result, ℕ, Bool, true, false, ◌&&◌, Option,
  none, some, List, [], ◌∷◌, ok, err,
}
use epica.Quad.Platform.{Platform, SlotMap, Petgraph, id_eq}
use epica.Quad.Value.{asserted, Provenance, tool_result, llm_inference, user_statement, new_node}
use epica.Ledger.Defs.{EntryEncoder, Blake3}
use epica.Sovereignty.Emit.{World, Outside}
use epica.Contracts.Errors.{RuntimeError, LlmClientError}
use epica.Contracts.Execution.{Shell}
use epica.Runtime.TokenBucket.{Stopwatch}
use epica.Runtime.Beliefs.{
  BeliefRuntime, DiagnosticSignal, System2Result, RuntimeUpdateResult, system1_only,
  system2_activated, system2_pending, system2_throttled, get_by_key, insert_belief,
  apply_system2_result, try_consume_system2_budget, release_system2_budget,
}
use epica.Runtime.Update.{Change, update_belief}
use epica.Mcp.Tasks.{TaskStore, TaskStatus, McpTask, pending, running, completed, failed}

-- How the handler prints ids, errors and JSON.
pub record Rendering ⦃p : Platform⦄ : Type 1 where
  pub JsonError : Type 0
  pub show_id : p.BeliefId → String
  pub show_json : p.Json → String
  pub show_error : RuntimeError → String
  pub show_llm_error : LlmClientError → String
  pub confidence_json : p.F32 → p.Json
  pub reflection_json : System2Result → p.Json

pub data McpError ⦃p : Platform⦄ ⦃re : Rendering⦄ : Type 0 where
  not_found runtime bad_request : String → McpError
  serialization : re.JsonError → McpError
  task_not_found : p.Uuid → McpError

-- The request, and what the handler draws from the clock and the random source.
pub record BeliefSetRequest ⦃p : Platform⦄ : Type 0 where
  pub key : String
  pub value : p.Json
  pub confidence : p.F32
  pub provenance_kind : Option String
  pub call_id : p.Uuid
  pub task_id : p.Uuid
  pub now : ℕ
  pub now_ms : ℕ
  pub change : Change

pub record BeliefSetResponse ⦃p : Platform⦄ : Type 0 where
  pub belief_id : String
  pub task_id : Option p.Uuid
  pub system2_triggered : Bool

pub data Job ⦃p : Platform⦄ : Type 0 where
  spawned : p.BeliefId → p.Uuid → DiagnosticSignal → Job
  reflecting : p.BeliefId → p.Uuid → DiagnosticSignal → Job
  applied : p.Uuid → System2Result → Job
  refunded : p.Uuid → LlmClientError → Job
  finished abandoned : Job
  given_up : Job

abbrev starts_with : List ℕ → List Char → Bool
starts_with [] s = true
starts_with (c ∷ cs) [] = false
starts_with (c ∷ cs) (d ∷ s) = nat_beq c (code d) && starts_with cs s

abbrev is_llm_colon : Char → Char → Char → Char → Bool
is_llm_colon a b c d =
    nat_beq (code a) 108 && nat_beq (code b) 108 && nat_beq (code c) 109 && nat_beq (code d) 58

-- `trim_start_matches("llm:")`
abbrev trim_llm : List Char → List Char
trim_llm (a ∷ b ∷ c ∷ d ∷ s) =
    let rest = trim_llm s in if is_llm_colon a b c d then rest else a ∷ b ∷ c ∷ d ∷ s
trim_llm s = s

module _ ⦃p : Platform⦄ where
  unfoldable pub parse_provenance : Option String → p.Uuid → Provenance
  parse_provenance none call_id = user_statement 0
  parse_provenance (some kind) call_id =
      if string_eq.beq kind "tool"
      then tool_result "external" call_id
      else if starts_with (108 ∷ 108 ∷ 109 ∷ []) (to_list kind)
      then llm_inference (of_list (trim_llm (to_list kind))) call_id 0
      else user_statement 0

  unfoldable pub new_task : BeliefSetRequest → TaskStatus → McpTask
  new_task r s = record {
    task_id = r.task_id;
    belief_key = r.key;
    status = s;
    created_at_ms = r.now_ms;
  }

  abbrev without_task : String → BeliefSetResponse
  without_task id = record { belief_id = id; task_id = none; system2_triggered = false }

  abbrev with_task : String → p.Uuid → BeliefSetResponse
  with_task id t = record { belief_id = id; task_id = some t; system2_triggered = true }

pub record AppState ⦃p : Platform⦄ ⦃sm : SlotMap p.BeliefId⦄ ⦃pg : Petgraph p.BeliefId⦄
    (Forget Store : Type 0) : Type 0 where
  pub runtime : BeliefRuntime Forget
  pub world : World p.Json
  pub task_store : Store

module _ ⦃p : Platform⦄ ⦃re : Rendering⦄ where
  unfoldable pub change_of : BeliefSetRequest → p.BeliefId → Change
  change_of r id = record r.change {
    id = id;
    value = asserted (re.show_json r.value);
    provenance = parse_provenance r.provenance_kind r.call_id;
    confidence = r.confidence;
  }

module _ ⦃p : Platform⦄ ⦃sm : SlotMap p.BeliefId⦄ ⦃pg : Petgraph p.BeliefId⦄ ⦃re : Rendering⦄ where
  abbrev pub Handled : Type 0 → Type 0 → Type 0
  Handled Forget Store = AppState Forget Store × Option Job × Result McpError BeliefSetResponse

module _ ⦃p : Platform⦄ ⦃sm : SlotMap p.BeliefId⦄ ⦃pg : Petgraph p.BeliefId⦄ ⦃sh : Shell⦄
    ⦃ser : EntryEncoder p.Json⦄ ⦃b3 : Blake3⦄ ⦃out : Outside p.Json⦄ ⦃sw : Stopwatch⦄
    ⦃re : Rendering⦄ {Forget Store : Type 0} ⦃ts : TaskStore Store⦄ where
  unfoldable pub spawn :
      AppState Forget Store
      → BeliefSetRequest
      → p.BeliefId
      → DiagnosticSignal
      → Handled Forget Store
  spawn s r id signal =
      let (rt, has_budget) = try_consume_system2_budget s.runtime r.now in
      let s' : AppState Forget Store = record s { runtime = rt } in
      if has_budget
      then (
        record s' { task_store = (ts.insert s.task_store (new_task r pending)).0 },
        some (spawned id r.task_id signal),
        ok (with_task (re.show_id id) r.task_id),
      )
      else (s', none, ok (without_task (re.show_id id)))

  unfoldable pub after_update :
      AppState Forget Store
      → BeliefSetRequest
      → p.BeliefId
      → RuntimeUpdateResult
      → Handled Forget Store
  after_update s r id (system2_activated d result) = (
    record s {
      task_store =
          (ts.insert s.task_store
            (new_task r (completed (re.confidence_json result.revised_confidence)))).0;
    },
    none,
    ok (with_task (re.show_id id) r.task_id),
  )
  after_update s r id (system2_pending signal) = spawn s r id signal
  after_update s r id system2_throttled = (s, none, ok (without_task (re.show_id id)))
  after_update s r id system1_only = (s, none, ok (without_task (re.show_id id)))

  unfoldable pub set_existing :
      AppState Forget Store → BeliefSetRequest → p.BeliefId → Handled Forget Store
  set_existing s r id =
      let (rt, w, result) = update_belief s.runtime s.world (change_of r id) in
      let s' : AppState Forget Store = record s { runtime = rt; world = w } in
      elim result [
        | err e ↦ (s', none, err (runtime (re.show_error e)))
        | ok x ↦ after_update s' r id x
      ]

  unfoldable pub set_new : AppState Forget Store → BeliefSetRequest → Handled Forget Store
  set_new s r =
      let (rt, id) = insert_belief s.runtime (
        new_node r.key (asserted (re.show_json r.value))
          (parse_provenance r.provenance_kind r.call_id) r.confidence r.now_ms) in
      (record s { runtime = rt }, none, ok (without_task (re.show_id id)))

  unfoldable pub handle_belief_set : AppState Forget Store → BeliefSetRequest → Handled Forget Store
  handle_belief_set s r = elim (get_by_key s.runtime r.key) [
    | some id ↦ set_existing s r id
    | none ↦ set_new s r
  ]

  unfoldable pub set_status : AppState Forget Store → p.Uuid → TaskStatus → AppState Forget Store
  set_status s task u = record s { task_store = (ts.update_status s.task_store task u).0 }

  -- One step of a spawned task, with what the client answers if the step waits for it.
  unfoldable pub advance :
      Result LlmClientError System2Result
      → Job
      → AppState Forget Store
      → AppState Forget Store × Job
  advance reply (spawned id task signal) s = (
    set_status s task running,
    elim s.runtime.llm_client [ none ↦ abandoned | some c ↦ reflecting id task signal ],
  )
  advance (ok result) (reflecting id task signal) s = (
    record s { runtime = apply_system2_result s.runtime id result.revised_confidence },
    applied task result,
  )
  advance (err e) (reflecting id task signal) s =
      (record s { runtime = release_system2_budget s.runtime }, refunded task e)
  advance reply (applied task result) s =
      (set_status s task (completed (re.reflection_json result)), finished)
  advance reply (refunded task e) s = (set_status s task (failed (re.show_llm_error e)), given_up)
  advance reply finished s = (s, finished)
  advance reply abandoned s = (s, abandoned)
  advance reply given_up s = (s, given_up)
