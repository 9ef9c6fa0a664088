-- ===== src/Mcp/Budget.antt =====
-- crates/epica-mcp/src/handlers/belief.rs: where the tokens of the System 2 budget are.
use epica.Prelude.{
  string_eq, nat_eq, list_eq, Option-cases, Result, Result-cases, ℕ, zero, suc, ◌+◌, ◌≡◌, sym, ◌∙◌,
  subst, inl, inr, Option, none, some, List, [], ◌∷◌, ◌++◌, arith, ok, err,
}
use epica.Quad.Platform.{Platform, SlotMap, Petgraph, id_eq}
use epica.Ledger.Defs.{EntryEncoder, Blake3}
use epica.Sovereignty.Emit.{Outside}
use epica.Contracts.Errors.{LlmClientError}
use epica.Contracts.Execution.{Shell}
use epica.Runtime.TokenBucket.{
  capacity-release, capacity-try_consume, Stopwatch, TokenBucket, Holds, try_consume-some,
  try_consume-none, release-Holds, release,
}
use epica.Runtime.Beliefs.{
  DiagnosticSignal, System2Result, apply_system2_result, try_consume_system2_budget,
  release_system2_budget, get_by_key, RuntimeUpdateResult, system1_only, system2_activated,
  system2_pending, system2_throttled,
}
use epica.Runtime.Update.{update_belief}
use epica.Mcp.Tasks.{TaskStore}
use epica.Mcp.Server.{
  change_of, set_status, AppState, BeliefSetRequest, Job, Rendering, Handled, handle_belief_set,
  set_existing, set_new, after_update, spawn, advance, spawned, reflecting, applied, refunded,
  finished, abandoned, given_up,
}
use epica.Runtime.Buckets.{update_belief-bucket, insert_belief-bucket}
use epica.Mcp.Steps.{Server, Event, request, progress, joined, advance_at, step, run}

module _ ⦃p : Platform⦄ where
  -- The tokens that a task has taken and not given back.
  abbrev pub charge : Job → ℕ
  charge (spawned id task signal) = 1
  charge (reflecting id task signal) = 1
  charge (applied task result) = 1
  charge finished = 1
  charge abandoned = 1
  charge (refunded task e) = 0
  charge given_up = 0

  unfoldable pub charges : List Job → ℕ
  charges [] = 0
  charges (j ∷ js) = charge j + charges js

  abbrev charge_of : Option Job → ℕ
  charge_of none = 0
  charge_of (some j) = charge j

  charges-joined :
      (js : List Job) (o : Option Job) → charges (joined js o) ≡ charges js + charge_of o
  unfolding charges joined
  charges-joined js none = omega arith
  charges-joined js (some k) = all js
    where
      all : (js : List Job) → charges (js ++ k ∷ []) ≡ charges js + charge k
      all [] = omega arith
      all (j ∷ js) = omega (arith, all js)

  -- The tokens in a bucket that does not refill and those that the tasks have taken are the capacity.
  pub record IsBalanced (capacity : ℕ) (b : TokenBucket) (taken : ℕ) : Type 0 where
    pub tokens : ℕ
    pub held : Holds tokens b
    pub size : b.capacity ≡ capacity
    pub sum : tokens + taken ≡ capacity

  unspent :
      {capacity taken : ℕ} {b : TokenBucket}
      → IsBalanced capacity b taken
      → IsBalanced capacity b (taken + 0)
  unspent {capacity} {taken} {b} h = subst (IsBalanced capacity b) (omega arith) h

module _ ⦃p : Platform⦄ ⦃sm : SlotMap p.BeliefId⦄ ⦃pg : Petgraph p.BeliefId⦄ ⦃sh : Shell⦄
    ⦃ser : EntryEncoder p.Json⦄ ⦃b3 : Blake3⦄ ⦃out : Outside p.Json⦄ ⦃sw : Stopwatch⦄
    ⦃re : Rendering⦄ {Forget Store : Type 0} ⦃ts : TaskStore Store⦄ (capacity : ℕ) where
  abbrev Balances : ℕ → Handled Forget Store → Type 0
  Balances taken h = IsBalanced capacity h.0.runtime.reflection_budget (taken + charge_of h.1)

  spawn-IsBalanced :
      (s : AppState Forget Store) (r : BeliefSetRequest) (id : p.BeliefId)
      (signal : DiagnosticSignal) (taken : ℕ)
      → IsBalanced capacity s.runtime.reflection_budget taken
      → Balances taken (spawn s r id signal)
  unfolding spawn try_consume_system2_budget
  spawn-IsBalanced s r id signal taken h = by_tokens h.tokens h.held h.size h.sum
    where
      by_tokens :
          (n : ℕ)
          → Holds n s.runtime.reflection_budget
          → s.runtime.reflection_budget.capacity ≡ capacity
          → n + taken ≡ capacity
          → Balances taken (spawn s r id signal)
      by_tokens zero held size sum =
          let (refused, held') = try_consume-none s.runtime.reflection_budget r.now held in
          rw (refused, spawn)
            (record {
              tokens = 0;
              held = held';
              size = capacity-try_consume s.runtime.reflection_budget 1 r.now ∙ size;
              sum = omega (arith, sum);
            })
      by_tokens (suc n) held size sum =
          let (granted, held') = try_consume-some n s.runtime.reflection_budget r.now held in
          rw (granted, spawn)
            (record {
              tokens = n;
              held = held';
              size = capacity-try_consume s.runtime.reflection_budget 1 r.now ∙ size;
              sum = omega (arith, sum);
            })

  after_update-IsBalanced :
      (s : AppState Forget Store) (r : BeliefSetRequest) (id : p.BeliefId) (x : RuntimeUpdateResult)
      (taken : ℕ)
      → IsBalanced capacity s.runtime.reflection_budget taken
      → Balances taken (after_update s r id x)
  unfolding after_update
  after_update-IsBalanced s r id (system2_activated d result) taken h = unspent h
  after_update-IsBalanced s r id (system2_pending signal) taken h =
      spawn-IsBalanced s r id signal taken h
  after_update-IsBalanced s r id system2_throttled taken h = unspent h
  after_update-IsBalanced s r id system1_only taken h = unspent h

  handle-IsBalanced :
      (s : AppState Forget Store) (r : BeliefSetRequest) (taken : ℕ)
      → IsBalanced capacity s.runtime.reflection_budget taken
      → Balances taken (handle_belief_set s r)
  unfolding handle_belief_set set_existing set_new
  handle-IsBalanced s r taken h = elim (Option-cases (get_by_key s.runtime r.key)) [
    | inl e ↦
        rw (e, handle_belief_set, set_new)
          (unspent
            (subst (λ b. IsBalanced capacity b taken) (sym (insert_belief-bucket s.runtime _)) h))
    | inr (id, e) ↦
        let u = change_of r id in
        let kept : IsBalanced capacity (update_belief s.runtime s.world u).0.reflection_budget
            taken =
          subst (λ b. IsBalanced capacity b taken) (sym (update_belief-bucket s.runtime s.world u))
            h in
        elim (Result-cases (update_belief s.runtime s.world u).2) [
          | inr (x, f) ↦ rw (e, f, handle_belief_set, set_existing) (unspent kept)
          | inl (x, f) ↦
              rw (e, f, handle_belief_set, set_existing)
                (after_update-IsBalanced _ r id x taken kept)
        ]
  ]

  advance-IsBalanced :
      (reply : Result LlmClientError System2Result) (j : Job) (s : AppState Forget Store) (rest : ℕ)
      → IsBalanced capacity s.runtime.reflection_budget (charge j + rest)
      → IsBalanced capacity
          (advance reply j s).0.runtime.reflection_budget
          (charge (advance reply j s).1 + rest)
  unfolding advance set_status apply_system2_result release_system2_budget
  advance-IsBalanced reply (spawned id task signal) s rest h =
      elim (Option-cases s.runtime.llm_client) [ inl e ↦ rw e h | inr (c, e) ↦ rw e h ]
  advance-IsBalanced (ok result) (reflecting id task signal) s rest h = h
  advance-IsBalanced (err e) (reflecting id task signal) s rest h = record {
    tokens = h.tokens + 1;
    held =
        subst (λ n. Holds n (release s.runtime.reflection_budget 1)) (ground (arith, h.sum, h.size))
          (release-Holds h.tokens s.runtime.reflection_budget h.held);
    size = capacity-release s.runtime.reflection_budget 1 ∙ h.size;
    sum = omega (arith, h.sum);
  }
  advance-IsBalanced reply (applied task result) s rest h = h
  advance-IsBalanced reply (refunded task e) s rest h = h
  advance-IsBalanced reply finished s rest h = h
  advance-IsBalanced reply abandoned s rest h = h
  advance-IsBalanced reply given_up s rest h = h

  advance_at-IsBalanced :
      (n : ℕ) (reply : Result LlmClientError System2Result) (js : List Job)
      (s : AppState Forget Store) (rest : ℕ)
      → IsBalanced capacity s.runtime.reflection_budget (charges js + rest)
      → IsBalanced capacity
          (advance_at n reply js s).0.runtime.reflection_budget
          (charges (advance_at n reply js s).1 + rest)
  unfolding advance_at charges
  advance_at-IsBalanced n reply [] s rest h = h
  advance_at-IsBalanced zero reply (j ∷ js) s rest h = subst (IsBalanced capacity _) (omega arith) (
      advance-IsBalanced reply j s (charges js + rest)
        (subst (IsBalanced capacity _) (omega arith) h))
  advance_at-IsBalanced (suc n) reply (j ∷ js) s rest h =
      subst (IsBalanced capacity _) (omega arith) (
        advance_at-IsBalanced n reply js s (charge j + rest)
          (subst (IsBalanced capacity _) (omega arith) h))

  step-IsBalanced :
      (e : Event) (v : Server Forget Store)
      → IsBalanced capacity v.state.runtime.reflection_budget (charges v.jobs)
      → IsBalanced capacity (step e v).state.runtime.reflection_budget (charges (step e v).jobs)
  unfolding step
  step-IsBalanced (request r) v h =
      subst (IsBalanced capacity _) (sym (charges-joined v.jobs (handle_belief_set v.state r).1))
        (handle-IsBalanced v.state r (charges v.jobs) h)
  step-IsBalanced (progress n reply) v h = subst (IsBalanced capacity _) (omega arith) (
      advance_at-IsBalanced n reply v.jobs v.state 0
        (subst (IsBalanced capacity _) (omega arith) h))

  -- If the System 2 budget does not refill, has a capacity below 2 ^ 24, and its tokens and those
  -- that the tasks took add up to the capacity at the start, then through any sequence of requests
  -- and of steps of the spawned tasks, in any order and with any replies of the client, the tokens
  -- left and those that the tasks took and did not give back add up to the capacity.
  pub run-IsBalanced :
      (es : List Event) (v : Server Forget Store)
      → IsBalanced capacity v.state.runtime.reflection_budget (charges v.jobs)
      → IsBalanced capacity (run es v).state.runtime.reflection_budget (charges (run es v).jobs)
  unfolding run
  run-IsBalanced [] v h = h
  run-IsBalanced (e ∷ es) v h = run-IsBalanced es (step e v) (step-IsBalanced e v h)
