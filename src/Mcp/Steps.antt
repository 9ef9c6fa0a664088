-- ===== src/Mcp/Steps.antt =====
-- crates/epica-mcp/src/handlers/belief.rs: requests and the steps of the spawned tasks, in any order.
use epica.Prelude.{
  nat_beq, if◌then◌else◌, string_eq, nat_eq, list_eq, Bool-cases, Option-cases, some_inj, get_elem?,
  Result, ℕ, zero, suc, ◌-◌, ◌≤◌, ◌≡◌, refl, ap, ◌∙◌, subst, ◌≢◌, ◌⊎◌, inl, inr, Option, none, some,
  List, [], ◌∷◌, ◌++◌, arith, ok, err,
}
use epica.Quad.Platform.{Platform, SlotMap, Petgraph}
use epica.Ledger.Defs.{EntryEncoder, Blake3}
use epica.Sovereignty.Emit.{Outside}
use epica.Contracts.Errors.{LlmClientError}
use epica.Contracts.Execution.{Shell}
use epica.Runtime.TokenBucket.{Stopwatch}
use epica.Runtime.Beliefs.{System2Result}
use epica.Mcp.Tasks.{TaskStore}
use epica.Mcp.Server.{
  AppState, BeliefSetRequest, Job, Rendering, handle_belief_set, advance, spawned, reflecting,
  applied, refunded, finished, abandoned, given_up,
}

pub record Server ⦃p : Platform⦄ ⦃sm : SlotMap p.BeliefId⦄ ⦃pg : Petgraph p.BeliefId⦄
    (Forget Store : Type 0) : Type 0 where
  pub state : AppState Forget Store
  pub jobs : List Job

-- A request, or one step of the spawned task with a number, which gets the reply if it waits for one.
pub data Event ⦃p : Platform⦄ : Type 0 where
  request : BeliefSetRequest → Event
  progress : ℕ → Result LlmClientError System2Result → Event

module _ ⦃p : Platform⦄ where
  unfoldable pub joined : List Job → Option Job → List Job
  joined js none = js
  joined js (some j) = js ++ j ∷ []

  -- The steps that a task has left.
  abbrev pub left : Job → ℕ
  left (spawned id task signal) = 3
  left (reflecting id task signal) = 2
  left (applied task result) = 1
  left (refunded task e) = 1
  left finished = 0
  left abandoned = 0
  left given_up = 0

  pub left-le : (j : Job) → left j ≤ 3
  left-le (spawned id task signal) = omega arith
  left-le (reflecting id task signal) = omega arith
  left-le (applied task result) = omega arith
  left-le (refunded task e) = omega arith
  left-le finished = omega arith
  left-le abandoned = omega arith
  left-le given_up = omega arith

  -- How many of the events are steps of the task with the number.
  unfoldable pub turns : ℕ → List Event → ℕ
  turns n [] = 0
  turns n (request r ∷ es) = turns n es
  turns n (progress m reply ∷ es) = let rest = turns n es in if nat_beq m n then suc rest else rest

  pub joined-kept :
      (js : List Job) (o : Option Job) (n : ℕ) {j : Job}
      → get_elem? js n ≡ some j
      → get_elem? (joined js o) n ≡ some j
  unfolding joined
  joined-kept js none n h = h
  joined-kept js (some k) n h = later js n h
    where
      later :
          (js : List Job) (n : ℕ) {j : Job}
          → get_elem? js n ≡ some j
          → get_elem? (js ++ k ∷ []) n ≡ some j
      later [] n h = absurd cc
      later (i ∷ js) zero h = h
      later (i ∷ js) (suc n) h = later js n h

module _ ⦃p : Platform⦄ ⦃sm : SlotMap p.BeliefId⦄ ⦃pg : Petgraph p.BeliefId⦄ ⦃sh : Shell⦄
    ⦃ser : EntryEncoder p.Json⦄ ⦃b3 : Blake3⦄ ⦃out : Outside p.Json⦄ ⦃sw : Stopwatch⦄
    ⦃re : Rendering⦄ {Forget Store : Type 0} ⦃ts : TaskStore Store⦄ where
  unfoldable pub advance_at :
      ℕ
      → Result LlmClientError System2Result
      → List Job
      → AppState Forget Store
      → AppState Forget Store × List Job
  advance_at n reply [] s = (s, [])
  advance_at zero reply (j ∷ js) s = let (s', j') = advance reply j s in (s', j' ∷ js)
  advance_at (suc n) reply (j ∷ js) s = let (s', js') = advance_at n reply js s in (s', j ∷ js')

  unfoldable pub step : Event → Server Forget Store → Server Forget Store
  step (request r) v =
      let (s', job, response) = handle_belief_set v.state r in
      record { state = s'; jobs = joined v.jobs job }
  step (progress n reply) v =
      let (s', js') = advance_at n reply v.jobs v.state in record { state = s'; jobs = js' }

  unfoldable pub run : List Event → Server Forget Store → Server Forget Store
  run [] v = v
  run (e ∷ es) v = run es (step e v)

  advance-left :
      (reply : Result LlmClientError System2Result) (j : Job) (s : AppState Forget Store)
      → left (advance reply j s).1 ≤ left j - 1
  unfolding advance
  advance-left reply (spawned id task signal) s = elim (Option-cases s.runtime.llm_client) [
    | inl e ↦ rw e (omega arith)
    | inr (c, e) ↦ rw e (omega arith)
  ]
  advance-left (ok r) (reflecting id task signal) s = omega arith
  advance-left (err e) (reflecting id task signal) s = omega arith
  advance-left reply (applied task result) s = omega arith
  advance-left reply (refunded task e) s = omega arith
  advance-left reply finished s = omega arith
  advance-left reply abandoned s = omega arith
  advance-left reply given_up s = omega arith

  pub advance_at-other :
      (m n : ℕ) (reply : Result LlmClientError System2Result) (js : List Job)
      (s : AppState Forget Store)
      → m ≢ n
      → get_elem? (advance_at m reply js s).1 n ≡ get_elem? js n
  unfolding advance_at
  advance_at-other m n reply [] s h = refl
  advance_at-other zero zero reply (j ∷ js) s h = absurd (h refl)
  advance_at-other zero (suc n) reply (j ∷ js) s h = refl
  advance_at-other (suc m) zero reply (j ∷ js) s h = refl
  advance_at-other (suc m) (suc n) reply (j ∷ js) s h =
      advance_at-other m n reply js s (λ q. h (ap suc q))

  -- The step reaches the job with the number, if there is one.
  pub advance_at-cases :
      (n : ℕ) (reply : Result LlmClientError System2Result) (js : List Job)
      (s : AppState Forget Store)
      → ((advance_at n reply js s ≡ (s, js)) × (get_elem? js n ≡ none))
        ⊎ ((j : Job) × (get_elem? js n ≡ some j)
            × ((advance_at n reply js s).0 ≡ (advance reply j s).0)
            × (get_elem? (advance_at n reply js s).1 n ≡ some (advance reply j s).1))
  unfolding advance_at
  advance_at-cases n reply [] s = inl (refl, refl)
  advance_at-cases zero reply (j ∷ js) s = inr (j, refl, refl, refl)
  advance_at-cases (suc n) reply (i ∷ js) s = elim (advance_at-cases n reply js s) [
    | inl (e, none_there) ↦ inl (ap (λ x. (x.0, i ∷ x.1)) e, none_there)
    | inr (j, at, to, now) ↦ inr (j, at, to, now)
  ]

  advance_at-same :
      (n : ℕ) (reply : Result LlmClientError System2Result) (js : List Job)
      (s : AppState Forget Store) {j : Job}
      → get_elem? js n ≡ some j
      → (j' : Job) × (get_elem? (advance_at n reply js s).1 n ≡ some j') × (left j' ≤ left j - 1)
  unfolding advance_at
  advance_at-same n reply [] s {j} h = absurd cc
  advance_at-same zero reply (i ∷ js) s {j} h = (
    (advance reply i s).1,
    refl,
    subst (λ k. left (advance reply i s).1 ≤ left k - 1) (some_inj h) (advance-left reply i s),
  )
  advance_at-same (suc n) reply (i ∷ js) s {j} h = advance_at-same n reply js s h

  pub run-left :
      (es : List Event) (v : Server Forget Store) (n : ℕ) {j : Job}
      → get_elem? v.jobs n ≡ some j
      → left j ≤ turns n es
      → (j' : Job) × (get_elem? (run es v).jobs n ≡ some j') × (left j' ≡ 0)
  unfolding run step turns
  run-left [] v n {j} h few = (j, h, omega (arith, few))
  run-left (request r ∷ es) v n h few =
      run-left es (step (request r) v) n (joined-kept v.jobs _ n h) few
  run-left (progress m reply ∷ es) v n {j} h few = elim (Bool-cases (nat_beq m n)) [
    | inr f ↦
        run-left es (step (progress m reply) v) n
          (advance_at-other m n reply v.jobs v.state (ground (arith, f)) ∙ h) (rw f at few)
    | inl t ↦
        let same : m ≡ n = ground (arith, t) in
        let (j', at, less) = advance_at-same n reply v.jobs v.state h in
        let enough : left j ≤ suc (turns n es) = rw t at few in
        run-left es (step (progress m reply) v) n
          (ap (λ k. get_elem? (advance_at k reply v.jobs v.state).1 n) same ∙ at)
          (omega (arith, less, enough))
  ]
