-- ===== src/Runtime/Governance.antt =====
-- crates/epica-runtime/src/governance_tracker.rs: the limits of a session. The counters are a `u64`
-- that wraps (`fetch_add`) and `u32`s; the calls map and the set of pending keys are association lists.
use epica.Prelude.{
  ltb, leb, if◌then◌else◌, string_eq, nat_eq, ◌==◌, ==_refl, list_eq, Bool-cases, any, Result, ℕ,
  zero, suc, ◌+◌, ◌-◌, ◌%◌, ◌^◌, ◌≤◌, ◌<◌, min, String, ◌≡◌, ◌↔◌, inl, inr, Bool, true, false,
  Option, none, some, List, [], ◌∷◌, arith, ok, err,
}
use Prim.Native.String.{◌++◌ as str_append}

pub record GovernanceLimitExceeded : Type 0 where
  pub resource : String
  pub limit : ℕ
  pub used : ℕ

pub record GovernanceTracker : Type 0 where
  pub tokens_used : ℕ
  pub tool_calls : List (String × ℕ)
  pub pending_approvals : List String

abbrev pub Tracked : Type 0
Tracked = Result GovernanceLimitExceeded (Unit {0})

unfoldable pub new_tracker : GovernanceTracker
new_tracker = record { tokens_used = 0; tool_calls = []; pending_approvals = [] }

abbrev exceeded : String → ℕ → ℕ → Tracked
exceeded resource limit used = err (record { resource = resource; limit = limit; used = used })

-- `fetch_add` comes first, so a refused call is counted too.
unfoldable pub track_token_usage : GovernanceTracker → Option ℕ → GovernanceTracker × Tracked
track_token_usage t limit =
    let prev = t.tokens_used in
    let t' : GovernanceTracker = record {
      tokens_used = (prev + 1) % 2 ^ 64;
      tool_calls = t.tool_calls;
      pending_approvals = t.pending_approvals;
    } in
    (
      t',
      elim limit [
        | none ↦ ok tt
        | some most ↦ if leb most prev then exceeded "tokens_per_session" most (prev + 1) else ok tt
      ],
    )

unfoldable pub calls_of : List (String × ℕ) → String → ℕ
calls_of [] key = 0
calls_of ((k, n) ∷ m) key = if k == key then n else calls_of m key

-- `*calls.entry(key).or_insert(0) += 1`
unfoldable pub count_call : List (String × ℕ) → String → List (String × ℕ)
count_call [] key = (key, 1) ∷ []
count_call ((k, n) ∷ m) key =
    let rest = count_call m key in if k == key then (k, (n + 1) % 2 ^ 32) ∷ m else (k, n) ∷ rest

unfoldable pub track_tool_call : GovernanceTracker → String → Option ℕ → GovernanceTracker × Tracked
track_tool_call t belief_key limit =
    let calls = count_call t.tool_calls belief_key in
    let count = calls_of calls belief_key in
    let t' : GovernanceTracker = record {
      tokens_used = t.tokens_used;
      tool_calls = calls;
      pending_approvals = t.pending_approvals;
    } in
    (
      t',
      elim limit [
        | none ↦ ok tt
        | some most ↦
            if ltb most count
            then exceeded (str_append "tool_calls_for:" belief_key) most count
            else ok tt
      ],
    )

abbrev pub is_key_in : String → List String → Bool
is_key_in key keys = any (λ k. k == key) keys

abbrev pub insert_key : String → List String → List String
insert_key key keys = if is_key_in key keys then keys else key ∷ keys

unfoldable pub requires_approval :
    GovernanceTracker → String → List String → GovernanceTracker × Bool
requires_approval t belief_key require_human_approval =
    if is_key_in belief_key require_human_approval
    then (
      record {
        tokens_used = t.tokens_used;
        tool_calls = t.tool_calls;
        pending_approvals = insert_key belief_key t.pending_approvals;
      },
      true,
    )
    else (t, false)

unfoldable pub remove_key : String → List String → List String
remove_key key [] = []
remove_key key (k ∷ ks) = let rest = remove_key key ks in if k == key then rest else k ∷ rest

unfoldable pub mark_approved : GovernanceTracker → String → GovernanceTracker
mark_approved t belief_key = record {
  tokens_used = t.tokens_used;
  tool_calls = t.tool_calls;
  pending_approvals = remove_key belief_key t.pending_approvals;
}

-- A run of `n` calls under one limit: how many of them were let through.
unfoldable pub admitted_tokens : ℕ → ℕ → GovernanceTracker → ℕ × GovernanceTracker
admitted_tokens zero limit t = (0, t)
admitted_tokens (suc n) limit t =
    let (t', r) = track_token_usage t (some limit) in
    let (k, t'') = admitted_tokens n limit t' in (elim r [ ok _ ↦ suc k | err _ ↦ k ], t'')

tokens_used-track :
    (t : GovernanceTracker) (limit : ℕ)
    → t.tokens_used + 1 < 2 ^ 64
    → (track_token_usage t (some limit)).0.tokens_used ≡ t.tokens_used + 1
unfolding track_token_usage
tokens_used-track t limit b = omega arith

-- Of any number of updates under one token limit exactly as many are let through as the limit
-- leaves, and every one of them is counted, provided that the counter stays below 2 ^ 64.
pub admitted_tokens_lem :
    (n limit : ℕ) (t : GovernanceTracker)
    → t.tokens_used + n < 2 ^ 64
    → ((admitted_tokens n limit t).0 ≡ min n (limit - t.tokens_used))
      × ((admitted_tokens n limit t).1.tokens_used ≡ t.tokens_used + n)
unfolding admitted_tokens track_token_usage
admitted_tokens_lem zero limit t b = (omega arith, omega arith)
admitted_tokens_lem (suc n) limit t b =
    let step = tokens_used-track t limit (omega arith) in
    let ih =
      admitted_tokens_lem n limit (track_token_usage t (some limit)).0 (omega (arith, step)) in
    elim (Bool-cases (leb limit t.tokens_used)) [
      | inl y ↦ ground (arith, step, ih, y)
      | inr z ↦ ground (arith, step, ih, z)
    ]

calls_of-count_call :
    (m : List (String × ℕ)) (key other : String)
    → calls_of m key + 1 < 2 ^ 32
    → calls_of (count_call m key) other ≡ (if key == other then 1 else 0) + calls_of m other
unfolding calls_of count_call
calls_of-count_call [] key other b = omega arith
calls_of-count_call ((k, n) ∷ m) key other b = elim (Bool-cases (k == key)) [
  | inl t ↦
      let q = (string_eq.beq_iff k key).0 t in
      rw (t, q)
        (elim (Bool-cases (key == other)) [ inl y ↦ ground (arith, y) | inr z ↦ ground (arith, z) ])
  | inr f ↦
      let ih = calls_of-count_call m key other (ground (arith, f)) in
      rw f (elim (Bool-cases (k == other)) [
        | inl y ↦ ground (
          arith,
          ih,
          f,
          y,
          string_eq.beq_iff k other,
          string_eq.beq_iff key other,
          string_eq.beq_iff k key,
        )
        | inr z ↦ ground (arith, ih, z)
      ])
]

-- A tool call on a key raises the count of that key by one and of no other key, and is let through
-- exactly when the raised count is within the limit, provided that the count stays below 2 ^ 32.
pub track_tool_call_lem :
    (t : GovernanceTracker) (key other : String) (most : ℕ)
    → calls_of t.tool_calls key + 1 < 2 ^ 32
    → (calls_of (track_tool_call t key (some most)).0.tool_calls other
        ≡ (if key == other then 1 else 0) + calls_of t.tool_calls other)
      × (((track_tool_call t key (some most)).1 ≡ ok tt) ↔ (suc (calls_of t.tool_calls key) ≤ most))
unfolding track_tool_call
track_tool_call_lem t key other most b =
    let c = calls_of-count_call t.tool_calls key key b in
    (
      calls_of-count_call t.tool_calls key other b,
      (λ h. ground (arith, c, ==_refl key, h), λ h. ground (arith, c, ==_refl key, h)),
    )
