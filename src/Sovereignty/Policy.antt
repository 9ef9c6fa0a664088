-- ===== src/Sovereignty/Policy.antt =====
-- crates/epica-contracts/src/sovereignty/auth.rs, retention.rs, cross_agent.rs: the policies that
-- answer yes or no. A `u64` of milliseconds is a number below 2 ^ 64; nothing here can wrap.
use epica.Prelude.{
  ltb, string_eq, nat_eq, ◌==◌, list_eq, Bool-cases, any, IsListed, any_iff-IsListed, ℕ, ◌+◌, ◌-◌,
  ◌<◌, String, ◌≡◌, refl, ◌↔◌, inl, inr, Bool, true, false, not, List, arith,
}

pub data AllowedAgents : Type 0 where
  any_agent : AllowedAgents
  allowlist : List String → AllowedAgents
  denylist : List String → AllowedAgents
  human_approval_required : AllowedAgents

pub record AuthPolicy : Type 0 where
  pub allowed_agents : AllowedAgents
  pub require_audit : Bool

unfoldable pub default_auth : AuthPolicy
default_auth = record { allowed_agents = any_agent; require_audit = false }

abbrev pub is_among : String → List String → Bool
is_among agent_id ids = any (λ id. id == agent_id) ids

unfoldable pub allows : AuthPolicy → String → Bool
allows p agent_id = elim p.allowed_agents [
  | any_agent ↦ true
  | allowlist ids ↦ is_among agent_id ids
  | denylist ids ↦ not (is_among agent_id ids)
  | human_approval_required ↦ false
]

unfoldable pub requires_human_approval : AuthPolicy → Bool
requires_human_approval p = elim p.allowed_agents [ human_approval_required ↦ true | _ ↦ false ]

-- Who a policy means to admit.
unfoldable pub IsPermitted : AllowedAgents → String → Type 0
IsPermitted any_agent agent = Unit
IsPermitted (allowlist ids) agent = IsListed agent ids
IsPermitted (denylist ids) agent = ¬ IsListed agent ids
IsPermitted human_approval_required agent = ⊥

any-false_iff : (a : String) (xs : List String) → (is_among a xs ≡ false) ↔ (¬ IsListed a xs)
any-false_iff a xs = (
  λ h l. absurd (cc (h, (any_iff-IsListed a xs).1 l)),
  λ n. elim (Bool-cases (is_among a xs)) [
    | inl t ↦ absurd (n ((any_iff-IsListed a xs).0 t))
    | inr f ↦ f
  ],
)

not_iff : (b : Bool) → (not b ≡ true) ↔ (b ≡ false)
not_iff true = (λ h. cc, λ h. cc)
not_iff false = (λ h. refl, λ h. refl)

-- An authorization policy allows an agent exactly when it admits anyone, lists the agent in its
-- allowlist, or has a denylist that does not list it; it allows nobody when human approval is
-- required.
pub allows_iff :
    (p : AuthPolicy) (agent : String) → (allows p agent ≡ true) ↔ IsPermitted p.allowed_agents agent
unfolding allows IsPermitted
allows_iff p agent = by-mode p.allowed_agents
  where
    by-mode :
        (m : AllowedAgents)
        → (allows (record { allowed_agents = m; require_audit = p.require_audit }) agent ≡ true)
          ↔ IsPermitted m agent
    by-mode any_agent = (λ h. tt, λ u. refl)
    by-mode (allowlist ids) = any_iff-IsListed agent ids
    by-mode (denylist ids) = (
      λ h. (any-false_iff agent ids).0 ((not_iff (is_among agent ids)).0 h),
      λ n. (not_iff (is_among agent ids)).1 ((any-false_iff agent ids).1 n),
    )
    by-mode human_approval_required = (λ h. absurd cc, λ z. absurd z)

pub data RetentionPolicy : Type 0 where
  permanent : RetentionPolicy
  duration : ℕ → RetentionPolicy
  until : String → RetentionPolicy
  session_scoped : RetentionPolicy

-- `saturating_sub` is the subtraction that stops at 0.
unfoldable pub is_expired : RetentionPolicy → ℕ → ℕ → Bool
is_expired permanent created_at_ms now_ms = false
is_expired (duration ms) created_at_ms now_ms = ltb ms (now_ms - created_at_ms)
is_expired session_scoped created_at_ms now_ms = false
is_expired (until condition) created_at_ms now_ms = false

-- A retention policy finds a belief expired exactly when it is a duration and strictly more time
-- than that has passed since the belief was created.
is_expired_iff :
    (r : RetentionPolicy) (created now : ℕ)
    → (is_expired r created now ≡ true) ↔ ((ms : ℕ) × (r ≡ duration ms) × (created + ms < now))
unfolding is_expired
is_expired_iff permanent created now = (λ h. absurd cc, λ (ms, e, l). absurd cc)
is_expired_iff (duration ms) created now =
    (λ h. (ms, refl, ground arith), λ (n, e, l). duration-case n e l)
  where
    duration-case :
        (n : ℕ) → duration ms ≡ duration n → created + n < now → ltb ms (now - created) ≡ true
    duration-case n e l = let same : ms ≡ n = cc in ground arith
is_expired_iff (until c) created now = (λ h. absurd cc, λ (ms, e, l). absurd cc)
is_expired_iff session_scoped created now = (λ h. absurd cc, λ (ms, e, l). absurd cc)

pub data SharingMode : Type 0 where
  isolated : SharingMode
  shared_with : List String → SharingMode
  session_shared : SharingMode
  global : SharingMode

pub record CrossAgentPolicy : Type 0 where
  pub sharing_mode : SharingMode
  pub require_consent : Bool

unfoldable pub default_cross_agent : CrossAgentPolicy
default_cross_agent = record { sharing_mode = session_shared; require_consent = false }

unfoldable pub allows_share_with : CrossAgentPolicy → String → Bool
allows_share_with p agent_id = elim p.sharing_mode [
  | isolated ↦ false
  | shared_with ids ↦ is_among agent_id ids
  | session_shared ↦ true
  | global ↦ true
]

unfoldable pub IsSharedWith : SharingMode → String → Type 0
IsSharedWith isolated agent = ⊥
IsSharedWith (shared_with ids) agent = IsListed agent ids
IsSharedWith session_shared agent = Unit
IsSharedWith global agent = Unit

-- A belief may be shared with an agent exactly when the mode names it or is open.
pub allows_share_with_iff :
    (p : CrossAgentPolicy) (agent : String)
    → (allows_share_with p agent ≡ true) ↔ IsSharedWith p.sharing_mode agent
unfolding allows_share_with IsSharedWith
allows_share_with_iff p agent = by-mode p.sharing_mode
  where
    by-mode :
        (m : SharingMode)
        → (allows_share_with
              (record { sharing_mode = m; require_consent = p.require_consent })
              agent
            ≡ true)
          ↔ IsSharedWith m agent
    by-mode isolated = (λ h. absurd cc, λ z. absurd z)
    by-mode (shared_with ids) = any_iff-IsListed agent ids
    by-mode session_shared = (λ h. tt, λ u. refl)
    by-mode global = (λ h. tt, λ u. refl)
