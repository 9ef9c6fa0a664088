-- ===== src/Sovereignty/Checks.antt =====
-- crates/epica-contracts/src/sovereignty/mod.rs and error.rs: the governance record and its checks.
-- The forget policy (5) and the audit trail (6) have modules of their own; `Quad` is the state that
-- the recovery verifier (9) reads.
use epica.Prelude.{
  if◌then◌else◌, nat_eq, string_eq, list_eq, Bool-cases, Result, ℕ, String, ◌≡◌, refl, ◌↔◌, inl,
  inr, Bool, Option, none, arith, ok, err,
}
use Prim.Native.String.{◌++◌ as str_append}
use epica.Sovereignty.Policy.{
  AuthPolicy, CrossAgentPolicy, RetentionPolicy, allows, allows_iff, allows_share_with, IsPermitted,
  is_expired, permanent, default_auth, default_cross_agent,
}

pub data ViolationClass : Type 0 where
  soft hard critical : ViolationClass

pub data ContractError : Type 0 where
  precondition_failed : String → ContractError
  invariant_violation : String → ViolationClass → ContractError
  sovereignty_violation : String → ContractError

pub data RecoveryVerificationResult : Type 0 where
  verified : RecoveryVerificationResult
  failed : String → RecoveryVerificationResult

pub record MnemonicSovereignty (Quad Forget Audit : Type 0) : Type 0 where
  pub write_auth : AuthPolicy
  pub read_auth : AuthPolicy
  pub update_auth : AuthPolicy
  pub retention : RetentionPolicy
  pub forget : Option Forget
  pub audit : Audit
  pub cross_agent : CrossAgentPolicy
  pub rollback_auth : AuthPolicy
  pub recovery_verify : Quad → RecoveryVerificationResult

abbrev pub AuthResult : Type 0
AuthResult = Result ContractError (Unit {0})

abbrev denied : String → String → AuthResult
denied which agent_id = err (
    sovereignty_violation
      (str_append which (str_append " denied for agent '" (str_append agent_id "'"))))

checked_iff :
    (p : AuthPolicy) (agent : String) (e : ContractError)
    → (◌≡◌ {A = AuthResult} (if allows p agent then ok tt else err e) (ok tt))
      ↔ IsPermitted p.allowed_agents agent
checked_iff p agent e = elim (Bool-cases (allows p agent)) [
  | inl t ↦ (λ h. (allows_iff p agent).0 t, λ h. rw t refl)
  | inr f ↦ (λ h. absurd (ground (arith, f, h)), λ h. absurd (cc (f, (allows_iff p agent).1 h)))
]

module _ {Quad Forget Audit : Type 0} where
  unfoldable pub permissive : Audit → MnemonicSovereignty Quad Forget Audit
  permissive default_audit = record {
    write_auth = default_auth;
    read_auth = default_auth;
    update_auth = default_auth;
    retention = permanent;
    forget = none;
    audit = default_audit;
    cross_agent = default_cross_agent;
    rollback_auth = default_auth;
    recovery_verify = λ q. verified;
  }

  unfoldable pub check_write_auth : MnemonicSovereignty Quad Forget Audit → String → AuthResult
  check_write_auth s agent_id =
      if allows s.write_auth agent_id then ok tt else denied "write_auth" agent_id

  unfoldable pub check_update_auth : MnemonicSovereignty Quad Forget Audit → String → AuthResult
  check_update_auth s agent_id =
      if allows s.update_auth agent_id then ok tt else denied "update_auth" agent_id

  unfoldable pub check_read_auth : MnemonicSovereignty Quad Forget Audit → String → AuthResult
  check_read_auth s agent_id =
      if allows s.read_auth agent_id then ok tt else denied "read_auth" agent_id

  unfoldable pub check_rollback_auth : MnemonicSovereignty Quad Forget Audit → String → AuthResult
  check_rollback_auth s agent_id =
      if allows s.rollback_auth agent_id then ok tt else denied "rollback_auth" agent_id

  unfoldable pub is_belief_expired : MnemonicSovereignty Quad Forget Audit → ℕ → ℕ → Bool
  is_belief_expired s created_at_ms now_ms = is_expired s.retention created_at_ms now_ms

  unfoldable pub allows_cross_agent_share : MnemonicSovereignty Quad Forget Audit → String → Bool
  allows_cross_agent_share s agent_id = allows_share_with s.cross_agent agent_id

  unfoldable pub verify_recovery :
      MnemonicSovereignty Quad Forget Audit → Quad → RecoveryVerificationResult
  verify_recovery s quad = s.recovery_verify quad

  -- Each of the checks on writing, updating, reading and rolling back succeeds exactly for the
  -- agents that the policy of its own primitive admits.
  pub checks_iff :
      (s : MnemonicSovereignty Quad Forget Audit) (agent : String)
      → ((check_write_auth s agent ≡ ok tt) ↔ IsPermitted s.write_auth.allowed_agents agent)
        × ((check_update_auth s agent ≡ ok tt) ↔ IsPermitted s.update_auth.allowed_agents agent)
        × ((check_read_auth s agent ≡ ok tt) ↔ IsPermitted s.read_auth.allowed_agents agent)
        × ((check_rollback_auth s agent ≡ ok tt) ↔ IsPermitted s.rollback_auth.allowed_agents agent)
  unfolding check_write_auth check_update_auth check_read_auth check_rollback_auth
  checks_iff s agent = (
    checked_iff s.write_auth agent _,
    checked_iff s.update_auth agent _,
    checked_iff s.read_auth agent _,
    checked_iff s.rollback_auth agent _,
  )
