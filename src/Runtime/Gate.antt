-- ===== src/Runtime/Gate.antt =====
-- crates/epica-runtime/src/runtime.rs, `update_belief`, its phases 1 and 1b with contract_engine.rs,
-- `pre_update`: which updates get to the revision, and what a refused one leaves.
use epica.Prelude.{
  leb, string_eq, nat_eq, list_eq, Bool-cases, some_inj, all, IsListed, Result-cases, ℕ, zero, suc,
  ◌+◌, ◌%◌, ◌^◌, ◌<◌, String, ◌≡◌, refl, ◌↔◌, ◌⊎◌, inl, inr, Bool, true, Option, none, some, List,
  [], ◌∷◌, arith, ok, err,
}
use epica.Quad.Platform.{Platform, SlotMap, Petgraph}
use epica.Quad.Checkpoint.{BeliefQuad}
use epica.Ledger.Defs.{EntryEncoder, Blake3}
use epica.Sovereignty.Policy.{IsPermitted}
use epica.Sovereignty.Checks.{MnemonicSovereignty, checks_iff, check_write_auth}
use epica.Sovereignty.Emit.{AuditPolicy, World, Outside}
use epica.Contracts.Defs.{BehavioralContract, BeliefPredicate, check_preconditions}
use epica.Contracts.Errors.{RuntimeError}
use epica.Contracts.Execution.{Shell}
use epica.Contracts.Guarantees.{first_failing-none, gate_iff}
use epica.Contracts.Precheck.{pre_update, first_failing}
use epica.Runtime.Governance.{track_token_usage}
use epica.Runtime.Beliefs.{BeliefRuntime, key_of}
use epica.Runtime.Update.{Change, update_belief, admit, commit, token_limit, Updated}

module _ {A : Type 0} where
  all_iff-IsListed :
      (f : A → Bool) (xs : List A) → (all f xs ≡ true) ↔ ((x : A) → IsListed x xs → f x ≡ true)
  all_iff-IsListed f xs = (to xs, from xs)
    where
      to : (xs : List A) → all f xs ≡ true → (x : A) → IsListed x xs → f x ≡ true
      to [] h x (i, l) = absurd cc
      to (y ∷ xs) h x (zero, l) = let q : y ≡ x = some_inj l in rw⁻¹ q (ground (arith, h))
      to (y ∷ xs) h x (suc i, l) = to xs (ground (arith, h)) x (i, l)

      from : (xs : List A) → ((x : A) → IsListed x xs → f x ≡ true) → all f xs ≡ true
      from [] h = refl
      from (y ∷ xs) h =
          let here = h y (0, refl) in
          let rest = from xs (λ x (i, l). h x (suc i, l)) in ground (arith, here, rest)

module _ ⦃p : Platform⦄ ⦃sm : SlotMap p.BeliefId⦄ ⦃pg : Petgraph p.BeliefId⦄ where
  abbrev pub IsBelow : ℕ → Option ℕ → Type 0
  IsBelow used none = Unit
  IsBelow used (some most) = used < most

  -- The tokens counted so far are below the limit of the first contract, if it sets one.
  abbrev pub HasTokens : ℕ → List (BehavioralContract BeliefQuad) → Type 0
  HasTokens used [] = Unit
  HasTokens used (c ∷ cs) = IsBelow used c.governance.max_tokens_per_session

module _ ⦃p : Platform⦄ ⦃sm : SlotMap p.BeliefId⦄ ⦃pg : Petgraph p.BeliefId⦄ {Forget : Type 0} where
  -- A policy on writes, where there is one, admits the agent that the runtime acts as.
  abbrev pub MayWrite : Option (MnemonicSovereignty BeliefQuad Forget AuditPolicy) → String → Type 0
  MayWrite none agent = Unit
  MayWrite (some sov) agent = IsPermitted sov.write_auth.allowed_agents agent

  -- What an update needs to get to the revision.
  pub record IsAdmissible (rt : BeliefRuntime Forget) : Type 0 where
    pub may_write : MayWrite rt.contract_engine.sovereignty "system"
    pub holds :
        (c : BehavioralContract BeliefQuad) (pr : BeliefPredicate BeliefQuad)
        → IsListed c rt.contract_engine.contracts
        → IsListed pr c.preconditions
        → pr.evaluate rt.quad ≡ true
    pub has_tokens : HasTokens rt.governance_tracker.tokens_used rt.contract_engine.contracts

  -- One more token counted, and nothing else.
  abbrev pub counted : BeliefRuntime Forget → BeliefRuntime Forget
  counted rt = record rt {
    governance_tracker = record rt.governance_tracker {
      tokens_used = (rt.governance_tracker.tokens_used + 1) % 2 ^ 64;
    };
  }

module _ ⦃p : Platform⦄ ⦃sm : SlotMap p.BeliefId⦄ ⦃pg : Petgraph p.BeliefId⦄ ⦃sh : Shell⦄ where
  preconditions_iff :
      (cs : List (BehavioralContract BeliefQuad)) (quad : BeliefQuad)
      → (first_failing cs quad ≡ none) ↔ (
          (c : BehavioralContract BeliefQuad) (pr : BeliefPredicate BeliefQuad)
          → IsListed c cs
          → IsListed pr c.preconditions
          → pr.evaluate quad ≡ true)
  unfolding check_preconditions
  preconditions_iff cs quad =
      let none_iff = first_failing-none cs quad in
      let outer = all_iff-IsListed (λ c. check_preconditions c quad) cs in
      (
        λ h c pr l m.
            (all_iff-IsListed (λ x. x.evaluate quad) c.preconditions).0 (outer.0 (none_iff.0 h) c l)
              pr m,
        λ h. none_iff.1 (
            outer.1 (λ c l.
              (all_iff-IsListed (λ x. x.evaluate quad) c.preconditions).1 (λ pr m. h c pr l m))),
      )

module _ ⦃p : Platform⦄ ⦃sm : SlotMap p.BeliefId⦄ ⦃pg : Petgraph p.BeliefId⦄ ⦃sh : Shell⦄
    {Forget : Type 0} where
  pre_update_iff :
      (sov : Option (MnemonicSovereignty BeliefQuad Forget AuditPolicy))
      (cs : List (BehavioralContract BeliefQuad)) (quad : BeliefQuad) (key agent : String)
      → (pre_update sov cs quad key agent ≡ ok tt)
        ↔ (MayWrite sov agent × (first_failing cs quad ≡ none))
  unfolding pre_update
  pre_update_iff none cs quad key agent =
      let both = gate_iff (ok tt) (first_failing cs quad) key in
      (λ h. (tt, (both.0 h).1), λ (u, n). both.1 (refl, n))
  pre_update_iff (some sov) cs quad key agent =
      let auth = (checks_iff sov agent).0 in
      let both = gate_iff (check_write_auth sov agent) (first_failing cs quad) key in
      (λ h. let (a, n) = both.0 h in (auth.0 a, n), λ (a, n). both.1 (auth.1 a, n))

module _ ⦃p : Platform⦄ ⦃sm : SlotMap p.BeliefId⦄ ⦃pg : Petgraph p.BeliefId⦄ where
  token_iff :
      {Forget : Type 0} (rt : BeliefRuntime Forget) (cs : List (BehavioralContract BeliefQuad))
      → ((track_token_usage rt.governance_tracker (token_limit cs)).1 ≡ ok tt)
        ↔ HasTokens rt.governance_tracker.tokens_used cs
  unfolding track_token_usage token_limit
  token_iff rt [] = (λ h. tt, λ h. refl)
  token_iff rt (c ∷ cs) = below c.governance.max_tokens_per_session
    where
      below :
          (limit : Option ℕ)
          → ((track_token_usage rt.governance_tracker limit).1 ≡ ok tt)
            ↔ IsBelow rt.governance_tracker.tokens_used limit
      below none = (λ h. tt, λ h. refl)
      below (some most) = elim (Bool-cases (leb most rt.governance_tracker.tokens_used)) [
        | inl t ↦ rw t (λ h. absurd cc, λ h. absurd (ground (arith, t, h)))
        | inr f ↦ rw f (λ h. ground (arith, f), λ h. refl)
      ]

module _ ⦃p : Platform⦄ ⦃sm : SlotMap p.BeliefId⦄ ⦃pg : Petgraph p.BeliefId⦄ ⦃sh : Shell⦄
    ⦃ser : EntryEncoder p.Json⦄ ⦃b3 : Blake3⦄ ⦃out : Outside p.Json⦄ {Forget : Type 0} where
  -- An error, with the beliefs, the contracts, the logs and the outside as they were.
  pub record IsRefused (rt : BeliefRuntime Forget) (w : World p.Json) (after : Updated Forget)
      : Type 0 where
    pub error : (e : RuntimeError) × (after.2 ≡ err e)
    pub quad : after.0.quad ≡ rt.quad
    pub history : after.0.confidence_history ≡ rt.confidence_history
    pub engine : after.0.contract_engine ≡ rt.contract_engine
    pub world : after.1 ≡ w

  -- An update gets to the revision, with one token counted and nothing else changed, exactly when
  -- the policy on writes, if there is one, admits the agent `system`, every precondition of every
  -- contract holds of the quad, and the tokens counted are below the limit of the first contract, if
  -- it sets one; otherwise the update ends in an error and leaves the quad, the history, the
  -- contracts with their logs and the world as they were.
  pub update_belief-admits :
      (rt : BeliefRuntime Forget) (w : World p.Json) (u : Change)
      → (IsAdmissible rt
          × (update_belief rt w u ≡ commit (counted rt) w u (key_of rt.quad.core u.id)))
        ⊎ ((¬ IsAdmissible rt) × IsRefused rt w (update_belief rt w u))
  unfolding update_belief admit track_token_usage
  update_belief-admits rt w u =
      let key = key_of rt.quad.core u.id in
      let engine = rt.contract_engine in
      let checks = pre_update_iff engine.sovereignty engine.contracts rt.quad key "system" in
      let pre = preconditions_iff engine.contracts rt.quad in
      let tokens = token_iff rt engine.contracts in
      elim (Result-cases (pre_update engine.sovereignty engine.contracts rt.quad key "system")) [
        | inr (x, e) ↦ inr (
          λ a. cc (e, checks.1 (a.may_write, pre.1 a.holds)),
          rw (e, update_belief)
              (record {
                error = (x, refl);
                quad = refl;
                history = refl;
                engine = refl;
                world = refl;
              }),
        )
        | inl (o, e) ↦
            elim (Result-cases
              (track_token_usage rt.governance_tracker (token_limit engine.contracts)).1) [
                | inr (x, f) ↦ inr (
                  λ a. cc (f, tokens.1 a.has_tokens),
                  rw (e, f, update_belief, admit)
                      (record {
                        error = (_, refl);
                        quad = refl;
                        history = refl;
                        engine = refl;
                        world = refl;
                      }),
                )
                | inl (o', f) ↦
                    let (may, none_fails) = checks.0 e in
                    inl (
                      record { may_write = may; holds = pre.0 none_fails; has_tokens = tokens.0 f },
                      rw (e, f, update_belief, admit) refl,
                    )
              ]
      ]
