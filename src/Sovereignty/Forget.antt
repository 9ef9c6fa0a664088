-- ===== src/Sovereignty/Forget.antt =====
-- crates/epica-contracts/src/sovereignty/forget.rs: the erasure of beliefs and what it reports.
use epica.Prelude.{
  string_eq, nat_eq, ◌==◌, list_eq, any, ℕ, String, ◌≡◌, refl, sym, ap, ◌∙◌, ◌≢◌, ◌↔◌, Bool, Option,
  none, some, List, [], ◌∷◌,
}
use epica.Quad.Platform.{Platform, SlotMap, Petgraph}
use epica.Quad.Value.{BeliefNode}
use epica.Quad.Store.{Core, get, remove, descendants_of}
use epica.Quad.Synchronized.{get-remove_other, get-remove_same}

pub data ForgetTrigger : Type 0 where
  ttl_expired : ForgetTrigger
  contract_revoked : ForgetTrigger
  explicit_request : String → ForgetTrigger
  cross_agent_contamination : String → ForgetTrigger
  governance_mandated : String → ForgetTrigger

pub data ForgetVerificationResult ⦃p : Platform⦄ : Type 0 where
  verified : ForgetVerificationResult
  persistence_not_verified : List String → ForgetVerificationResult
  partial_deletion : List (List p.BeliefId) → ForgetVerificationResult
  verification_error : String → ForgetVerificationResult

pub record ForgetPolicy ⦃p : Platform⦄ ⦃sm : SlotMap p.BeliefId⦄ ⦃pg : Petgraph p.BeliefId⦄
    : Type 0 where
  pub triggers : List ForgetTrigger
  pub verify_fn : p.BeliefId → Core → ForgetVerificationResult

-- `std::mem::discriminant`
abbrev discriminant : ForgetTrigger → ℕ
discriminant ttl_expired = 0
discriminant contract_revoked = 1
discriminant (explicit_request authorized_by) = 2
discriminant (cross_agent_contamination source_agent) = 3
discriminant (governance_mandated policy_id) = 4

module _ ⦃p : Platform⦄ ⦃sm : SlotMap p.BeliefId⦄ ⦃pg : Petgraph p.BeliefId⦄ where
  unfoldable pub execute : ForgetPolicy → p.BeliefId → Core → Core × ForgetVerificationResult
  execute policy id quad = let result = policy.verify_fn id quad in ((remove quad id).0, result)

  -- What is reported when some stores outside the process were not asked.
  unfoldable pub demote : List String → ForgetVerificationResult → ForgetVerificationResult
  demote [] result = result
  demote (b ∷ bs) verified = persistence_not_verified (b ∷ bs)
  demote (b ∷ bs) (persistence_not_verified backends) = persistence_not_verified backends
  demote (b ∷ bs) (partial_deletion remaining_paths) = partial_deletion remaining_paths
  demote (b ∷ bs) (verification_error message) = verification_error message

  unfoldable pub execute_with_backends :
      ForgetPolicy → p.BeliefId → Core → List String → Core × ForgetVerificationResult
  execute_with_backends policy id quad active_backends =
      let (quad', result) = execute policy id quad in (quad', demote active_backends result)

  unfoldable pub is_triggered_by : ForgetPolicy → ForgetTrigger → Bool
  is_triggered_by policy trigger = any (λ t. discriminant t == discriminant trigger) policy.triggers

  unfoldable pub orphans_of : List p.BeliefId → ForgetVerificationResult
  orphans_of [] = verified
  orphans_of (d ∷ ds) = partial_deletion ((d ∷ ds) ∷ [])

  unfoldable pub default_causal_verify_fn : p.BeliefId → Core → ForgetVerificationResult
  default_causal_verify_fn id quad = elim (get quad id) [
    | none ↦ verification_error "belief not found in quad — already removed?"
    | some _ ↦ orphans_of (descendants_of quad.causal id)
  ]

  abbrev pub IsSafeToForget : Core → p.BeliefId → Type 0
  IsSafeToForget quad id =
      (n : BeliefNode) × (get quad id ≡ some n) × (descendants_of quad.causal id ≡ [])

  orphans_of_iff : (ds : List p.BeliefId) → (orphans_of ds ≡ verified) ↔ (ds ≡ [])
  unfolding orphans_of
  orphans_of_iff [] = (λ h. refl, λ h. refl)
  orphans_of_iff (d ∷ ds) = (λ h. absurd cc, λ h. absurd cc)

  found_iff :
      (o : Option BeliefNode) (ds : List p.BeliefId)
      → (elim o [
        | none ↦ verification_error "belief not found in quad — already removed?"
        | some _ ↦ orphans_of ds
      ]
          ≡ verified)
        ↔ ((n : BeliefNode) × (o ≡ some n) × (ds ≡ []))
  found_iff none ds = (λ h. absurd cc, λ (n, h, e). absurd cc)
  found_iff (some n) ds =
      (λ h. (n, refl, (orphans_of_iff ds).0 h), λ (m, h, e). (orphans_of_iff ds).1 e)

  default_causal_verify_fn_iff :
      (quad : Core) (id : p.BeliefId)
      → (default_causal_verify_fn id quad ≡ verified) ↔ IsSafeToForget quad id
  unfolding default_causal_verify_fn
  default_causal_verify_fn_iff quad id = found_iff (get quad id) (descendants_of quad.causal id)

  demote_iff :
      (backends : List String) (r : ForgetVerificationResult)
      → (demote backends r ≡ verified) ↔ ((r ≡ verified) × (backends ≡ []))
  unfolding demote
  demote_iff [] r = (λ h. (h, refl), λ (h, e). h)
  demote_iff (b ∷ bs) verified = (λ h. absurd cc, λ (h, e). absurd cc)
  demote_iff (b ∷ bs) (persistence_not_verified ns) = (λ h. absurd cc, λ (h, e). absurd cc)
  demote_iff (b ∷ bs) (partial_deletion ps) = (λ h. absurd cc, λ (h, e). absurd cc)
  demote_iff (b ∷ bs) (verification_error m) = (λ h. absurd cc, λ (h, e). absurd cc)

  -- Under a policy with the default causal check an erasure leaves the belief absent and every other
  -- belief as it was, and reports it as verified exactly when the belief was there, nothing in the
  -- causal graph descends from it, and no other store is active.
  pub execute_with_backends-erases :
      (policy : ForgetPolicy) (id : p.BeliefId) (quad : Core) (backends : List String)
      → policy.verify_fn ≡ default_causal_verify_fn
      → (get (execute_with_backends policy id quad backends).0 id ≡ none)
        × ((other : p.BeliefId)
            → id ≢ other
            → get (execute_with_backends policy id quad backends).0 other ≡ get quad other)
        × (((execute_with_backends policy id quad backends).1 ≡ verified)
            ↔ (IsSafeToForget quad id × (backends ≡ [])))
  unfolding execute_with_backends execute
  execute_with_backends-erases policy id quad backends h =
      let same : policy.verify_fn id quad ≡ default_causal_verify_fn id quad =
        ap (λ f. f id quad) h in
      (
        get-remove_same quad id,
        (λ other ne. get-remove_other quad id other ne),
        (
          (λ v.
              let (r, e) = (demote_iff backends _).0 v in
              ((default_causal_verify_fn_iff quad id).0 (sym same ∙ r), e)),
          (λ (safe, e).
              (demote_iff backends _).1 (same ∙ (default_causal_verify_fn_iff quad id).1 safe, e)),
        ),
      )
