-- ===== src/Tests/Erasures.antt =====
-- Runs of the theorems on the erasure of beliefs.
use epica.Prelude.{string_eq, nat_eq, list_eq, ℕ, String, ◌≡◌, refl, ◌≢◌, ◌↔◌, none, List, [], ◌∷◌}
use epica.Quad.Platform.{id_eq}
use epica.Quad.Store.{get}
use epica.Sovereignty.Forget.{
  ForgetPolicy, IsSafeToForget, verified, default_causal_verify_fn, execute_with_backends,
  execute_with_backends-erases,
}
use epica.Tests.Stores.{toy_platform, toy_slots, toy_graphs}
use epica.Tests.Contractions.{supported}

abbrev careful : ForgetPolicy
careful = record { triggers = []; verify_fn = default_causal_verify_fn }

-- The belief 0 supports nothing, the belief 1 supports it.
execute_with_backends-erases_example :
    (get (execute_with_backends careful 1 supported ("redis" ∷ [])).0 1 ≡ none)
    × ((other : ℕ)
        → 1 ≢ other
        → get (execute_with_backends careful 1 supported ("redis" ∷ [])).0 other
          ≡ get supported other)
    × (((execute_with_backends careful 1 supported ("redis" ∷ [])).1 ≡ verified)
        ↔ (IsSafeToForget supported 1 × (◌≡◌ {A = List String} ("redis" ∷ []) [])))
execute_with_backends-erases_example =
    execute_with_backends-erases careful 1 supported ("redis" ∷ []) refl
