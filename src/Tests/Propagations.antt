-- ===== src/Tests/Propagations.antt =====
-- Runs of the theorems on System 1 and on the token bucket.
use epica.Prelude.{string_eq, nat_eq, list_eq, ℕ, min, ◌≡◌, refl, ◌↔◌, some, List, [], ◌∷◌, arith}
use epica.Quad.Platform.{id_eq}
use epica.Quad.Store.{Core, get}
use epica.Quad.System1.{walk, propagate_system1}
use epica.Quad.Propagation.{IsVisited, walk-returns}
use epica.Quad.Downstream.{Follows, SameBut, SameRest}
use epica.Quad.Spreading.{walk-visits, propagate_system1-writes}
use epica.Runtime.TokenBucket.{Stopwatch, new_bucket, granted, granted_lem}
use epica.Tests.Stores.{toy_platform, toy_slots, toy_graphs}
use epica.Tests.Quads.{inferred}

abbrev ticks : ℕ → ℕ
ticks n = n

walk-returns_example :
    (q' : Core) × (visited : List ℕ) × (walk ticks inferred 1 ≡ some (q', visited))
walk-returns_example = walk-returns ticks inferred 1

walks : (q' : Core) × (walk ticks inferred 1 ≡ some (q', 0 ∷ 1 ∷ []))
unfolding walk epica.Quad.System1.propagate_system1_inner epica.Quad.System1.each
    epica.Quad.System1.refresh epica.Quad.Store.inferred_from_premises epica.Quad.Store.premises_of
    epica.Quad.Store.descendants_of epica.Quad.Store.labels epica.Quad.Store.insert
    epica.Quad.Store.new_core epica.Quad.Store.add_causal_edge epica.Quad.Store.get
    epica.Quad.HashMap.hash_get epica.Quad.HashMap.hash_insert epica.Quad.Projection.add_node
    epica.Quad.Projection.new_graph epica.Quad.Projection.add_edge epica.Quad.Projection.ends
    epica.Quad.Store.modify
walks = (_, refl)

walk-visits_example : IsVisited (0 ∷ 1 ∷ []) 0 ↔ Follows inferred.causal 1 0
walk-visits_example = walk-visits ticks inferred 1 0 walks.1

propagate_system1-writes_example :
    SameRest inferred (propagate_system1 ticks inferred 1)
    × ((x : ℕ) → SameBut (get inferred x) (get (propagate_system1 ticks inferred 1) x))
    × ((x : ℕ)
        → ¬ Follows inferred.causal 1 x
        → get (propagate_system1 ticks inferred 1) x ≡ get inferred x)
propagate_system1-writes_example = propagate_system1-writes ticks inferred 1

instance abbrev pub toy_stopwatch : Stopwatch
toy_stopwatch = record { elapsed = λ a b. b }

granted_lem_example : (granted 5 ticks (new_bucket 3 0 0)).0 ≡ min 5 3
granted_lem_example = granted_lem 3 0 0 5 ticks refl (omega arith)
