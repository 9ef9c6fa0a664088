-- ===== src/Tests/Contractions.antt =====
-- Runs of the theorems on what a revision gives up.
use epica.Prelude.{string_eq, nat_eq, list_eq, IsListed, ℕ, refl, List, [], ◌∷◌}
use epica.Quad.Platform.{id_eq}
use epica.Quad.Store.{Core, insert, add_causal_edge, inferred_from, inferred_from_premises}
use epica.Quad.Revision.{minimal_contraction_set}
use epica.Quad.Contraction.{IsWeakest, minimal_contraction_set-hits, minimal_contraction_set-from}
use epica.Tests.Stores.{toy_platform, toy_slots, toy_graphs}
use epica.Tests.Quads.{one, premise}

-- The belief 0 with two edges of support: by 1 and 2 together, and by 2 alone.
abbrev pub supported : Core
supported =
    let both = (insert (insert one premise).0 premise).0 in
    add_causal_edge (add_causal_edge both 1 0 (inferred_from (1 ∷ 2 ∷ []))) 2 0
      (inferred_from (2 ∷ []))

supports : IsListed {A = List ℕ} (1 ∷ 2 ∷ []) (inferred_from_premises supported.causal 0)
unfolding insert epica.Quad.Store.new_core epica.Quad.HashMap.hash_get
    epica.Quad.HashMap.hash_insert epica.Quad.Projection.add_node epica.Quad.Projection.new_graph
    epica.Quad.Store.premises_of inferred_from_premises add_causal_edge
    epica.Quad.Projection.add_edge epica.Quad.Projection.ends
supports = (1, refl)

gives_up : IsListed {A = ℕ} 2 (minimal_contraction_set supported 0)
unfolding insert epica.Quad.Store.new_core epica.Quad.HashMap.hash_get
    epica.Quad.HashMap.hash_insert epica.Quad.Projection.add_node epica.Quad.Projection.new_graph
    epica.Quad.Store.premises_of inferred_from_premises add_causal_edge
    epica.Quad.Projection.add_edge epica.Quad.Projection.ends minimal_contraction_set
    epica.Quad.Revision.collect_weakest epica.Quad.Revision.weakest_from epica.Quad.Revision.smaller
    epica.Quad.Revision.confidence_of epica.Quad.Store.get
gives_up = (0, refl)

minimal_contraction_set-hits_example :
    (w : ℕ) × (IsListed {A = ℕ} w (minimal_contraction_set supported 0))
    × (IsWeakest supported (1 ∷ 2 ∷ []) w)
minimal_contraction_set-hits_example = minimal_contraction_set-hits supported 0 supports

minimal_contraction_set-from_example :
    (path : List ℕ) × (IsListed {A = List ℕ} path (inferred_from_premises supported.causal 0))
    × (IsWeakest supported path 2)
minimal_contraction_set-from_example = minimal_contraction_set-from supported 0 gives_up
