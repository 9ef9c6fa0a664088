-- ===== src/Quad/Contraction.antt =====
-- crates/epica-core/src/revision/agm.rs, minimal_contraction_set: which beliefs a revision gives up.
use epica.Prelude.{
  if◌then◌else◌, string_eq, nat_eq, list_eq, Bool-cases, any, IsListed, any_iff-IsListed, zero, suc,
  ◌≡◌, refl, sym, subst, ◌⊎◌, inl, inr, Bool, true, false, List, [], ◌∷◌,
}
use epica.Quad.Platform.{Platform, SlotMap, Petgraph, id_eq}
use epica.Quad.Store.{Core, inferred_from_premises}
use epica.Quad.Revision.{
  confidence_of, smaller, weakest_from, collect_weakest, minimal_contraction_set,
}

module _ ⦃p : Platform⦄ ⦃sm : SlotMap p.BeliefId⦄ ⦃pg : Petgraph p.BeliefId⦄ where
  abbrev IsNoStronger : Core → p.BeliefId → p.BeliefId → Type 0
  IsNoStronger q x y = p.le (confidence_of q x) (confidence_of q y) ≡ true

  -- A member than which no member has less confidence.
  abbrev pub IsWeakest : Core → List p.BeliefId → p.BeliefId → Type 0
  IsWeakest q path w = IsListed w path × ((y : p.BeliefId) → IsListed y path → IsNoStronger q w y)

  IsNoStronger-refl : (q : Core) (x : p.BeliefId) → IsNoStronger q x x
  unfolding confidence_of
  IsNoStronger-refl q x = p.le_refl _

  IsNoStronger-trans :
      (q : Core) (x y z : p.BeliefId) → IsNoStronger q x y → IsNoStronger q y z → IsNoStronger q x z
  unfolding confidence_of
  IsNoStronger-trans q x y z h k = p.le_trans _ _ _ h k

  IsNoStronger-total :
      (q : Core) (x y : p.BeliefId)
      → p.le (confidence_of q x) (confidence_of q y) ≡ false
      → IsNoStronger q y x
  unfolding confidence_of
  IsNoStronger-total q x y h = p.le_total _ _ h

  smaller_lem :
      (q : Core) (x y : p.BeliefId)
      → (smaller q x y ≡ x ⊎ smaller q x y ≡ y)
        × (IsNoStronger q (smaller q x y) x)
        × (IsNoStronger q (smaller q x y) y)
  unfolding smaller
  smaller_lem q x y = elim (Bool-cases (p.le (confidence_of q x) (confidence_of q y))) [
    | inl t ↦ rw t (inl refl, IsNoStronger-refl q x, t)
    | inr f ↦ rw f (inr refl, IsNoStronger-total q x y f, IsNoStronger-refl q y)
  ]

  weakest_from-IsWeakest :
      (q : Core) (x : p.BeliefId) (ys : List p.BeliefId)
      → IsWeakest q (x ∷ ys) (weakest_from q x ys)
  unfolding weakest_from
  weakest_from-IsWeakest q x [] = ((0, refl), least)
    where
      least : (y : p.BeliefId) → IsListed y (x ∷ []) → IsNoStronger q x y
      least y (zero, h) = let e : x ≡ y = cc in rw (sym e) (IsNoStronger-refl q x)
      least y (suc i, h) = absurd cc
  weakest_from-IsWeakest q x (y ∷ ys) =
      let (which, to_x, to_y) = smaller_lem q x y in
      let (place, least) = weakest_from-IsWeakest q (smaller q x y) ys in
      let below = least (smaller q x y) (0, refl) in
      (place_of which place, least_of to_x to_y least (least _ (0, refl)))
    where
      place_of :
          (smaller q x y ≡ x ⊎ smaller q x y ≡ y)
          → IsListed (weakest_from q (smaller q x y) ys) (smaller q x y ∷ ys)
          → IsListed (weakest_from q (smaller q x y) ys) (x ∷ y ∷ ys)
      place_of which (suc i, h) = (suc (suc i), h)
      place_of (inl e) (zero, h) = (0, cc)
      place_of (inr e) (zero, h) = (1, cc)

      least_of :
          IsNoStronger q (smaller q x y) x
          → IsNoStronger q (smaller q x y) y
          → ((z : p.BeliefId)
              → IsListed z (smaller q x y ∷ ys)
              → IsNoStronger q (weakest_from q (smaller q x y) ys) z)
          → IsNoStronger q (weakest_from q (smaller q x y) ys) (smaller q x y)
          → (z : p.BeliefId) → IsListed z (x ∷ y ∷ ys)
          → IsNoStronger q (weakest_from q (smaller q x y) ys) z
      least_of to_x to_y least below z (zero, h) =
          let e : x ≡ z = cc in rw (sym e) (IsNoStronger-trans q _ _ _ below to_x)
      least_of to_x to_y least below z (suc zero, h) =
          let e : y ≡ z = cc in rw (sym e) (IsNoStronger-trans q _ _ _ below to_y)
      least_of to_x to_y least below z (suc (suc i), h) = least z (suc i, h)

  collect_weakest-adds :
      (q : Core) (x : p.BeliefId) (xs : List p.BeliefId) (paths : List (List p.BeliefId))
      → IsListed (weakest_from q x xs) (collect_weakest q ((x ∷ xs) ∷ paths))
  unfolding collect_weakest
  collect_weakest-adds q x xs paths =
      let w = weakest_from q x xs in
      let rest = collect_weakest q paths in
      elim (Bool-cases (any (λ i. p.belief_id_eq.beq i w) rest)) [
        | inl t ↦ rw t ((any_iff-IsListed w rest).0 t)
        | inr f ↦ rw f (0, refl)
      ]

  collect_weakest-keeps :
      (q : Core) (path : List p.BeliefId) (paths : List (List p.BeliefId)) {w : p.BeliefId}
      → IsListed w (collect_weakest q paths)
      → IsListed w (collect_weakest q (path ∷ paths))
  unfolding collect_weakest
  collect_weakest-keeps q [] paths listed = listed
  collect_weakest-keeps q (x ∷ xs) paths (i, h) =
      let w = weakest_from q x xs in
      let rest = collect_weakest q paths in
      elim (Bool-cases (any (λ i. p.belief_id_eq.beq i w) rest)) [
        | inl t ↦ rw t (i, h)
        | inr f ↦ rw f (suc i, h)
      ]

  collect_weakest-hits :
      (q : Core) (paths : List (List p.BeliefId)) {x : p.BeliefId} {xs : List p.BeliefId}
      → IsListed (x ∷ xs) paths
      → IsListed (weakest_from q x xs) (collect_weakest q paths)
  collect_weakest-hits q [] (i, h) = absurd cc
  collect_weakest-hits q (path ∷ paths) {x} {xs} (zero, h) =
      let e : x ∷ xs ≡ path = cc in
      subst (λ r. IsListed (weakest_from q x xs) (collect_weakest q (r ∷ paths))) e
        (collect_weakest-adds q x xs paths)
  collect_weakest-hits q (path ∷ paths) (suc i, h) =
      collect_weakest-keeps q path paths (collect_weakest-hits q paths (i, h))

  -- For every edge of support of a belief that has a premise, the set to contract holds a premise of
  -- that edge of which no other premise of the edge has a lower confidence.
  pub minimal_contraction_set-hits :
      (q : Core) (belief_id : p.BeliefId) {x : p.BeliefId} {xs : List p.BeliefId}
      → IsListed (x ∷ xs) (inferred_from_premises q.causal belief_id)
      → (w : p.BeliefId) × (IsListed w (minimal_contraction_set q belief_id))
        × (IsWeakest q (x ∷ xs) w)
  unfolding minimal_contraction_set
  minimal_contraction_set-hits q belief_id {x} {xs} h =
      (weakest_from q x xs, collect_weakest-hits q _ h, weakest_from-IsWeakest q x xs)

  IsListed-in_either :
      (kept : Bool) (w v : p.BeliefId) (rest : List p.BeliefId)
      → IsListed w (if kept then rest else v ∷ rest)
      → w ≡ v ⊎ IsListed w rest
  IsListed-in_either true w v rest h = inr h
  IsListed-in_either false w v rest (zero, h) = inl cc
  IsListed-in_either false w v rest (suc i, h) = inr (i, h)

  collect_weakest-from :
      (q : Core) (paths : List (List p.BeliefId)) {w : p.BeliefId}
      → IsListed w (collect_weakest q paths)
      → (path : List p.BeliefId) × (IsListed path paths) × (IsWeakest q path w)
  unfolding collect_weakest
  collect_weakest-from q [] (i, h) = absurd cc
  collect_weakest-from q ([] ∷ paths) h =
      let (r, (i, at), least) = collect_weakest-from q paths h in (r, (suc i, at), least)
  collect_weakest-from q ((x ∷ xs) ∷ paths) {w} h = elim (IsListed-in_either _ w _ _ h) [
    | inl e ↦ (x ∷ xs, (0, refl), rw e (weakest_from-IsWeakest q x xs))
    | inr k ↦ let (r, (i, at), least) = collect_weakest-from q paths k in (r, (suc i, at), least)
  ]

  -- The set to contract holds nothing but premises of the edges that support the belief, each of
  -- them one of lowest confidence on its edge.
  pub minimal_contraction_set-from :
      (q : Core) (belief_id : p.BeliefId) {w : p.BeliefId}
      → IsListed w (minimal_contraction_set q belief_id)
      → (path : List p.BeliefId) × (IsListed path (inferred_from_premises q.causal belief_id))
        × (IsWeakest q path w)
  unfolding minimal_contraction_set
  minimal_contraction_set-from q belief_id h = collect_weakest-from q _ h
