-- ===== src/Quad/Counterfactual.antt =====
-- crates/epica-core/src/counterfactual/mod.rs: the quad without a belief and what descends from it.
use epica.Prelude.{
  if◌then◌else◌, string_eq, nat_eq, ◌==◌, list_eq, Bool-cases, some_inj, length, get_elem?,
  IsListed, ℕ, zero, suc, ◌+◌, ◌-◌, ◌%◌, ◌^◌, ◌≡◌, refl, sym, ap, ◌∙◌, subst, ◌↔◌, inl, inr, false,
  some, List, [], ◌∷◌,
}
use epica.Quad.Platform.{Platform, SlotMap, Petgraph, id_eq}
use epica.Quad.Value.{BeliefNode}
use epica.Quad.Store.{Core, descendants_of}
use epica.Quad.Store
use epica.Quad.System1.{is_visited}

pub record CounterfactualWorld ⦃p : Platform⦄ ⦃sm : SlotMap p.BeliefId⦄ ⦃pg : Petgraph p.BeliefId⦄
    : Type 0 where
  pub antecedent : p.BeliefId
  pub excluded : List p.BeliefId
  pub quad : Core

module _ ⦃p : Platform⦄ ⦃sm : SlotMap p.BeliefId⦄ ⦃pg : Petgraph p.BeliefId⦄ where
  unfoldable pub counterfactual_query : Core → p.BeliefId → CounterfactualWorld
  counterfactual_query q antecedent = record {
    antecedent = antecedent;
    excluded =
        let descendants = descendants_of q.causal antecedent in
        if is_visited descendants antecedent then descendants else antecedent ∷ descendants;
    quad = q;
  }

  unfoldable pub not_excluded :
      List p.BeliefId → List (p.BeliefId × BeliefNode) → List (p.BeliefId × BeliefNode)
  not_excluded excluded [] = []
  not_excluded excluded ((id, n) ∷ ns) =
      let rest = not_excluded excluded ns in if is_visited excluded id then rest else (id, n) ∷ rest

  unfoldable pub surviving_beliefs : CounterfactualWorld → List (p.BeliefId × BeliefNode)
  surviving_beliefs w = not_excluded w.excluded (sm.iter w.quad.nodes)

  -- `usize` subtraction, as it wraps in a release build.
  unfoldable pub surviving_count : CounterfactualWorld → ℕ
  surviving_count w = (Store.len w.quad + 2 ^ 64 - length w.excluded) % 2 ^ 64

  not_excluded_iff :
      (excluded : List p.BeliefId) (ns : List (p.BeliefId × BeliefNode)) (id : p.BeliefId)
      (n : BeliefNode)
      → IsListed {A = p.BeliefId × BeliefNode} (id, n) (not_excluded excluded ns)
        ↔ ((is_visited excluded id ≡ false) × IsListed {A = p.BeliefId × BeliefNode} (id, n) ns)
  unfolding not_excluded
  not_excluded_iff excluded ns id n = (to ns, λ h. from ns h.0 h.1.0 h.1.1)
    where
      first :
          (j : p.BeliefId) (m : BeliefNode) (ns : List (p.BeliefId × BeliefNode)) (i : ℕ)
          → is_visited excluded j ≡ false
          → ((k : ℕ)
              → get_elem? (not_excluded excluded ns) k ≡ some (id, n)
              → (is_visited excluded id ≡ false)
                × IsListed {A = p.BeliefId × BeliefNode} (id, n) ns)
          → get_elem? ((j, m) ∷ not_excluded excluded ns) i ≡ some (id, n)
          → (is_visited excluded id ≡ false)
            × IsListed {A = p.BeliefId × BeliefNode} (id, n) ((j, m) ∷ ns)
      first j m ns zero f later h =
          let e : j ≡ id = ap (λ x. x.0) (some_inj h) in (rw⁻¹ e f, (0, ap some (some_inj h)))
      first j m ns (suc i) f later h = let (g, (k, at)) = later i h in (g, (suc k, at))

      to :
          (ns : List (p.BeliefId × BeliefNode))
          → IsListed {A = p.BeliefId × BeliefNode} (id, n) (not_excluded excluded ns)
          → (is_visited excluded id ≡ false) × IsListed {A = p.BeliefId × BeliefNode} (id, n) ns
      to [] (i, h) = absurd cc
      to ((j, m) ∷ ns) (i, h) = elim (Bool-cases (is_visited excluded j)) [
        | inl t ↦ let (f, (k, at)) = to ns (i, rw t at h) in (f, (suc k, at))
        | inr f ↦ first j m ns i f (λ k at. to ns (k, at)) (rw f at h)
      ]

      from :
          (ns : List (p.BeliefId × BeliefNode))
          → is_visited excluded id ≡ false
          → (i : ℕ) → get_elem? ns i ≡ some (id, n)
          → IsListed {A = p.BeliefId × BeliefNode} (id, n) (not_excluded excluded ns)
      from [] f i h = absurd cc
      from ((j, m) ∷ ns) f zero h =
          let e : j ≡ id = ap (λ x. x.0) (some_inj h) in
          let g : is_visited excluded j ≡ false = rw e f in rw g (0, h)
      from ((j, m) ∷ ns) f (suc i) h =
          let (k, at) = from ns f i h in
          elim (Bool-cases (is_visited excluded j)) [
            | inl t ↦ rw t (k, at)
            | inr g ↦ rw g (suc k, at)
          ]

  -- Entering a belief that is among the others changes nothing.
  is_visited-entered :
      (ids : List p.BeliefId) (a x : p.BeliefId)
      → is_visited (if is_visited ids a then ids else a ∷ ids) x ≡ is_visited (a ∷ ids) x
  is_visited-entered ids a x = elim (Bool-cases (is_visited ids a)) [
    | inr f ↦ rw f refl
    | inl t ↦ elim (Bool-cases (a == x)) [
      | inr other ↦ rw (t, other) refl
      | inl same ↦
          let e : a ≡ x = (p.belief_id_eq.beq_iff a x).0 same in
          rw (t, same) (ap (is_visited ids) (sym e) ∙ t)
    ]
  ]

  -- The beliefs that survive are those of the quad but for the antecedent and its descendants.
  surviving_beliefs_iff :
      (q : Core) (antecedent id : p.BeliefId) (n : BeliefNode)
      → IsListed {A = p.BeliefId × BeliefNode}
          (id, n)
          (surviving_beliefs (counterfactual_query q antecedent))
        ↔ ((is_visited (antecedent ∷ descendants_of q.causal antecedent) id ≡ false)
            × IsListed {A = p.BeliefId × BeliefNode} (id, n) (sm.iter q.nodes))
  unfolding surviving_beliefs counterfactual_query
  surviving_beliefs_iff q antecedent id n =
      subst
        (λ b.
          IsListed {A = p.BeliefId × BeliefNode} (id, n)
            (surviving_beliefs (counterfactual_query q antecedent))
          ↔ ((b ≡ false) × IsListed {A = p.BeliefId × BeliefNode} (id, n) (sm.iter q.nodes)))
        (is_visited-entered (descendants_of q.causal antecedent) antecedent id)
        (not_excluded_iff _ (sm.iter q.nodes) id n)
