-- ===== src/Quad/Difference.antt =====
-- crates/epica-core/src/diff/mod.rs and checkpoint/ops.rs: what the comparison of two quads finds, and
-- when it lets a rollback happen.
use epica.Prelude.{
  string_eq, nat_eq, list_eq, Bool-cases, Option-cases, some_inj, List-cases, ℕ, String, ◌≡◌, refl,
  ap, subst, ◌↔◌, ◌⊎◌, inl, inr, Bool, true, false, not, ◌||◌, Option, none, some, [], ◌∷◌, ok, err,
}
use epica.Quad.Platform.{Platform, SlotMap, Petgraph}
use epica.Quad.Value.{BeliefNode, BeliefValue, deterministic, inferred, asserted, reference}
use epica.Quad.HashMap.{EachEntry, each-get, get-each, HashMap, hash_get, Distinct}
use epica.Quad.Store.{Core}
use epica.Quad.Diff.{
  diff, BeliefQuadDiff, has_contradictions, by_key, by_key-Distinct, missing_from, modified_from,
  has_key, same_value, same_value_refl,
}
use epica.Quad.Checkpoint.{
  BeliefQuad, BeliefQuadCheckpoint, rollback_to, find_checkpoint, checkpoint_not_found,
  unnecessary_contraction,
}

module _ ⦃p : Platform⦄ where
  -- Two beliefs under one key, or none on either side, with the same value and a confidence that did
  -- not move.
  abbrev pub SameBelief : Option BeliefNode → Option BeliefNode → Type 0
  SameBelief none none = Unit
  SameBelief none (some old) = ⊥
  SameBelief (some new) none = ⊥
  SameBelief (some new) (some old) =
      (new.value ≡ old.value) × (p.moved new.fast_confidence old.fast_confidence ≡ false)

  same_value-eq : (v w : BeliefValue) → same_value v w ≡ true → v ≡ w
  unfolding same_value
  same_value-eq (deterministic a) (deterministic b) h =
      ap deterministic ((p.json_eq.beq_iff a b).0 h)
  same_value-eq (deterministic a) (inferred b) h = absurd cc
  same_value-eq (deterministic a) (asserted b) h = absurd cc
  same_value-eq (deterministic a) (reference b) h = absurd cc
  same_value-eq (inferred a) (deterministic b) h = absurd cc
  same_value-eq (inferred a) (inferred b) h = ap inferred ((p.json_eq.beq_iff a b).0 h)
  same_value-eq (inferred a) (asserted b) h = absurd cc
  same_value-eq (inferred a) (reference b) h = absurd cc
  same_value-eq (asserted a) (deterministic b) h = absurd cc
  same_value-eq (asserted a) (inferred b) h = absurd cc
  same_value-eq (asserted a) (asserted b) h = ap asserted ((string_eq.beq_iff a b).0 h)
  same_value-eq (asserted a) (reference b) h = absurd cc
  same_value-eq (reference a) (deterministic b) h = absurd cc
  same_value-eq (reference a) (inferred b) h = absurd cc
  same_value-eq (reference a) (asserted b) h = absurd cc
  same_value-eq (reference a) (reference b) h = ap reference ((p.belief_id_eq.beq_iff a b).0 h)

  missing-each :
      (o m : HashMap String BeliefNode) (version : ℕ)
      → (missing_from o version m ≡ []) ↔ EachEntry (λ k n. has_key o k ≡ true) m
  unfolding missing_from EachEntry
  missing-each o [] version = (λ h. tt, λ h. refl)
  missing-each o ((k, n) ∷ m) version =
      let ih = missing-each o m version in
      elim (Bool-cases (has_key o k)) [
        | inl t ↦ rw t (λ h. (refl, ih.0 h), λ h. ih.1 h.1)
        | inr f ↦ rw f (λ h. absurd cc, λ h. absurd cc)
      ]

  abbrev differs : BeliefNode → BeliefNode → Bool
  differs new old =
      not (same_value new.value old.value) || p.moved new.fast_confidence old.fast_confidence

  differs_iff :
      (new old : BeliefNode) → (differs new old ≡ false) ↔ SameBelief (some new) (some old)
  differs_iff new old = elim (Bool-cases (same_value new.value old.value)) [
    | inl t ↦ rw t (λ h. (same_value-eq new.value old.value t, h), λ h. h.1)
    | inr f ↦ rw f (
      λ h. absurd cc,
      λ h.
          absurd
            (cc (f, subst (λ v. same_value new.value v ≡ true) h.0 (same_value_refl new.value))),
    )
  ]

  Unmodified : HashMap String BeliefNode → String → BeliefNode → Type 0
  Unmodified o k n = (old : BeliefNode) → hash_get o k ≡ some old → SameBelief (some n) (some old)

  modified-each :
      (o m : HashMap String BeliefNode) → (modified_from o m ≡ []) ↔ EachEntry (Unmodified o) m
  unfolding modified_from EachEntry Unmodified
  modified-each o [] = (λ h. tt, λ h. refl)
  modified-each o ((k, n) ∷ m) =
      let ih = modified-each o m in
      elim (Option-cases (hash_get o k)) [
        | inl e ↦ rw (e, modified_from) (λ h. (λ old q. absurd cc, ih.0 h), λ h. ih.1 h.1)
        | inr (old, e) ↦ elim (Bool-cases (differs n old)) [
          | inl t ↦
              rw (e, modified_from, t)
                (λ h. absurd cc, λ h. absurd (cc (t, (differs_iff n old).1 (h.0 old refl))))
          | inr f ↦
              rw (e, modified_from, f)
                (
                  λ h. (
                    λ x q.
                        subst (λ y. SameBelief (some n) (some y)) (some_inj q)
                          ((differs_iff n old).0 f),
                    ih.0 h,
                  ),
                  λ h. ih.1 h.1,
                )
        ]
      ]

  no_changes :
      (d : BeliefQuadDiff)
      → (has_contradictions d ≡ false) ↔ ((d.added ≡ []) × (d.modified ≡ []) × (d.removed ≡ []))
  unfolding has_contradictions
  no_changes d = elim (List-cases d.added) [
    | inr (x, xs, e) ↦ rw e (λ h. absurd cc, λ h. absurd cc)
    | inl e ↦ elim (List-cases d.modified) [
      | inr (x, xs, f) ↦ rw (e, f) (λ h. absurd cc, λ h. absurd cc)
      | inl f ↦ elim (List-cases d.removed) [
        | inr (x, xs, g) ↦ rw (e, f, g) (λ h. absurd cc, λ h. absurd cc)
        | inl g ↦ rw (e, f, g) (λ h. (refl, refl, refl), λ h. refl)
      ]
    ]
  ]

module _ ⦃p : Platform⦄ ⦃sm : SlotMap p.BeliefId⦄ ⦃pg : Petgraph p.BeliefId⦄ where
  -- The belief that a quad has under a key: the last, if there are several.
  abbrev pub belief_at : Core → String → Option BeliefNode
  belief_at q key = hash_get (by_key [] (sm.iter q.nodes)) key

  abbrev pub SameBeliefs : Core → Core → Type 0
  SameBeliefs q r = (key : String) → SameBelief (belief_at q key) (belief_at r key)

  Same-entries :
      (m o : HashMap String BeliefNode)
      → Distinct m
      → Distinct o
      → (EachEntry (λ k n. has_key o k ≡ true) m
          × EachEntry (Unmodified o) m
          × EachEntry (λ k n. has_key m k ≡ true) o)
        ↔ ((k : String) → SameBelief (hash_get m k) (hash_get o k))
  unfolding has_key Unmodified
  Same-entries m o d e = (to, from)
    where
      to :
          EachEntry (λ k n. has_key o k ≡ true) m
            × EachEntry (Unmodified o) m
            × EachEntry (λ k n. has_key m k ≡ true) o
          → (k : String) → SameBelief (hash_get m k) (hash_get o k)
      to (a, b, c) k = elim (Option-cases (hash_get m k)) [
        | inl g ↦ elim (Option-cases (hash_get o k)) [
          | inl h ↦ rw (g, h) tt
          | inr (x, h) ↦ absurd (cc (rw (g, has_key) at (each-get _ o k c h)))
        ]
        | inr (n, g) ↦ elim (Option-cases (hash_get o k)) [
          | inl h ↦ absurd (cc (rw (h, has_key) at (each-get _ m k a g)))
          | inr (x, h) ↦ rw (g, h) (each-get (Unmodified o) m k b g x h)
        ]
      ]

      from :
          ((k : String) → SameBelief (hash_get m k) (hash_get o k))
          → EachEntry (λ k n. has_key o k ≡ true) m
            × EachEntry (Unmodified o) m
            × EachEntry (λ k n. has_key m k ≡ true) o
      from s = (
        get-each _ m d (λ k n g. elim (Option-cases (hash_get o k)) [
          | inl h ↦ absurd (rw (g, h) at (s k))
          | inr (x, h) ↦ rw (h, has_key) refl
        ]),
        get-each (Unmodified o) m d (λ k n g x h. rw (g, h) at (s k)),
        get-each _ o e (λ k n g. elim (Option-cases (hash_get m k)) [
          | inl h ↦ absurd (rw (g, h) at (s k))
          | inr (x, h) ↦ rw (h, has_key) refl
        ]),
      )

  has_contradictions_iff : (q r : Core) → (has_contradictions (diff q r) ≡ false) ↔ SameBeliefs q r
  unfolding diff Distinct
  has_contradictions_iff q r =
      let m = by_key [] (sm.iter q.nodes) in
      let o = by_key [] (sm.iter r.nodes) in
      let d : Distinct m = by_key-Distinct [] (sm.iter q.nodes) tt in
      let e : Distinct o = by_key-Distinct [] (sm.iter r.nodes) tt in
      let none_iff = no_changes (diff q r) in
      let added = missing-each o m q.version in
      let removed = missing-each m o r.version in
      let changed = modified-each o m in
      let all = Same-entries m o d e in
      (
        λ h. let (a, b, c) = none_iff.0 h in all.0 (added.0 a, changed.0 b, removed.0 c),
        λ s. let (a, b, c) = all.1 s in none_iff.1 (added.1 a, changed.1 b, removed.1 c),
      )

  -- A rollback to a stored checkpoint restores its quad, reports the difference and leaves no
  -- checkpoint, unless the quad and the checkpoint have the same beliefs: under every key none, or
  -- two with the same value and a confidence that did not move. A rollback to such a checkpoint, or
  -- to one that is not stored, is refused and changes nothing.
  pub rollback_to_lem :
      (q : BeliefQuad) (id : p.Uuid)
      → ((cp : BeliefQuadCheckpoint) × (find_checkpoint q.checkpoints id ≡ some cp)
          × (¬ SameBeliefs q.core cp.quad)
          × (rollback_to q id
              ≡ (record { core = cp.quad; checkpoints = [] }, ok (diff q.core cp.quad))))
        ⊎ ((cp : BeliefQuadCheckpoint) × (find_checkpoint q.checkpoints id ≡ some cp)
            × SameBeliefs q.core cp.quad
            × (rollback_to q id ≡ (q, err (unnecessary_contraction (diff q.core cp.quad)))))
        ⊎ ((find_checkpoint q.checkpoints id ≡ none)
            × (rollback_to q id ≡ (q, err (checkpoint_not_found id))))
  unfolding rollback_to
  rollback_to_lem q id = elim (Option-cases (find_checkpoint q.checkpoints id)) [
    | inl n ↦ inr (inr (n, rw (n, rollback_to) refl))
    | inr (cp, f) ↦
        let same = has_contradictions_iff q.core cp.quad in
        elim (Bool-cases (has_contradictions (diff q.core cp.quad))) [
          | inl t ↦ inl (cp, f, λ s. cc (t, same.1 s), rw (f, rollback_to, t) refl)
          | inr u ↦ inr (inl (cp, f, same.0 u, rw (f, rollback_to, u) refl))
        ]
  ]
