-- ===== src/Quad/Postulates.antt =====
-- crates/epica-core/src/revision/agm.rs: what a revision guarantees of the quad it leaves.
use epica.Quad.Value.{BeliefNode}
use epica.Quad.Synchronized.{
  IsSynchronized, is_live, remove-IsSynchronized, modify-IsSynchronized, get-remove_other,
  get-remove_same,
}
use epica.Quad.Revision.{
  expand, revise, expand_only, bump, apply_contraction, Revision, contract_and_expand,
  minimal_contraction_set, record_of, belief_not_found, postulate_violation, failed_postulate_name,
  all_critical_pass, BeliefRevisionError, PostulateAudit, RevisionRecord, rewrite, audit_of,
  belief_not_found, all_critical_pass, postulate_violation, failed_postulate_name,
}
use epica.Prelude.{
  string_eq, nat_eq, ne_of_test, list_eq, Bool-cases, Option-cases, some_inj, get_elem?, IsListed,
  ok_inj, zero, suc, ◌≡◌, refl, sym, ap, ◌∙◌, subst, ◌≢◌, ◌⊎◌, inl, inr, Bool, true, false, none,
  some, List, [], ◌∷◌, ok, err,
}
use epica.Quad.Platform.{id_eq, Platform, SlotMap, Petgraph}
use epica.Quad.Store.{Core, get, remove, modify, check_contradiction_traced}

module _ ⦃p : Platform⦄ ⦃sm : SlotMap p.BeliefId⦄ ⦃pg : Petgraph p.BeliefId⦄ where
  apply_contraction-IsSynchronized :
      (q : Core) (ids : List p.BeliefId)
      → IsSynchronized q
      → IsSynchronized (apply_contraction q ids)
  unfolding apply_contraction
  apply_contraction-IsSynchronized q [] s = s
  apply_contraction-IsSynchronized q (id ∷ ids) s =
      apply_contraction-IsSynchronized (remove q id).0 ids (remove-IsSynchronized q id s)

  bump-IsSynchronized : (q : Core) (id : p.BeliefId) → IsSynchronized q → IsSynchronized (bump q id)
  unfolding bump is_live
  bump-IsSynchronized q id s = record {
    semantic = s.semantic;
    temporal = s.temporal;
    causal = s.causal;
    entity = s.entity;
  }

  expand-IsSynchronized :
      (q : Core) (r : Revision) (reset : Bool) (cs : List p.BeliefId) (a : PostulateAudit)
      → IsSynchronized q
      → IsSynchronized (expand q r reset cs a).0
  unfolding expand
  expand-IsSynchronized q r reset cs a s = elim (Option-cases (get q r.belief_id)) [
    | inl n ↦ rw (n, expand) s
    | inr (node, h) ↦
        rw (h, expand)
          (bump-IsSynchronized _ r.belief_id
            (modify-IsSynchronized q r.belief_id (rewrite reset r) s))
  ]

  -- The ways a revision goes on after its checks.
  pub revise-cases :
      (q : Core) (r : Revision)
      → ((e : BeliefRevisionError) × (revise q r ≡ (q, err e)))
        ⊎ ((a : PostulateAudit) × (revise q r ≡ expand_only q r a)
            × ((check_contradiction_traced q r.belief_id r.new_value).0 ≡ false))
        ⊎ ((a : PostulateAudit) × (revise q r ≡ contract_and_expand q r a)
            × ((check_contradiction_traced q r.belief_id r.new_value).0 ≡ true))
  unfolding revise
  revise-cases q r =
      let c = check_contradiction_traced q r.belief_id r.new_value in
      let a = audit_of q r.belief_id r.new_value c.0 c.1 in
      elim (Option-cases (get q r.belief_id)) [
        | inl n ↦ inl (belief_not_found, rw (n, revise) refl)
        | inr (node, h) ↦ elim (Bool-cases (all_critical_pass a)) [
          | inr f ↦ inl (postulate_violation (failed_postulate_name a), rw (h, f, revise) refl)
          | inl t ↦ elim (Bool-cases c.0) [
            | inl y ↦ inr (inr (a, rw (h, t, y, revise) refl, y))
            | inr n ↦ inr (inl (a, rw (h, t, n, revise) refl, n))
          ]
        ]
      ]

  -- A revision, accepted or not, of a quad whose four graphs have a node for exactly the live
  -- beliefs leaves such a quad.
  pub revise-IsSynchronized :
      (q : Core) (r : Revision) → IsSynchronized q → IsSynchronized (revise q r).0
  unfolding expand_only contract_and_expand
  revise-IsSynchronized q r s = elim (revise-cases q r) [
    | inl (e, h) ↦ rw h s
    | inr (inl (a, h, _)) ↦ rw h (expand-IsSynchronized q r false [] a s)
    | inr (inr (a, h, _)) ↦ rw h (
        expand-IsSynchronized _ r true _ a
          (apply_contraction-IsSynchronized q (minimal_contraction_set q r.belief_id) s))
  ]

  apply_contraction-get_other :
      (q : Core) (ids : List p.BeliefId) (j : p.BeliefId)
      → ¬ IsListed j ids
      → get (apply_contraction q ids) j ≡ get q j
  unfolding apply_contraction
  apply_contraction-get_other q [] j h = refl
  apply_contraction-get_other q (id ∷ ids) j h =
      apply_contraction-get_other (remove q id).0 ids j (λ (i, l). h (suc i, l))
      ∙ get-remove_other q id j (λ e. h (0, ap some e))

  pub expand-get :
      (q : Core) (r : Revision) (reset : Bool) (cs : List p.BeliefId) (a : PostulateAudit)
      {rec : RevisionRecord}
      → (expand q r reset cs a).1 ≡ ok rec
      → (n : BeliefNode) × (get q r.belief_id ≡ some n)
        × (get (expand q r reset cs a).0 r.belief_id ≡ some (rewrite reset r n))
        × ((j : p.BeliefId) → r.belief_id ≢ j → get (expand q r reset cs a).0 j ≡ get q j)
        × (rec.contracted ≡ cs)
  unfolding expand bump modify get
  expand-get q r reset cs a h = elim (Option-cases (get q r.belief_id)) [
    | inl n ↦
        let e : (expand q r reset cs a).1 ≡ err belief_not_found = rw (n, expand) refl in
        absurd (cc (h, e))
    | inr (node, g) ↦
        let q' = bump (modify q r.belief_id (rewrite reset r)) r.belief_id in
        let e : (expand q r reset cs a).0 ≡ q' = rw (g, expand) refl in
        let f : (expand q r reset cs a).1 ≡ ok (record_of q q' node r cs a) = rw (g, expand) refl in
        (
          node,
          g,
          ap (λ x. get x r.belief_id) e
              ∙ sm.get-update_same q.nodes r.belief_id (rewrite reset r) g,
          λ j ne.
              ap (λ x. get x j) e ∙ sm.get-update_other q.nodes r.belief_id j (rewrite reset r) ne,
          ap (λ x. x.contracted) (ok_inj (sym h ∙ f)),
        )
  ]

  -- The outcome of an accepted revision, up to the writes to the node.
  record Accepted (q : Core) (r : Revision) (q' : Core) (rec : RevisionRecord) : Type 0 where
    pub success :
        (n : BeliefNode) × (get q' r.belief_id ≡ some n)
        × (n.value ≡ r.new_value)
        × (n.provenance ≡ r.new_provenance)
        × (n.fast_confidence ≡ p.clamp_unit r.new_confidence)
    pub kept : (j : p.BeliefId) → r.belief_id ≢ j → ¬ IsListed j rec.contracted → get q' j ≡ get q j
    pub gone : (j : p.BeliefId) → r.belief_id ≢ j → IsListed j rec.contracted → get q' j ≡ none

  get-remove_gone : (q : Core) (k j : p.BeliefId) → get q j ≡ none → get (remove q k).0 j ≡ none
  unfolding remove get
  get-remove_gone q k j h = elim (Bool-cases (p.belief_id_eq.beq k j)) [
    | inl t ↦
        subst (λ i. get (remove q k).0 i ≡ none) ((p.belief_id_eq.beq_iff k j).0 t)
          (get-remove_same q k)
    | inr f ↦ get-remove_other q k j (ne_of_test k j f) ∙ h
  ]

  apply_contraction-gone :
      (q : Core) (ids : List p.BeliefId) (j : p.BeliefId)
      → get q j ≡ none
      → get (apply_contraction q ids) j ≡ none
  unfolding apply_contraction
  apply_contraction-gone q [] j h = h
  apply_contraction-gone q (id ∷ ids) j h =
      apply_contraction-gone (remove q id).0 ids j (get-remove_gone q id j h)

  apply_contraction-listed :
      (q : Core) (ids : List p.BeliefId) (j : p.BeliefId)
      → IsListed j ids
      → get (apply_contraction q ids) j ≡ none
  unfolding apply_contraction
  apply_contraction-listed q [] j (i, l) = absurd cc
  apply_contraction-listed q (id ∷ ids) j (zero, l) =
      apply_contraction-gone (remove q id).0 ids j
        (subst (λ k. get (remove q id).0 k ≡ none) (some_inj l) (get-remove_same q id))
  apply_contraction-listed q (id ∷ ids) j (suc i, l) =
      apply_contraction-listed (remove q id).0 ids j (i, l)

  revise-Accepted :
      (q : Core) (r : Revision) {rec : RevisionRecord}
      → (revise q r).1 ≡ ok rec
      → Accepted q r (revise q r).0 rec
  unfolding expand_only contract_and_expand rewrite
  revise-Accepted q r {rec} h = elim (revise-cases q r) [
    | inl (e, c) ↦ absurd (cc (h, ap (λ x. x.1) c))
    | inr (inl (a, c, agrees)) ↦
        let (n, old, new, others, cs) = expand-get q r false [] a (sym (ap (λ x. x.1) c) ∙ h) in
        let to = ap (λ x. x.0) c in
        record {
          success = (rewrite false r n, ap (λ x. get x r.belief_id) to ∙ new, refl, refl, refl);
          kept = λ j ne l. ap (λ x. get x j) to ∙ others j ne;
          gone = λ j ne (i, l). absurd (cc (l, ap (λ x. get_elem? x i) cs));
        }
    | inr (inr (a, c, contra)) ↦
        let ids = minimal_contraction_set q r.belief_id in
        let (n, old, new, others, cs) =
          expand-get (apply_contraction q ids) r true ids a (sym (ap (λ x. x.1) c) ∙ h) in
        let to = ap (λ x. x.0) c in
        record {
          success = (rewrite true r n, ap (λ x. get x r.belief_id) to ∙ new, refl, refl, refl);
          kept = λ j ne l.
              ap (λ x. get x j) to
              ∙ others j ne
              ∙ apply_contraction-get_other q ids j (subst (λ x. ¬ IsListed j x) cs l);
          gone = λ j ne l.
              ap (λ x. get x j) to
              ∙ others j ne
              ∙ apply_contraction-listed q ids j (subst (IsListed j) cs l);
        }
  ]

  -- After a revision that is accepted the belief holds the new value and the new provenance, and the
  -- new confidence clamped to the unit interval.
  pub revise-success :
      (q : Core) (r : Revision) {rec : RevisionRecord}
      → (revise q r).1 ≡ ok rec
      → (n : BeliefNode) × (get (revise q r).0 r.belief_id ≡ some n)
        × (n.value ≡ r.new_value)
        × (n.provenance ≡ r.new_provenance)
        × (n.fast_confidence ≡ p.clamp_unit r.new_confidence)
  revise-success q r h = (revise-Accepted q r h).success

  -- After a revision that is accepted every belief other than the revised one that is not in the
  -- record's contracted set is what it was before.
  pub revise-kept :
      (q : Core) (r : Revision) (j : p.BeliefId) {rec : RevisionRecord}
      → (revise q r).1 ≡ ok rec
      → r.belief_id ≢ j
      → ¬ IsListed j rec.contracted
      → get (revise q r).0 j ≡ get q j
  revise-kept q r j h = (revise-Accepted q r h).kept j

  -- After a revision that is accepted every belief of the record's contracted set other than the
  -- revised one is absent from the quad.
  pub revise-gone :
      (q : Core) (r : Revision) (j : p.BeliefId) {rec : RevisionRecord}
      → (revise q r).1 ≡ ok rec
      → r.belief_id ≢ j
      → IsListed j rec.contracted
      → get (revise q r).0 j ≡ none
  revise-gone q r j h = (revise-Accepted q r h).gone j
