-- ===== src/Quad/Reassertion.antt =====
-- crates/epica-core/src/revision/agm.rs: a revision by the value that the belief has already.
use epica.Prelude.{
  if◌then◌else◌, string_eq, nat_eq, ◌==◌, ne_of_test, list_eq, Bool-cases, some_inj, ◌≡◌, refl, sym,
  ap, ◌∙◌, subst, inl, inr, false, some, [], ok,
}
use epica.Quad.Platform.{Platform, SlotMap, Petgraph, id_eq}
use epica.Quad.Value.{
  BeliefNode, BeliefValue, deterministic, inferred, asserted, reference, value_contradicts,
  value_contradicts_semantic,
}
use epica.Quad.Store.{Core, get, check_contradiction_traced, has_contradiction_edges}
use epica.Quad.Revision.{Revision, RevisionRecord, revise, rewrite, expand_only}
use epica.Quad.Postulates.{revise-cases, expand-get}

module _ ⦃p : Platform⦄ where
  value_contradicts_irrefl : (v : BeliefValue) → value_contradicts v v ≡ false
  unfolding value_contradicts
  value_contradicts_irrefl (deterministic a) = rw ((p.json_eq.beq_iff a a).1 refl) refl
  value_contradicts_irrefl (inferred a) = rw ((p.json_eq.beq_iff a a).1 refl) refl
  value_contradicts_irrefl (asserted a) =
      rw ((string_eq.beq_iff (p.normalize a) (p.normalize a)).1 refl) refl
  value_contradicts_irrefl (reference a) = rw ((p.belief_id_eq.beq_iff a a).1 refl) refl

module _ ⦃p : Platform⦄ ⦃sm : SlotMap p.BeliefId⦄ ⦃pg : Petgraph p.BeliefId⦄ where
  unopposed :
      (q : Core) (id : p.BeliefId) (v : BeliefValue) (n : BeliefNode)
      → get q id ≡ some n
      → n.value ≡ v
      → has_contradiction_edges q.semantic id ≡ false
      → (check_contradiction_traced q id v).0 ≡ false
  unfolding get check_contradiction_traced value_contradicts_semantic
  unopposed q id v n g same edges =
      let agree : value_contradicts n.value v ≡ false =
        subst (λ w. value_contradicts n.value w ≡ false) same (value_contradicts_irrefl n.value) in
      rw (g, check_contradiction_traced, agree, edges) refl

  -- The belief restated, with its source and its confidence from the revision.
  abbrev pub restated : Revision → BeliefNode → BeliefNode
  restated r n = record n {
    provenance = r.new_provenance;
    fast_confidence = p.clamp_unit r.new_confidence;
  }

  -- An accepted revision by the value that a belief has already, when no contradiction edge leaves
  -- the belief, contracts nothing, gives the belief the new provenance and the new confidence
  -- clamped to the unit interval, and leaves all else of it, System 2's confidence included, and
  -- every other belief as it was.
  pub revise-reasserts :
      (q : Core) (r : Revision) (j : p.BeliefId) {n : BeliefNode} {rec : RevisionRecord}
      → get q r.belief_id ≡ some n
      → n.value ≡ r.new_value
      → has_contradiction_edges q.semantic r.belief_id ≡ false
      → (revise q r).1 ≡ ok rec
      → (rec.contracted ≡ [])
        × (get (revise q r).0 j ≡ (if r.belief_id == j then some (restated r n) else get q j))
  unfolding expand_only rewrite
  revise-reasserts q r j {n} g same edges h = elim (revise-cases q r) [
    | inl (e, c) ↦ absurd (cc (h, ap (λ x. x.1) c))
    | inr (inr (a, c, contra)) ↦
        absurd (cc (contra, unopposed q r.belief_id r.new_value n g same edges))
    | inr (inl (a, c, agrees)) ↦
        let (old, was, now, others, cs) = expand-get q r false [] a (sym (ap (λ x. x.1) c) ∙ h) in
        let to = ap (λ x. x.0) c in
        let node : old ≡ n = some_inj (sym was ∙ g) in
        (
          cs,
          elim (Bool-cases (r.belief_id == j)) [
            | inl t ↦
                let at = (p.belief_id_eq.beq_iff r.belief_id j).0 t in
                let kept : rewrite false r old ≡ restated r n =
                  ap (rewrite false r) node
                  ∙ ap (λ v. record (restated r n) { value = v }) (sym same) in
                rw t (
                  sym (ap (get (revise q r).0) at)
                  ∙ ap (λ x. get x r.belief_id) to
                  ∙ now
                  ∙ ap some kept)
            | inr f ↦ rw f (ap (λ x. get x j) to ∙ others j (ne_of_test r.belief_id j f))
          ],
        )
  ]
