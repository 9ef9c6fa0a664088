-- ===== src/Quad/Downstream.antt =====
-- crates/epica-core/src/system1/mod.rs: which beliefs a change of confidence reaches, and what it writes.
use epica.Prelude.{
  string_eq, nat_eq, ◌==◌, ne_of_test, list_eq, Bool-cases, Option-cases, all, List-cases, ℕ, ◌≡◌,
  refl, sym, ap, ◌∙◌, subst, ◌≢◌, ◌⊎◌, inl, inr, true, false, Option, none, some, List, ◌∷◌, arith,
}
use epica.Quad.Platform.{Platform, SlotMap, Petgraph, id_eq}
use epica.Quad.Value.{BeliefNode}
use epica.Quad.Store.{Core, get, modify, inferred_from_premises, descendants_of, CausalEdge}
use epica.Quad.Projection.{Projection}
use epica.Quad.Propagation.{refresh-causal, is_visited-cons, Grows-cons, Grows, IsVisited}
use epica.Quad.System1.{refresh, is_visited, set_fast}

module _ ⦃p : Platform⦄ ⦃sm : SlotMap p.BeliefId⦄ ⦃pg : Petgraph p.BeliefId⦄ where
  -- The beliefs that a walk along descendants gets to.
  pub data Follows (g : Projection p.BeliefId CausalEdge) (changed : p.BeliefId)
      : p.BeliefId → Type 0 where
    here : Follows g changed changed
    next :
        {x c : p.BeliefId}
        → Follows g changed x
        → IsVisited (descendants_of g x) c
        → Follows g changed c

  -- The same belief, but perhaps for its fast confidence.
  abbrev pub SameBut : Option BeliefNode → Option BeliefNode → Type 0
  SameBut none none = Unit
  SameBut (some n) (some m) = (c : p.F32) × (m ≡ set_fast c n)
  SameBut none (some m) = ⊥
  SameBut (some n) none = ⊥

  -- Everything but the beliefs.
  pub record SameRest (q q' : Core) : Type 0 where
    pub causal : q'.causal ≡ q.causal
    pub semantic : q'.semantic ≡ q.semantic
    pub temporal : q'.temporal ≡ q.temporal
    pub entity : q'.entity ≡ q.entity
    pub version : q'.version ≡ q.version
    pub prospective_index : q'.prospective_index ≡ q.prospective_index
    pub embedding_provider : q'.embedding_provider ≡ q.embedding_provider
    pub equivalence : q'.equivalence ≡ q.equivalence

  pub SameBut-refl : (o : Option BeliefNode) → SameBut o o
  SameBut-refl none = tt
  SameBut-refl (some n) = (n.fast_confidence, refl)

  SameBut-trans : (a b c : Option BeliefNode) → SameBut a b → SameBut b c → SameBut a c
  SameBut-trans none none none h k = tt
  SameBut-trans none none (some c) h k = absurd k
  SameBut-trans none (some b) c h k = absurd h
  SameBut-trans (some a) none c h k = absurd h
  SameBut-trans (some a) (some b) none h k = absurd k
  SameBut-trans (some a) (some b) (some c) (x, h) (y, k) = (y, k ∙ ap (set_fast y) h)

  -- A part of the walk, from one quad and visited set to the next. `R` holds of all that it visits.
  pub record Spread (R : p.BeliefId → Type 0) (q : Core) (visited : List p.BeliefId) (q' : Core)
      (visited' : List p.BeliefId) : Type 0 where
    pub rest : SameRest q q'
    pub grows : Grows visited visited'
    pub only : (x : p.BeliefId) → IsVisited visited' x → IsVisited visited x ⊎ R x
    pub closed :
        (x : p.BeliefId)
        → IsVisited visited' x
        → IsVisited visited x
          ⊎ ((c : p.BeliefId) → IsVisited (descendants_of q.causal x) c → IsVisited visited' c)
    pub kept : (x : p.BeliefId) → is_visited visited' x ≡ false → get q' x ≡ get q x
    pub same : (x : p.BeliefId) → SameBut (get q x) (get q' x)

  pub SameRest-refl : (q : Core) → SameRest q q
  SameRest-refl q = record {
    causal = refl;
    semantic = refl;
    temporal = refl;
    entity = refl;
    version = refl;
    prospective_index = refl;
    embedding_provider = refl;
    equivalence = refl;
  }

  SameRest-trans : {q r s : Core} → SameRest q r → SameRest r s → SameRest q s
  SameRest-trans h k = record {
    causal = k.causal ∙ h.causal;
    semantic = k.semantic ∙ h.semantic;
    temporal = k.temporal ∙ h.temporal;
    entity = k.entity ∙ h.entity;
    version = k.version ∙ h.version;
    prospective_index = k.prospective_index ∙ h.prospective_index;
    embedding_provider = k.embedding_provider ∙ h.embedding_provider;
    equivalence = k.equivalence ∙ h.equivalence;
  }

  pub Spread-refl :
      (R : p.BeliefId → Type 0) (q : Core) (visited : List p.BeliefId)
      → Spread R q visited q visited
  Spread-refl R q visited = record {
    rest = SameRest-refl q;
    grows = λ x h. h;
    only = λ x h. inl h;
    closed = λ x h. inl h;
    kept = λ x h. refl;
    same = λ x. SameBut-refl (get q x);
  }

  unvisited_before :
      (visited visited' : List p.BeliefId) (x : p.BeliefId)
      → Grows visited visited'
      → is_visited visited' x ≡ false
      → is_visited visited x ≡ false
  unvisited_before visited visited' x g h = ground (arith, g x, h)

  pub Spread-trans :
      (R : p.BeliefId → Type 0) {q r s : Core} {u v w : List p.BeliefId}
      → Spread R q u r v
      → Spread R r v s w
      → Spread R q u s w
  Spread-trans R {q} {r} {s} {u} {v} {w} h k = record {
    rest = SameRest-trans h.rest k.rest;
    grows = λ x m. k.grows x (h.grows x m);
    only = λ x m. elim (k.only x m) [ inl n ↦ h.only x n | inr t ↦ inr t ];
    closed = λ x m. elim (k.closed x m) [
      | inl n ↦ elim (h.closed x n) [ inl o ↦ inl o | inr all ↦ inr (λ c d. k.grows c (all c d)) ]
      | inr all ↦ inr (λ c d.
          all c (subst (λ g. is_visited (descendants_of g x) c ≡ true) (sym h.rest.causal) d))
    ];
    kept = λ x m. k.kept x m ∙ h.kept x (unvisited_before v w x k.grows m);
    same = λ x. SameBut-trans (get q x) (get r x) (get s x) (h.same x) (k.same x);
  }

  modify-same :
      (q : Core) (id x : p.BeliefId) (c : p.F32)
      → SameBut (get q x) (get (modify q id (set_fast c)) x)
  unfolding get modify
  modify-same q id x c = elim (Bool-cases (id == x)) [
    | inl t ↦
        let e : id ≡ x = (p.belief_id_eq.beq_iff id x).0 t in
        elim (Option-cases (sm.get q.nodes id)) [
          | inl n ↦ rw⁻¹ e (rw (n, sm.get-update_none q.nodes id (set_fast c) n) tt)
          | inr (m, n) ↦ rw⁻¹ e (rw (n, sm.get-update_same q.nodes id (set_fast c) n) (c, refl))
        ]
    | inr f ↦
        rw (sm.get-update_other q.nodes id x (set_fast c) (ne_of_test id x f))
          (SameBut-refl (sm.get q.nodes x))
  ]

  refresh-same :
      (q : Core) (id : p.BeliefId) (now_ms : ℕ) (x : p.BeliefId)
      → SameBut (get q x) (get (refresh q id now_ms) x)
  unfolding refresh
  refresh-same q id now_ms x = elim (List-cases (inferred_from_premises q.causal id)) [
    | inl e ↦ rw (e, refresh) (SameBut-refl (get q x))
    | inr (l, ls, e) ↦ rw (e, refresh) (modify-same q id x _)
  ]

  refresh-kept :
      (q : Core) (id : p.BeliefId) (now_ms : ℕ) (x : p.BeliefId)
      → id ≢ x
      → get (refresh q id now_ms) x ≡ get q x
  unfolding refresh get modify
  refresh-kept q id now_ms x ne = elim (List-cases (inferred_from_premises q.causal id)) [
    | inl e ↦ rw (e, refresh) refl
    | inr (l, ls, e) ↦ rw (e, refresh) (sm.get-update_other q.nodes id x _ ne)
  ]

  refresh-rest : (q : Core) (id : p.BeliefId) (now_ms : ℕ) → SameRest q (refresh q id now_ms)
  unfolding refresh modify
  refresh-rest q id now_ms = elim (List-cases (inferred_from_premises q.causal id)) [
    | inl e ↦ rw (e, refresh) (SameRest-refl q)
    | inr (l, ls, e) ↦
        rw (e, refresh)
          (record {
            causal = refl;
            semantic = refl;
            temporal = refl;
            entity = refl;
            version = refl;
            prospective_index = refl;
            embedding_provider = refl;
            equivalence = refl;
          })
  ]

  -- The step of the recursion: the belief itself, then its descendants one after the other.
  pub Spread-enter :
      (R : p.BeliefId → Type 0) (q : Core) (visited : List p.BeliefId) (id : p.BeliefId)
      (now_ms : ℕ) {q' : Core} {visited' : List p.BeliefId}
      → R id
      → Spread R (refresh q id now_ms) (id ∷ visited) q' visited'
      → ((c : p.BeliefId) → IsVisited (descendants_of q.causal id) c → IsVisited visited' c)
      → Spread R q visited q' visited'
  Spread-enter R q visited id now_ms {q'} {visited'} r h all = record {
    rest = SameRest-trans (refresh-rest q id now_ms) h.rest;
    grows = λ x m. h.grows x (Grows-cons id visited x m);
    only = λ x m. elim (h.only x m) [
      | inr t ↦ inr t
      | inl n ↦ elim (Bool-cases (id == x)) [
        | inl t ↦ inr (subst R ((p.belief_id_eq.beq_iff id x).0 t) r)
        | inr f ↦ inl (ground (arith, f, n))
      ]
    ];
    closed = λ x m. elim (h.closed x m) [
      | inr t ↦ inr (λ c d. t c (
          subst (λ g. is_visited (descendants_of g x) c ≡ true) (sym (refresh-causal q id now_ms))
            d))
      | inl n ↦ elim (Bool-cases (id == x)) [
        | inl t ↦ inr (λ c d. all c (
            subst (λ y. is_visited (descendants_of q.causal y) c ≡ true)
              (sym ((p.belief_id_eq.beq_iff id x).0 t)) d))
        | inr f ↦ inl (ground (arith, f, n))
      ]
    ];
    kept = λ x m.
        let ne : id ≢ x = λ e.
          cc (m, h.grows x (subst (IsVisited (id ∷ visited)) e (is_visited-cons id visited))) in
        h.kept x m ∙ refresh-kept q id now_ms x ne;
    same = λ x.
        SameBut-trans (get q x) (get (refresh q id now_ms) x) (get q' x)
          (refresh-same q id now_ms x) (h.same x);
  }
