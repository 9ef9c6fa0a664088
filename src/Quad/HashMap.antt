-- ===== src/Quad/HashMap.antt =====
-- `std::collections::HashMap` as the sources use it: an association list with one entry per key.
use epica.Prelude.{
  if◌then◌else◌, Eq, string_eq, nat_eq, ◌==◌, ==_refl, ne_of_test, list_eq, Bool-cases, some_inj,
  test-ne, ◌≡◌, refl, sym, ap, ◌∙◌, subst, ◌≢◌, inl, inr, Option, none, some, List, [], ◌∷◌, arith,
}

abbrev pub HashMap : Type 0 → Type 0 → Type 0
HashMap K V = List (K × V)

module _ {K V : Type 0} ⦃e : Eq K⦄ where
  unfoldable pub hash_get : HashMap K V → K → Option V
  hash_get [] k = none
  hash_get ((k', v) ∷ m) k = if k' == k then some v else hash_get m k

  unfoldable pub hash_insert : HashMap K V → K → V → HashMap K V
  hash_insert [] k v = (k, v) ∷ []
  hash_insert ((k', w) ∷ m) k v =
      let rest = hash_insert m k v in if k' == k then (k', v) ∷ m else (k', w) ∷ rest

  unfoldable pub hash_remove : HashMap K V → K → HashMap K V
  hash_remove [] k = []
  hash_remove ((k', w) ∷ m) k =
      let rest = hash_remove m k in if k' == k then rest else (k', w) ∷ rest

  pub hash_get-insert_same :
      (m : HashMap K V) (k : K) (v : V) → hash_get (hash_insert m k v) k ≡ some v
  unfolding hash_get hash_insert
  hash_get-insert_same [] k v = rw (==_refl k) refl
  hash_get-insert_same ((k', w) ∷ m) k v = elim (Bool-cases (k' == k)) [
    | inl t ↦ rw (t, t) refl
    | inr f ↦ rw (f, f) (hash_get-insert_same m k v)
  ]

  pub hash_get-insert_other :
      (m : HashMap K V) (k j : K) (v : V) → k ≢ j → hash_get (hash_insert m k v) j ≡ hash_get m j
  unfolding hash_get hash_insert
  hash_get-insert_other [] k j v h = rw (test-ne k j h) refl
  hash_get-insert_other ((k', w) ∷ m) k j v h = elim (Bool-cases (k' == k)) [
    | inl t ↦ rw (t, test-ne k' j (λ q. h (sym ((e.beq_iff k' k).0 t) ∙ q))) refl
    | inr f ↦ rw (f, hash_get-insert_other m k j v h) refl
  ]

  pub hash_get-remove_same : (m : HashMap K V) (k : K) → hash_get (hash_remove m k) k ≡ none
  unfolding hash_get hash_remove
  hash_get-remove_same [] k = refl
  hash_get-remove_same ((k', w) ∷ m) k = elim (Bool-cases (k' == k)) [
    | inl t ↦ rw t (hash_get-remove_same m k)
    | inr f ↦ rw (f, f) (hash_get-remove_same m k)
  ]

  pub hash_get-remove_other :
      (m : HashMap K V) (k j : K) → k ≢ j → hash_get (hash_remove m k) j ≡ hash_get m j
  unfolding hash_get hash_remove
  hash_get-remove_other [] k j h = refl
  hash_get-remove_other ((k', w) ∷ m) k j h = elim (Bool-cases (k' == k)) [
    | inl t ↦
        rw (t, test-ne k' j (λ q. h (sym ((e.beq_iff k' k).0 t) ∙ q)))
          (hash_get-remove_other m k j h)
    | inr f ↦ rw (f, hash_get-remove_other m k j h) refl
  ]

module _ {K V : Type 0} ⦃e : Eq K⦄ where
  -- No key has two entries, as holds of every map that insertions build.
  unfoldable pub Distinct : HashMap K V → Type 0
  Distinct [] = Unit
  Distinct ((k, v) ∷ m) = (hash_get m k ≡ none) × Distinct m

  pub hash_insert-Distinct :
      (m : HashMap K V) (k : K) (v : V) → Distinct m → Distinct (hash_insert m k v)
  unfolding hash_insert hash_get Distinct
  hash_insert-Distinct [] k v d = (refl, tt)
  hash_insert-Distinct ((k', w) ∷ m) k v d = elim (Bool-cases (k' == k)) [
    | inl t ↦ rw t d
    | inr f ↦ rw f (
      hash_get-insert_other m k k' v (λ q. ne_of_test k' k f (sym q)) ∙ d.0,
      hash_insert-Distinct m k v d.1,
    )
  ]

  -- Every entry of `s` is the one that `m` has for its key.
  unfoldable pub Agrees : HashMap K V → HashMap K V → Type 0
  Agrees [] m = Unit
  Agrees ((k, v) ∷ s) m = (hash_get m k ≡ some v) × Agrees s m

  Agrees-more :
      (s m : HashMap K V) (k : K) (v : V) → hash_get s k ≡ none → Agrees s m → Agrees s ((k, v) ∷ m)
  unfolding Agrees hash_get
  Agrees-more [] m k v h a = tt
  Agrees-more ((j, w) ∷ s) m k v h a = elim (Bool-cases (j == k)) [
    | inl t ↦ absurd (ground (arith, t, h))
    | inr f ↦ (
      rw (test-ne k j (λ q. ne_of_test j k f (sym q))) a.0,
      Agrees-more s m k v (ground (arith, f, h)) a.1,
    )
  ]

  pub Distinct-Agrees : (m : HashMap K V) → Distinct m → Agrees m m
  unfolding Agrees Distinct hash_get
  Distinct-Agrees [] d = tt
  Distinct-Agrees ((k, v) ∷ m) d =
      (rw (==_refl k) refl, Agrees-more m m k v d.0 (Distinct-Agrees m d.1))

module _ {K V : Type 0} ⦃e : Eq K⦄ where
  -- The predicate holds of every entry.
  unfoldable pub EachEntry : (K → V → Type 0) → HashMap K V → Type 0
  EachEntry P [] = Unit
  EachEntry P ((k, v) ∷ m) = P k v × EachEntry P m

  pub each-get :
      (P : K → V → Type 0) (m : HashMap K V) (k : K) {v : V}
      → EachEntry P m
      → hash_get m k ≡ some v
      → P k v
  unfolding EachEntry hash_get
  each-get P [] k h g = absurd cc
  each-get P ((j, w) ∷ m) k {v} h g = elim (Bool-cases (j == k)) [
    | inl t ↦
        let q : w ≡ v = some_inj (rw t at g) in
        subst (λ x. P k x) q (subst (λ x. P x w) ((e.beq_iff j k).0 t) h.0)
    | inr f ↦ each-get P m k h.1 (rw f at g)
  ]

  pub get-each :
      (P : K → V → Type 0) (m : HashMap K V)
      → Distinct m
      → ((k : K) (v : V) → hash_get m k ≡ some v → P k v)
      → EachEntry P m
  unfolding EachEntry hash_get Distinct
  get-each P [] d h = tt
  get-each P ((j, w) ∷ m) d h = (
    h j w (rw (==_refl j) refl),
    get-each P m d.1 (λ k v g. elim (Bool-cases (j == k)) [
      | inl t ↦ absurd (cc (d.0, g, ap (hash_get m) ((e.beq_iff j k).0 t)))
      | inr f ↦ h k v (rw f g)
    ]),
  )
