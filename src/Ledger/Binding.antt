-- ===== src/Ledger/Binding.antt =====
-- crates/epica-contracts/src/sovereignty/ledger.rs: what the Merkle root commits to.
use epica.Prelude.{
  ltb, nat_eq, string_eq, list_eq, Bool-cases, length, get_or, ℕ, zero, suc, ◌+◌, ◌/◌, ◌<◌, ◌≡◌,
  refl, sym, ap, ap₂, ◌∙◌, ◌⊎◌, inl, inr, List, [], ◌∷◌, map, arith,
}
use epica.Ledger.Defs.{Bytes, Blake3, LedgerEntry, AuditLedger, zero_digest}
use epica.Ledger.Merkle.{reduce, reduce_all, leaves, root_of, merkle_root}
use epica.Ledger.Reduce.{AllDigests, AllDigests-reduce, length-reduce, length-reduce_all}
use epica.Ledger.Collision.{Collision, node_hash_cases, leaf_hash_cases, length-leaf_hash}
use epica.Ledger.Inclusion.{root_of_lem, length-leaves}

module _ ⦃b3 : Blake3⦄ where
  reduce_injective :
      (ls ms : List Bytes)
      → AllDigests ls
      → AllDigests ms
      → length ls ≡ length ms
      → reduce ls ≡ reduce ms
      → (ls ≡ ms) ⊎ Collision
  unfolding reduce
  reduce_injective [] [] a b n h = inl refl
  reduce_injective [] (m ∷ ms) a b n h = absurd (omega arith)
  reduce_injective (l ∷ ls) [] a b n h = absurd (omega arith)
  reduce_injective (l ∷ []) (m ∷ []) a b n h =
      elim (node_hash_cases l l m m (a.0 ∙ sym b.0) (ground (arith, h))) [
        | inl p ↦ inl (ap (λ z. z ∷ []) p.0)
        | inr c ↦ inr c
      ]
  reduce_injective (l ∷ []) (m ∷ k ∷ ms) a b n h = absurd (omega arith)
  reduce_injective (l ∷ r ∷ ls) (m ∷ []) a b n h = absurd (omega arith)
  reduce_injective (l ∷ r ∷ ls) (m ∷ k ∷ ms) a b n h =
      elim (node_hash_cases l r m k (a.0 ∙ sym b.0) (ground (arith, h))) [
        | inr c ↦ inr c
        | inl p ↦ elim (reduce_injective ls ms a.1.1 b.1.1 (omega arith) (ground (arith, h))) [
          | inr c ↦ inr c
          | inl q ↦ inl (ground (arith, p.0, p.1, q))
        ]
      ]

  same_level :
      (fuel : ℕ) (ls ms : List Bytes)
      → AllDigests ls
      → AllDigests ms
      → length ls ≡ length ms
      → reduce_all fuel ls ≡ reduce_all fuel ms
      → (ls ≡ ms) ⊎ Collision
  unfolding reduce_all
  same_level zero ls ms a b n h = inl h
  same_level (suc fuel) ls ms a b n h = elim (Bool-cases (ltb 1 (length ls))) [
    | inr t ↦ inl (ground (arith, t, h))
    | inl t ↦
        elim (same_level fuel (reduce ls) (reduce ms) (AllDigests-reduce ls) (AllDigests-reduce ms)
          (length-reduce ls ∙ ap (λ k. (k + 1) / 2) n ∙ sym (length-reduce ms))
          (ground (arith, t, h))) [ inr c ↦ inr c | inl p ↦ reduce_injective ls ms a b n p ]
  ]

  single_ext :
      (ls ms : List Bytes)
      → length ls ≡ 1
      → length ms ≡ 1
      → get_or ls 0 zero_digest ≡ get_or ms 0 zero_digest
      → ls ≡ ms
  single_ext (l ∷ []) (m ∷ []) p q h = ap (λ z. z ∷ []) h
  single_ext [] ms p q h = absurd (omega arith)
  single_ext (l ∷ k ∷ ls) ms p q h = absurd (omega arith)
  single_ext (l ∷ []) [] p q h = absurd (omega arith)
  single_ext (l ∷ []) (m ∷ k ∷ ms) p q h = absurd (omega arith)

module _ {V : Type 0} ⦃b3 : Blake3⦄ where
  pub AllDigests-leaves : (es : List (LedgerEntry V)) → AllDigests (leaves es)
  unfolding leaves
  AllDigests-leaves [] = tt
  AllDigests-leaves (e ∷ es) = (length-leaf_hash e.self_hash, AllDigests-leaves es)

  abbrev pub self_hashes : List (LedgerEntry V) → List Bytes
  self_hashes = map (λ e. e.self_hash)

  same_leaves :
      (es fs : List (LedgerEntry V))
      → leaves es ≡ leaves fs
      → (self_hashes es ≡ self_hashes fs) ⊎ Collision
  unfolding leaves
  same_leaves [] [] h = inl refl
  same_leaves [] (f ∷ fs) h = cc
  same_leaves (e ∷ es) [] h = cc
  same_leaves (e ∷ es) (f ∷ fs) h =
      elim (leaf_hash_cases e.self_hash f.self_hash (ground (arith, h))) [
        | inr c ↦ inr c
        | inl p ↦ elim (same_leaves es fs (ground (arith, h))) [
          | inr c ↦ inr c
          | inl q ↦ inl (ap₂ (◌∷◌) p q)
        ]
      ]

  same_root :
      (es fs : List (LedgerEntry V))
      → 0 < length es
      → length es ≡ length fs
      → root_of es ≡ root_of fs
      → (leaves es ≡ leaves fs) ⊎ Collision
  same_root es fs pos n h =
      let sizes : length (leaves es) ≡ length (leaves fs) =
        length-leaves es ∙ n ∙ sym (length-leaves fs) in
      let one : length (reduce_all (length es) (leaves es)) ≡ 1 =
        length-reduce_all (length es) (leaves es) (omega (arith, length-leaves es))
          (omega (arith, length-leaves es)) in
      let one' : length (reduce_all (length es) (leaves fs)) ≡ 1 =
        length-reduce_all (length es) (leaves fs) (omega (arith, length-leaves fs))
          (omega (arith, length-leaves fs)) in
      let heads : get_or (reduce_all (length es) (leaves es)) 0 zero_digest
          ≡ get_or (reduce_all (length es) (leaves fs)) 0 zero_digest =
        sym (root_of_lem es pos)
        ∙ h
        ∙ root_of_lem fs (omega arith)
        ∙ ap (λ k. get_or (reduce_all k (leaves fs)) 0 zero_digest) (sym n) in
      same_level (length es) (leaves es) (leaves fs) (AllDigests-leaves es) (AllDigests-leaves fs)
        sizes (single_ext _ _ one one' heads)

  pub root_of-binds :
      (es fs : List (LedgerEntry V))
      → length es ≡ length fs
      → root_of es ≡ root_of fs
      → (self_hashes es ≡ self_hashes fs) ⊎ Collision
  root_of-binds [] [] n h = inl refl
  root_of-binds [] (f ∷ fs) n h = absurd (omega arith)
  root_of-binds (e ∷ es) fs n h = elim (same_root (e ∷ es) fs (omega arith) n h) [
    | inr c ↦ inr c
    | inl p ↦ same_leaves (e ∷ es) fs p
  ]

  -- Two ledgers of one length with one Merkle root have the same entry hashes in the same order, or
  -- a hash collision is exhibited.
  pub merkle_root-binds :
      (l m : AuditLedger V)
      → length l.entries ≡ length m.entries
      → merkle_root l ≡ merkle_root m
      → (self_hashes l.entries ≡ self_hashes m.entries) ⊎ Collision
  unfolding merkle_root
  merkle_root-binds l m n h = root_of-binds l.entries m.entries n h
