-- ===== src/Ledger/Reduce.antt =====
-- crates/epica-contracts/src/sovereignty/ledger.rs: the Merkle reduction ends in one node, and
-- what one round does to the length and to each position of a level.
use epica.Prelude.{
  ltb, if◌then◌else◌, ◌==◌, nat_eq, string_eq, list_eq, Bool-cases, length, get_or, ℕ, zero, suc,
  ◌+◌, ◌/◌, ◌%◌, ◌≤◌, ◌<◌, ◌≡◌, refl, inl, inr, List, [], ◌∷◌, arith,
}
use epica.Ledger.Defs.{Bytes, Blake3, zero_digest}
use epica.Ledger.Merkle.{sibling_index, node_hash, reduce, reduce_all}
use epica.Ledger.Collision.{length-node_hash}

half_step : (p : ℕ) → suc (suc p) / 2 ≡ suc (p / 2)
half_step p = omega arith

parity_step : (p : ℕ) → suc (suc p) % 2 ≡ p % 2
parity_step p = omega arith

sibling_index_step :
    (p n : ℕ) → sibling_index (suc (suc p)) (suc (suc n)) ≡ suc (suc (sibling_index p n))
unfolding sibling_index
sibling_index_step p n = ground (arith, parity_step p)

module _ ⦃b3 : Blake3⦄ where
  -- Every node of the level is a digest.
  abbrev pub AllDigests : List Bytes → Type 0
  AllDigests [] = Unit
  AllDigests (d ∷ ds) = (length d ≡ 32) × AllDigests ds

  pub length-reduce : (level : List Bytes) → length (reduce level) ≡ (length level + 1) / 2
  unfolding reduce
  length-reduce [] = omega arith
  length-reduce (l ∷ []) = omega arith
  length-reduce (l ∷ r ∷ rest) = omega (arith, length-reduce rest)

  pub AllDigests-reduce : (level : List Bytes) → AllDigests (reduce level)
  unfolding reduce
  AllDigests-reduce [] = tt
  AllDigests-reduce (l ∷ []) = (length-node_hash l l, tt)
  AllDigests-reduce (l ∷ r ∷ rest) = (length-node_hash l r, AllDigests-reduce rest)

  pub length-get_or :
      (level : List Bytes) (i : ℕ) → AllDigests level → length (get_or level i zero_digest) ≡ 32
  length-get_or [] i d = refl
  length-get_or (x ∷ xs) zero d = d.0
  length-get_or (x ∷ xs) (suc i) d = length-get_or xs i d.1

  -- The fuel is enough: one node is left.
  pub length-reduce_all :
      (fuel : ℕ) (level : List Bytes)
      → 0 < length level
      → length level ≤ suc fuel
      → length (reduce_all fuel level) ≡ 1
  unfolding reduce_all
  length-reduce_all zero level p h = omega arith
  length-reduce_all (suc fuel) level p h = elim (Bool-cases (ltb 1 (length level))) [
    | inl t ↦ rw t (
        length-reduce_all fuel (reduce level) (ground (arith, length-reduce level))
          (ground (arith, length-reduce level)))
    | inr t ↦ rw t (ground arith)
  ]

  -- Node `path / 2` of the next level is made of node `path` and its sibling.
  pub get_or-reduce :
      (level : List Bytes) (path : ℕ)
      → path < length level
      → get_or (reduce level) (path / 2) zero_digest ≡ (
          if path % 2 == 0
          then node_hash
              (get_or level path zero_digest)
              (get_or level (sibling_index path (length level)) zero_digest)
          else node_hash
              (get_or level (sibling_index path (length level)) zero_digest)
              (get_or level path zero_digest))
  unfolding reduce
  get_or-reduce [] path h = absurd (omega arith)
  get_or-reduce (l ∷ []) zero h = unfold sibling_index in refl
  get_or-reduce (l ∷ []) (suc path) h = absurd (omega arith)
  get_or-reduce (l ∷ r ∷ rest) zero h = unfold sibling_index in ground arith
  get_or-reduce (l ∷ r ∷ rest) (suc zero) h = unfold sibling_index in refl
  get_or-reduce (l ∷ r ∷ rest) (suc (suc path)) h =
      simp (sibling_index_step, half_step, parity_step) (get_or-reduce rest path (omega arith))
