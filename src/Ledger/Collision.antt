-- ===== src/Ledger/Collision.antt =====
-- Two different inputs with one BLAKE3 digest. What rests on collision resistance is stated as
-- "the claim, or a collision is at hand", so that it assumes nothing of the hash.
use epica.Prelude.{
  ◌==◌, nat_eq, string_eq, ==_refl, ==→≡, list_eq, Bool-cases, length, ◌≡◌, refl, ap, ◌≢◌, ◌⊎◌, inl,
  inr, List, [], ◌∷◌, ◌++◌, arith,
}
use epica.Ledger.Defs.{Bytes, Blake3}
use epica.Ledger.Merkle.{leaf_hash, node_hash}

pub append_injective {ℓ} :
    {A : Type ℓ} (a b : List A) {c d : List A}
    → length a ≡ length b
    → a ++ c ≡ b ++ d
    → (a ≡ b) × (c ≡ d)
append_injective [] [] n h = (refl, h)
append_injective [] (y ∷ b) n h = absurd (omega arith)
append_injective (x ∷ a) [] n h = absurd (omega arith)
append_injective (x ∷ a) (y ∷ b) {c} {d} n h =
    let tails : (a ≡ b) × (c ≡ d) = append_injective a b (omega arith) (ground arith) in
    (ground (arith, tails.0), tails.1)

module _ ⦃b3 : Blake3⦄ where
  abbrev pub Collision : Type 0
  Collision = (x : Bytes) × (y : Bytes) × (x ≢ y) × (b3.hash x ≡ b3.hash y)

  pub hash_cases : (x y : Bytes) → b3.hash x ≡ b3.hash y → (x ≡ y) ⊎ Collision
  hash_cases x y h = elim (Bool-cases (x == y)) [
    | inl same ↦ inl (==→≡ same)
    | inr other ↦ inr (x, y, (λ p. cc (==_refl x, other, ap (λ z. x == z) p)), h)
  ]

  pub node_hash_cases :
      (l r l' r' : Bytes)
      → length l ≡ length l'
      → node_hash l r ≡ node_hash l' r'
      → ((l ≡ l') × (r ≡ r')) ⊎ Collision
  unfolding node_hash
  node_hash_cases l r l' r' n h = elim (hash_cases (1 ∷ l ++ r) (1 ∷ l' ++ r') h) [
    | inl p ↦ inl (append_injective l l' n (ground (arith, p)))
    | inr c ↦ inr c
  ]

  pub leaf_hash_cases : (x y : Bytes) → leaf_hash x ≡ leaf_hash y → (x ≡ y) ⊎ Collision
  unfolding leaf_hash
  leaf_hash_cases x y h = elim (hash_cases (0 ∷ x) (0 ∷ y) h) [
    | inl p ↦ inl (ground (arith, p))
    | inr c ↦ inr c
  ]

  -- The prefix bytes keep leaves and inner nodes apart.
  pub leaf-node_cases : (x l r : Bytes) → leaf_hash x ≡ node_hash l r → Collision
  unfolding leaf_hash node_hash
  leaf-node_cases x l r h = (0 ∷ x, 1 ∷ l ++ r, (λ p. ground (arith, p)), h)

  pub length-node_hash : (l r : Bytes) → length (node_hash l r) ≡ 32
  unfolding node_hash
  length-node_hash l r = b3.length-hash (1 ∷ l ++ r)

  pub length-leaf_hash : (x : Bytes) → length (leaf_hash x) ≡ 32
  unfolding leaf_hash
  length-leaf_hash x = b3.length-hash (0 ∷ x)
