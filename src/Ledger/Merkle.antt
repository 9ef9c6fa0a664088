-- ===== src/Ledger/Merkle.antt =====
-- crates/epica-contracts/src/sovereignty/ledger.rs: the Merkle reduction, inclusion proofs and
-- their verification. `while level.len() > 1` takes the length of the first level as fuel: every
-- round at least halves a level that is longer than one, rounded up. A read out of bounds, which
-- would panic, gives `zero_digest`; the indices read here are always in range.
use epica.Prelude.{
  ltb, leb, if◌then◌else◌, ◌==◌, nat_eq, string_eq, list_eq, length, get_or, ℕ, zero, suc, ◌+◌, ◌-◌,
  ◌/◌, ◌%◌, Bool, false, ◌&&◌, ◌||◌, Option, none, some, List, [], ◌∷◌, ◌++◌, map,
}
use epica.Ledger.Defs.{Bytes, Blake3, LedgerEntry, AuditLedger, zero_digest}

-- `usize::div_ceil(2)`
unfoldable pub div_ceil2 : ℕ → ℕ
div_ceil2 n = (n + 1) / 2

-- The index of the sibling of `path` in a level of `size` nodes.
unfoldable pub sibling_index : ℕ → ℕ → ℕ
sibling_index path size =
    if path % 2 == 0 then (if ltb (path + 1) size then path + 1 else path) else path - 1

module _ ⦃b3 : Blake3⦄ where
  unfoldable pub leaf_hash : Bytes → Bytes
  leaf_hash self_hash = b3.hash (0 ∷ self_hash)

  unfoldable pub node_hash : Bytes → Bytes → Bytes
  node_hash left right = b3.hash (1 ∷ left ++ right)

  -- One round: `for pair in level.chunks(2)`.
  unfoldable pub reduce : List Bytes → List Bytes
  reduce [] = []
  reduce (l ∷ []) = node_hash l l ∷ []
  reduce (l ∷ r ∷ rest) = node_hash l r ∷ reduce rest

  unfoldable pub reduce_all : ℕ → List Bytes → List Bytes
  reduce_all zero level = level
  reduce_all (suc fuel) level =
      let next = reduce_all fuel (reduce level) in if ltb 1 (length level) then next else level

  -- The loop of `merkle_proof`: the pushed siblings, in order.
  unfoldable pub proof_loop : ℕ → List Bytes → ℕ → List Bytes
  proof_loop zero level path = []
  proof_loop (suc fuel) level path =
      let more =
        get_or level (sibling_index path (length level)) zero_digest
        ∷ proof_loop fuel (reduce level) (path / 2) in
      if ltb 1 (length level) then more else []

  -- The loop of `verify_merkle_proof`: the hash and the level size after the last sibling.
  unfoldable pub climb : List Bytes → ℕ → ℕ → Bytes → Bytes × ℕ
  climb [] path level_size hash = (hash, level_size)
  climb (sib ∷ rest) path level_size hash =
      climb rest (path / 2) (div_ceil2 level_size)
        (if path % 2 == 0 then node_hash hash sib else node_hash sib hash)

  unfoldable pub verify_merkle_proof : Bytes → ℕ → ℕ → List Bytes → Bytes → Bool
  unfolding climb
  verify_merkle_proof leaf_self_hash seq n proof root =
      if n == 0 || leb n seq
      then false
      else (let (hash, level_size) = climb proof seq n (leaf_hash leaf_self_hash) in
          level_size == 1 && hash == root)

module _ {V : Type 0} ⦃b3 : Blake3⦄ where
  unfoldable pub leaves : List (LedgerEntry V) → List Bytes
  leaves = map (λ e. leaf_hash e.self_hash)

  unfoldable pub root_of : List (LedgerEntry V) → Bytes
  root_of [] = zero_digest
  root_of (e ∷ es) = get_or (reduce_all (length (e ∷ es)) (leaves (e ∷ es))) 0 zero_digest

  unfoldable pub merkle_root : AuditLedger V → Bytes
  unfolding root_of leaves
  merkle_root l = root_of l.entries

  unfoldable pub merkle_proof : AuditLedger V → ℕ → Option (List Bytes)
  unfolding proof_loop leaves
  merkle_proof l seq =
      if leb (length l.entries) seq
      then none
      else some (proof_loop (length l.entries) (leaves l.entries) seq)
