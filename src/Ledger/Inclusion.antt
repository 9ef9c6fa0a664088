-- ===== src/Ledger/Inclusion.antt =====
-- crates/epica-contracts/src/sovereignty/ledger.rs: a proof from `merkle_proof` passes
-- `verify_merkle_proof`, and what passes stands in the ledger.
use epica.Prelude.{
  ltb, ltb→lt, nat_eq, string_eq, ==_refl, list_eq, Bool-cases, length, get_elem?, get_or,
  length-map, ℕ, zero, suc, ◌/◌, ◌≤◌, ◌<◌, ◌≡◌, refl, sym, ap₂, ◌∙◌, subst, inl, inr, true, some,
  List, [], ◌∷◌, arith,
}
use epica.Ledger.Defs.{Bytes, Blake3, LedgerEntry, AuditLedger, zero_digest}
use epica.Ledger.Merkle.{
  div_ceil2, leaf_hash, reduce, reduce_all, proof_loop, climb, verify_merkle_proof, leaves, root_of,
  merkle_root, merkle_proof,
}
use epica.Ledger.Reduce.{length-reduce, get_or-reduce}

module _ ⦃b3 : Blake3⦄ where
  single_node :
      (level : List Bytes) (path : ℕ)
      → path < length level
      → length level ≤ 1
      → ◌≡◌ {A = Bytes × ℕ}
          (get_or level path zero_digest, length level)
          (get_or level 0 zero_digest, 1)
  single_node (x ∷ []) zero p h = refl
  single_node [] path p h = absurd (omega arith)
  single_node (x ∷ []) (suc path) p h = absurd (omega arith)
  single_node (x ∷ y ∷ level) path p h = absurd (omega arith)

  -- Climbing the siblings that `proof_loop` collects ends at the node that `reduce_all` leaves.
  climb-proof_loop :
      (fuel : ℕ) (level : List Bytes) (path : ℕ)
      → path < length level
      → length level ≤ suc fuel
      → climb (proof_loop fuel level path) path (length level) (get_or level path zero_digest)
        ≡ (get_or (reduce_all fuel level) 0 zero_digest, 1)
  unfolding climb proof_loop reduce_all div_ceil2
  climb-proof_loop zero level path p h = single_node level path p h
  climb-proof_loop (suc fuel) level path p h = elim (Bool-cases (ltb 1 (length level))) [
    | inl t ↦ rw t (
        ap₂ (climb (proof_loop fuel (reduce level) (path / 2)) (path / 2))
          (sym (length-reduce level)) (sym (get_or-reduce level path p))
        ∙ climb-proof_loop fuel (reduce level) (path / 2)
            (omega (arith, length-reduce level, ltb→lt 1 (length level) t))
            (omega (arith, length-reduce level, ltb→lt 1 (length level) t)))
    | inr t ↦ rw t (single_node level path p (ground arith))
  ]

  pub leaf_at :
      {V : Type 0} (es : List (LedgerEntry V)) (i : ℕ) {e : LedgerEntry V}
      → get_elem? es i ≡ some e
      → get_or (leaves es) i zero_digest ≡ leaf_hash e.self_hash
  unfolding leaves
  leaf_at [] i h = cc
  leaf_at (x ∷ es) zero h = cc
  leaf_at (x ∷ es) (suc i) h = leaf_at es i h

  pub length-leaves : {V : Type 0} (es : List (LedgerEntry V)) → length (leaves es) ≡ length es
  unfolding leaves
  length-leaves es = length-map es _

  pub index_lt :
      {A : Type 0} (es : List A) (i : ℕ) {e : A} → get_elem? es i ≡ some e → i < length es
  index_lt [] i h = cc
  index_lt (x ∷ es) zero h = omega arith
  index_lt (x ∷ es) (suc i) h = omega (arith, index_lt es i h)

module _ {V : Type 0} ⦃b3 : Blake3⦄ where
  pub root_of_lem :
      (es : List (LedgerEntry V))
      → 0 < length es
      → root_of es ≡ get_or (reduce_all (length es) (leaves es)) 0 zero_digest
  unfolding root_of
  root_of_lem [] h = absurd (omega arith)
  root_of_lem (e ∷ es) h = refl

  climb-leaves :
      (es : List (LedgerEntry V)) (seq : ℕ) {e : LedgerEntry V}
      → get_elem? es seq ≡ some e
      → climb (proof_loop (length es) (leaves es) seq) seq (length es) (leaf_hash e.self_hash)
        ≡ (root_of es, 1)
  climb-leaves es seq {e} h =
      rw (root_of_lem es (omega (arith, index_lt es seq h)), ← leaf_at es seq h)
        (subst
          (λ n.
            climb (proof_loop (length es) (leaves es) seq) seq n
              (get_or (leaves es) seq zero_digest)
            ≡ (get_or (reduce_all (length es) (leaves es)) 0 zero_digest, 1))
          (length-leaves es)
          (climb-proof_loop (length es) (leaves es) seq
            (omega (arith, length-leaves es, index_lt es seq h)) (omega (arith, length-leaves es))))

  -- For every entry of a ledger `merkle_proof` gives a proof, and `verify_merkle_proof` accepts it
  -- for the entry's hash and position against the ledger's root.
  pub merkle_proof-verifies :
      (l : AuditLedger V) (seq : ℕ) {e : LedgerEntry V}
      → get_elem? l.entries seq ≡ some e
      → (proof : List Bytes) × (merkle_proof l seq ≡ some proof)
        × (verify_merkle_proof e.self_hash seq (length l.entries) proof (merkle_root l) ≡ true)
  unfolding merkle_proof verify_merkle_proof merkle_root
  merkle_proof-verifies l seq {e} h =
      let bound : seq < length l.entries = index_lt l.entries seq h in
      (
        proof_loop (length l.entries) (leaves l.entries) seq,
        ground arith,
        rw (climb-leaves l.entries seq h) (ground (arith, ==_refl (root_of l.entries))),
      )
