-- ===== src/Ledger/Size.antt =====
-- crates/epica-contracts/src/sovereignty/ledger.rs: the documented length of an inclusion proof,
-- the logarithm of the number of entries, rounded up.
use epica.Prelude.{
  ltb, leb, ltb→lt, nat_eq, string_eq, list_eq, Bool-cases, length, ℕ, zero, suc, ◌+◌, ◌*◌, ◌/◌,
  ◌^◌, ◌≤◌, ◌<◌, ◌≡◌, inl, inr, some, List, arith,
}
use epica.Ledger.Defs.{Bytes, Blake3, AuditLedger}
use epica.Ledger.Merkle.{reduce, proof_loop, leaves, merkle_proof}
use epica.Ledger.Reduce.{length-reduce}
use epica.Ledger.Inclusion.{length-leaves}
use native.Mathlib.Nat.{pow-suc}

double :
    (n k : ℕ)
    → 1 < n
    → (n + 1) / 2 ≤ 2 ^ k
    → 2 ^ k < 2 * ((n + 1) / 2)
    → (n ≤ 2 ^ suc k) × (2 ^ suc k < 2 * n)
double n zero p h g = (omega arith, omega arith)
double n (suc j) p h g =
    (omega (arith, pow-suc 2 j, pow-suc 2 (suc j)), omega (arith, pow-suc 2 j, pow-suc 2 (suc j)))

module _ ⦃b3 : Blake3⦄ where
  length-proof_loop :
      (fuel : ℕ) (level : List Bytes) (path : ℕ)
      → 0 < length level
      → length level ≤ suc fuel
      → (length level ≤ 2 ^ length (proof_loop fuel level path))
        × (2 ^ length (proof_loop fuel level path) < 2 * length level)
  unfolding proof_loop
  length-proof_loop zero level path p h = (omega arith, omega arith)
  length-proof_loop (suc fuel) level path p h = elim (Bool-cases (ltb 1 (length level))) [
    | inr t ↦ let short : length level ≤ 1 = ground arith in rw t (omega arith, omega arith)
    | inl t ↦
        let long : 1 < length level = ltb→lt 1 (length level) t in
        let rest =
          length-proof_loop fuel (reduce level) (path / 2) (omega (arith, length-reduce level))
            (omega (arith, length-reduce level)) in
        rw t (
          double (length level) (length (proof_loop fuel (reduce level) (path / 2))) long
            (omega (arith, rest, length-reduce level)) (omega (arith, rest, length-reduce level)))
  ]

  -- The proof that `merkle_proof` gives has the length of the logarithm of the ledger's length,
  -- rounded up: two to its length is at least the number of entries and less than twice that number.
  pub length-merkle_proof :
      {V : Type 0} (l : AuditLedger V) (seq : ℕ) {proof : List Bytes}
      → merkle_proof l seq ≡ some proof
      → (length l.entries ≤ 2 ^ length proof) × (2 ^ length proof < 2 * length l.entries)
  unfolding merkle_proof
  length-merkle_proof l seq {proof} h = elim (Bool-cases (leb (length l.entries) seq)) [
    | inl t ↦ absurd (ground (arith, t, h))
    | inr t ↦
        let size =
          length-proof_loop (length l.entries) (leaves l.entries) seq
            (ground (arith, t, length-leaves l.entries)) (omega (arith, length-leaves l.entries)) in
        let same : proof_loop (length l.entries) (leaves l.entries) seq ≡ proof =
          ground (arith, t, h) in
        rw (← same) (omega (arith, size, length-leaves l.entries))
  ]
