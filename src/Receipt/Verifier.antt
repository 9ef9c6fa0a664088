-- ===== src/Receipt/Verifier.antt =====
-- crates/epica-zk-evidence/src/verifier.rs: the layers of receipt verification, in their order.
use epica.Prelude.{
  ltb, leb, ◌==◌, nat_eq, string_eq, list_eq, length, get_elem?, Result, ◌>>=◌, ◌>>◌, map_err,
  collect, ℕ, String, Bool, true, false, not, ◌||◌, none, some, List, [], ◌∷◌, ok, err,
}
use epica.Ledger.Defs.{Bytes, Blake3, LedgerEntry, AuditLedger}
use epica.Ledger.Merkle.{merkle_root, verify_merkle_proof}
use epica.Receipt.Wire.{
  Hex, Ed25519, MerkleInclusionProof, EvidenceReceipt, EvidenceReceiptError, receipt_schema_version,
  receipt_binding, decode_fixed_hex,
}
use epica.Receipt.Prover.{window_merkle_root}

module _ ⦃hx : Hex⦄ ⦃ed : Ed25519⦄ where
  pub data VerificationError : Type 0 where
    decode : EvidenceReceiptError → VerificationError
    unsupported_schema_version : ℕ → ℕ → VerificationError
    invalid_range : ℕ → ℕ → ℕ → VerificationError
    ledger_length_mismatch : ℕ → ℕ → VerificationError
    merkle_root_mismatch : String → String → VerificationError
    signature : ed.SignatureError → VerificationError
    inclusion : ℕ → VerificationError
    inclusion_out_of_bounds : ℕ → VerificationError
    inclusion_leaf_mismatch : ℕ → VerificationError

  abbrev pub Verified : Type 0 → Type 0
  Verified = Result VerificationError

  -- `if failed { return Err(e) }`
  abbrev pub reject_if : Bool → VerificationError → Verified (Unit {0})
  reject_if true e = err e
  reject_if false e = ok tt

  abbrev pub decoded : ℕ → String → String → Verified Bytes
  decoded n hex_str field = map_err decode (decode_fixed_hex n hex_str field)

  unfoldable pub from_receipt : EvidenceReceipt → Verified ed.VerifyingKey
  from_receipt receipt = do
    pk ← decoded 32 receipt.prover_pubkey_hex "prover_pubkey_hex"
    map_err signature (ed.from_bytes pk)

module _ ⦃b3 : Blake3⦄ ⦃hx : Hex⦄ ⦃ed : Ed25519⦄ where
  -- Layer 3: the signature over the binding of the reconstructed root.
  unfoldable pub check_signature : ed.VerifyingKey → EvidenceReceipt → Bytes → Verified (Unit {0})
  check_signature pubkey receipt reconstructed = do
    pubkey_bytes ← decoded 32 receipt.prover_pubkey_hex "prover_pubkey_hex"
    let binding =
        receipt_binding reconstructed receipt.start_seq receipt.end_seq receipt.ledger_len
          pubkey_bytes receipt.meta.schema_version
    sig_bytes ← decoded 64 receipt.signature_hex "signature_hex"
    map_err signature (ed.verify pubkey binding sig_bytes)

module _ {V : Type 0} ⦃b3 : Blake3⦄ ⦃hx : Hex⦄ ⦃ed : Ed25519⦄ where
  -- The body of the loop of layer 4, once the entry is found.
  unfoldable pub check_leaf :
      AuditLedger V → MerkleInclusionProof → LedgerEntry V → Verified (Unit {0})
  check_leaf ledger inc entry = do
    claimed_leaf ← decoded 32 inc.self_hash_hex "inclusion.self_hash_hex"
    reject_if (not (entry.self_hash == claimed_leaf)) (inclusion_leaf_mismatch inc.seq)
    path ← collect (λ s. decoded 32 s "inclusion.path") inc.path_hex
    reject_if
        (not (
          verify_merkle_proof claimed_leaf inc.seq (length ledger.entries) path
            (merkle_root ledger)))
        (inclusion inc.seq)

  unfoldable pub check_inclusion : AuditLedger V → MerkleInclusionProof → Verified (Unit {0})
  unfolding check_leaf
  check_inclusion ledger inc = elim (get_elem? ledger.entries inc.seq) [
    | none ↦ err (inclusion_out_of_bounds inc.seq)
    | some entry ↦ check_leaf ledger inc entry
  ]

  unfoldable pub check_inclusions : AuditLedger V → List MerkleInclusionProof → Verified (Unit {0})
  unfolding check_inclusion
  check_inclusions ledger [] = ok tt
  check_inclusions ledger (inc ∷ incs) = check_inclusion ledger inc >> check_inclusions ledger incs

  -- Layers 1 and 2: the schema, the length, the range and the root. The result is the root.
  unfoldable pub check_window : EvidenceReceipt → AuditLedger V → Verified Bytes
  check_window receipt ledger = do
    let ledger_len = length ledger.entries
    reject_if (not (receipt.meta.schema_version == receipt_schema_version))
        (unsupported_schema_version receipt.meta.schema_version receipt_schema_version)
    reject_if (not (receipt.ledger_len == ledger_len))
        (ledger_length_mismatch receipt.ledger_len ledger_len)
    reject_if (ltb receipt.end_seq receipt.start_seq || leb ledger_len receipt.end_seq)
        (invalid_range receipt.start_seq receipt.end_seq ledger_len)
    let reconstructed = window_merkle_root ledger receipt.start_seq receipt.end_seq
    receipt_root ← decoded 32 receipt.merkle_root_hex "merkle_root_hex"
    reject_if (not (reconstructed == receipt_root))
        (merkle_root_mismatch (hx.encode receipt_root) (hx.encode reconstructed))
    ok reconstructed

  unfoldable pub verify : ed.VerifyingKey → EvidenceReceipt → AuditLedger V → Verified (Unit {0})
  verify pubkey receipt ledger = do
    reconstructed ← check_window receipt ledger
    check_signature pubkey receipt reconstructed
    check_inclusions ledger receipt.inclusions
