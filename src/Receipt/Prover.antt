-- ===== src/Receipt/Prover.antt =====
-- crates/epica-zk-evidence/src/prover.rs: sealing a window of the ledger. The module writes the
-- Merkle reduction out once more, and so does the model.
use epica.Prelude.{
  ltb, leb, if◌then◌else◌, ◌==◌, nat_eq, string_eq, list_eq, length, get_elem?, get_or, take, drop,
  Result, ℕ, zero, suc, ◌+◌, ◌-◌, String, ◌||◌, Option, none, some, List, [], ◌∷◌, ◌++◌, map, ok,
  err,
}
use epica.Ledger.Defs.{Bytes, Blake3, LedgerEntry, AuditLedger, zero_digest}
use epica.Ledger.Merkle.{merkle_proof}
use epica.Receipt.Wire.{
  Hex, Ed25519, MerkleInclusionProof, EvidenceReceipt, receipt_schema_version, receipt_binding,
}

pub data ProverError : Type 0 where
  invalid_range : ℕ → ℕ → ℕ → ProverError
  secret_key_length : ℕ → ℕ → ProverError

pub record SealOptions : Type 0 where
  pub label : Option String
  pub inclusions : List ℕ

module _ ⦃b3 : Blake3⦄ where
  -- One round of the inlined reduction.
  unfoldable pub window_reduce : List Bytes → List Bytes
  window_reduce [] = []
  window_reduce (l ∷ []) = b3.hash (1 ∷ l ++ l) ∷ []
  window_reduce (l ∷ r ∷ rest) = b3.hash (1 ∷ l ++ r) ∷ window_reduce rest

  -- `while level.len() > 1`, on the length of the first level as fuel.
  unfoldable pub window_loop : ℕ → List Bytes → List Bytes
  window_loop zero level = level
  window_loop (suc fuel) level =
      let next = window_loop fuel (window_reduce level) in
      if ltb 1 (length level) then next else level

module _ {V : Type 0} where
  -- `ledger.entries()[s..=e]`
  unfoldable pub window : AuditLedger V → ℕ → ℕ → List (LedgerEntry V)
  window ledger s e = take (e + 1 - s) (drop s ledger.entries)

module _ {V : Type 0} ⦃b3 : Blake3⦄ where
  unfoldable pub window_merkle_root : AuditLedger V → ℕ → ℕ → Bytes
  unfolding window window_loop
  window_merkle_root ledger s e =
      if leb (length ledger.entries) e || ltb e s
      then zero_digest
      else (let level =
            map (λ (x : LedgerEntry V). b3.hash (0 ∷ x.self_hash)) (window ledger s e) in
          get_or (window_loop (length level) level) 0 zero_digest)

module _ {V : Type 0} ⦃b3 : Blake3⦄ ⦃hx : Hex⦄ where
  unfoldable pub prove_inclusion : AuditLedger V → ℕ → Option MerkleInclusionProof
  prove_inclusion ledger seq = elim (merkle_proof ledger seq) [
    | none ↦ none
    | some proof ↦ elim (get_elem? ledger.entries seq) [
      | none ↦ none
      | some entry ↦ some (record {
        seq = seq;
        self_hash_hex = hx.encode entry.self_hash;
        path_hex = map hx.encode proof;
      })
    ]
  ]

  -- `opts.inclusions.iter().filter_map(…)`
  unfoldable pub prove_inclusions : AuditLedger V → List ℕ → List MerkleInclusionProof
  unfolding prove_inclusion
  prove_inclusions ledger [] = []
  prove_inclusions ledger (seq ∷ seqs) = elim (prove_inclusion ledger seq) [
    | none ↦ prove_inclusions ledger seqs
    | some p ↦ p ∷ prove_inclusions ledger seqs
  ]

module _ {V : Type 0} ⦃b3 : Blake3⦄ ⦃hx : Hex⦄ ⦃ed : Ed25519⦄ where
  -- The receipt that is returned once the range is found valid; `now` is the clock's reading.
  unfoldable pub sealed_receipt :
      ed.SigningKey → AuditLedger V → ℕ → ℕ → SealOptions → ℕ → EvidenceReceipt
  sealed_receipt signing ledger start_seq end_seq opts now =
      let ledger_len = length ledger.entries in
      let merkle_root = window_merkle_root ledger start_seq end_seq in
      let pubkey = ed.to_bytes (ed.verifying_key signing) in
      let binding =
        receipt_binding merkle_root start_seq end_seq ledger_len pubkey receipt_schema_version in
      record {
        meta = record {
          label = opts.label;
          sealed_at_ms = now;
          schema_version = receipt_schema_version;
        };
        merkle_root_hex = hx.encode merkle_root;
        start_seq = start_seq;
        end_seq = end_seq;
        ledger_len = ledger_len;
        prover_pubkey_hex = hx.encode pubkey;
        signature_hex = hx.encode (ed.sign signing binding);
        inclusions = prove_inclusions ledger opts.inclusions;
      }

  unfoldable pub seal_with_options :
      ed.SigningKey → AuditLedger V → ℕ → ℕ → SealOptions → ℕ → Result ProverError EvidenceReceipt
  seal_with_options signing ledger start_seq end_seq opts now =
      let ledger_len = length ledger.entries in
      if ltb end_seq start_seq || leb ledger_len end_seq
      then err (invalid_range start_seq end_seq ledger_len)
      else ok (sealed_receipt signing ledger start_seq end_seq opts now)

  unfoldable pub seal :
      ed.SigningKey → AuditLedger V → ℕ → ℕ → ℕ → Result ProverError EvidenceReceipt
  unfolding seal_with_options
  seal signing ledger start_seq end_seq now =
      seal_with_options signing ledger start_seq end_seq (record { label = none; inclusions = [] })
        now

module _ ⦃ed : Ed25519⦄ where
  -- `Ed25519Prover::from_secret_bytes`
  unfoldable pub from_secret_bytes : Bytes → Result ProverError ed.SigningKey
  from_secret_bytes bytes =
      if length bytes == 32
      then ok (ed.secret_from_bytes bytes)
      else err (secret_key_length 32 (length bytes))
