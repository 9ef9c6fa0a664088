-- ===== src/Receipt/Pin.antt =====
-- crates/epica-zk-evidence/src/verifier.rs: what an accepted receipt says of the ledger.
use epica.Receipt.Window.{length-window, window_merkle_root_lem}
use epica.Ledger.Collision.{Collision}
use epica.Ledger.Binding.{self_hashes, root_of-binds}
use epica.Prelude.{
  nat_eq, string_eq, list_beq_iff, list_eq, length, >>=-eq-ok, map_err-eq-ok, ok_inj, Result-cases,
  ◌≤◌, ◌<◌, ◌≡◌, refl, sym, ap, ◌∙◌, subst, ◌⊎◌, inl, inr, Bool, true, false, arith, ok,
}
use epica.Ledger.Defs.{Bytes, Blake3, AuditLedger}
use epica.Receipt.Wire.{Hex, Ed25519, EvidenceReceipt, receipt_schema_version, receipt_binding}
use epica.Receipt.Prover.{window_merkle_root, window}
use epica.Receipt.Verifier.{
  VerificationError, decoded, reject_if, check_window, verify, check_signature, signature,
}

module _ ⦃hx : Hex⦄ ⦃ed : Ed25519⦄ where
  reject_if-eq-ok :
      (b : Bool) (e : VerificationError) {u : Unit {0}} → reject_if b e ≡ ok u → b ≡ false
  reject_if-eq-ok true e h = cc
  reject_if-eq-ok false e h = refl

module _ ⦃b3 : Blake3⦄ ⦃hx : Hex⦄ ⦃ed : Ed25519⦄ where
  check_signature-signed :
      (pubkey : ed.VerifyingKey) (r : EvidenceReceipt) (root : Bytes)
      → check_signature pubkey r root ≡ ok tt
      → (key : Bytes) × (sig : Bytes) × (decoded 32 r.prover_pubkey_hex "prover_pubkey_hex"
          ≡ ok key)
        × (decoded 64 r.signature_hex "signature_hex" ≡ ok sig)
        × (ed.verify pubkey
              (receipt_binding root r.start_seq r.end_seq r.ledger_len key r.meta.schema_version)
              sig
            ≡ ok tt)
  unfolding check_signature
  check_signature-signed pubkey r root h =
      let (key, k, h1) = >>=-eq-ok (decoded 32 r.prover_pubkey_hex "prover_pubkey_hex") _ h in
      let (sig, s, h2) = >>=-eq-ok (decoded 64 r.signature_hex "signature_hex") _ h1 in
      (key, sig, k, s, map_err-eq-ok signature _ h2)

module _ {V : Type 0} ⦃b3 : Blake3⦄ ⦃hx : Hex⦄ ⦃ed : Ed25519⦄ where
  -- What layers 1 to 3 have established.
  pub record Attests (pubkey : ed.VerifyingKey) (r : EvidenceReceipt) (l : AuditLedger V)
      : Type 0 where
    pub version : r.meta.schema_version ≡ receipt_schema_version
    pub len : r.ledger_len ≡ length l.entries
    pub ordered : r.start_seq ≤ r.end_seq
    pub within : r.end_seq < length l.entries
    pub root :
        decoded 32 r.merkle_root_hex "merkle_root_hex"
        ≡ ok (window_merkle_root l r.start_seq r.end_seq)
    pub signed :
        (key : Bytes) × (sig : Bytes) × (decoded 32 r.prover_pubkey_hex "prover_pubkey_hex"
          ≡ ok key)
        × (decoded 64 r.signature_hex "signature_hex" ≡ ok sig)
        × (ed.verify pubkey
              (receipt_binding
                (window_merkle_root l r.start_seq r.end_seq)
                r.start_seq
                r.end_seq
                r.ledger_len
                key
                r.meta.schema_version)
              sig
            ≡ ok tt)

  check_window-Attests :
      (r : EvidenceReceipt) (l : AuditLedger V) {root : Bytes}
      → check_window r l ≡ ok root
      → (r.meta.schema_version ≡ receipt_schema_version)
        × (r.ledger_len ≡ length l.entries)
        × (r.start_seq ≤ r.end_seq)
        × (r.end_seq < length l.entries)
        × (root ≡ window_merkle_root l r.start_seq r.end_seq)
        × (decoded 32 r.merkle_root_hex "merkle_root_hex" ≡ ok root)
  unfolding check_window
  check_window-Attests r l {root} h = (
    ground arith,
    ground arith,
    ground arith,
    ground arith,
    ground arith,
    elim (Result-cases (decoded 32 r.merkle_root_hex "merkle_root_hex")) [
      | inl (declared, e) ↦
          ground (arith, e, list_beq_iff (window_merkle_root l r.start_seq r.end_seq) declared)
      | inr (_, e) ↦ absurd (ground (arith, e, h))
    ],
  )

  -- A receipt that the verifier accepts has the schema version in use and the length of the ledger,
  -- has its window within the ledger, declares the root of that window, and carries a signature on
  -- that root that the verifier's key accepts.
  pub verify-Attests :
      (pubkey : ed.VerifyingKey) (r : EvidenceReceipt) (l : AuditLedger V)
      → verify pubkey r l ≡ ok tt
      → Attests pubkey r l
  unfolding verify
  verify-Attests pubkey r l h =
      let (root, w, h1) = >>=-eq-ok (check_window r l) _ h in
      let (_, s, h2) = >>=-eq-ok (check_signature pubkey r root) _ h1 in
      let facts = check_window-Attests r l w in
      record {
        version = facts.0;
        len = facts.1;
        ordered = facts.2;
        within = facts.3;
        root = facts.5 ∙ ap ok facts.4;
        signed =
            subst
              (λ x.
                (key : Bytes) × (sig : Bytes) × (decoded 32 r.prover_pubkey_hex "prover_pubkey_hex"
                  ≡ ok key)
                × (decoded 64 r.signature_hex "signature_hex" ≡ ok sig)
                × (ed.verify pubkey
                      (receipt_binding x r.start_seq r.end_seq r.ledger_len key
                        r.meta.schema_version)
                      sig
                    ≡ ok tt))
              facts.4 (check_signature-signed pubkey r root s);
      }

  -- Two ledgers against which one receipt is accepted, under whichever keys, have the same entry
  -- hashes throughout the window of the receipt, or a hash collision is exhibited.
  pub verify-pins :
      (pubkey pubkey' : ed.VerifyingKey) (r : EvidenceReceipt) (l m : AuditLedger V)
      → verify pubkey r l ≡ ok tt
      → verify pubkey' r m ≡ ok tt
      → (self_hashes (window l r.start_seq r.end_seq)
          ≡ self_hashes (window m r.start_seq r.end_seq))
        ⊎ Collision
  verify-pins pubkey pubkey' r l m v w =
      let a = verify-Attests pubkey r l v in
      let b = verify-Attests pubkey' r m w in
      root_of-binds (window l r.start_seq r.end_seq) (window m r.start_seq r.end_seq)
        (length-window l _ _ a.ordered a.within ∙ sym (length-window m _ _ b.ordered b.within))
        (sym (window_merkle_root_lem l _ _ a.ordered a.within)
          ∙ ok_inj (sym a.root ∙ b.root)
          ∙ window_merkle_root_lem m _ _ b.ordered b.within)
