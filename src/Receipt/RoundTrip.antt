-- ===== src/Receipt/RoundTrip.antt =====
-- crates/epica-zk-evidence/src: what the prover seals, the verifier accepts.
use epica.Ledger.Inclusion.{merkle_proof-verifies}
use epica.Prelude.{
  ltb, leb, nat_eq, string_eq, ==_refl, list_eq, Bool-cases, Option-cases, some_inj, length,
  get_elem?, ◌>>=◌, map_err, collect, ok_inj, ℕ, zero, suc, ◌/◌, ◌≤◌, ◌<◌, String, ◌≡◌, refl, sym,
  ap, ◌∙◌, subst, inl, inr, false, ◌||◌, some, List, [], ◌∷◌, map, arith, ok,
}
use epica.Ledger.Defs.{Bytes, Blake3, AuditLedger, LedgerEntry}
use epica.Ledger.Merkle.{sibling_index, reduce, proof_loop, leaves, merkle_proof}
use epica.Ledger.Reduce.{AllDigests, AllDigests-reduce, length-get_or}
use epica.Ledger.Binding.{AllDigests-leaves, self_hashes}
use epica.Receipt.Wire.{
  Hex, Ed25519, decode_fixed_hex-encode, MerkleInclusionProof, EvidenceReceipt,
  receipt_schema_version,
}
use epica.Receipt.Prover.{
  window_merkle_root, prove_inclusion, prove_inclusions, seal_with_options, SealOptions,
  sealed_receipt,
}
use epica.Receipt.Verifier.{
  decode, decoded, check_leaf, check_inclusion, check_window, check_inclusions, from_receipt,
  verify, check_signature,
}
use epica.Receipt.Window.{length-root_of, window_merkle_root_lem}

module _ ⦃b3 : Blake3⦄ where
  AllDigests-proof_loop :
      (fuel : ℕ) (level : List Bytes) (path : ℕ)
      → AllDigests level
      → AllDigests (proof_loop fuel level path)
  unfolding proof_loop
  AllDigests-proof_loop zero level path d = tt
  AllDigests-proof_loop (suc fuel) level path d = elim (Bool-cases (ltb 1 (length level))) [
    | inl t ↦ rw t (
      length-get_or level (sibling_index path (length level)) d,
      AllDigests-proof_loop fuel (reduce level) (path / 2) (AllDigests-reduce level),
    )
    | inr t ↦ rw t tt
  ]

module _ {V : Type 0} ⦃b3 : Blake3⦄ where
  AllDigests-merkle_proof :
      (l : AuditLedger V) (seq : ℕ) {proof : List Bytes}
      → merkle_proof l seq ≡ some proof
      → AllDigests proof
  unfolding merkle_proof
  AllDigests-merkle_proof l seq {proof} h = elim (Bool-cases (leb (length l.entries) seq)) [
    | inl t ↦ absurd (ground (arith, t, h))
    | inr t ↦
        let same : proof_loop (length l.entries) (leaves l.entries) seq ≡ proof =
          ground (arith, t, h) in
        subst AllDigests same (
          AllDigests-proof_loop (length l.entries) (leaves l.entries) seq
            (AllDigests-leaves l.entries))
  ]

  length-window_merkle_root :
      (l : AuditLedger V) (s e : ℕ)
      → s ≤ e
      → e < length l.entries
      → length (window_merkle_root l s e) ≡ 32
  length-window_merkle_root l s e h g = rw (window_merkle_root_lem l s e h g) (length-root_of _)

module _ ⦃hx : Hex⦄ ⦃ed : Ed25519⦄ where
  decoded-encode :
      (b : Bytes) (n : ℕ) (field : String) → length b ≡ n → decoded n (hx.encode b) field ≡ ok b
  decoded-encode b n field h = ap (map_err decode) (decode_fixed_hex-encode b n field h)

module _ ⦃b3 : Blake3⦄ ⦃hx : Hex⦄ ⦃ed : Ed25519⦄ where
  collect-encode :
      (proof : List Bytes) (field : String)
      → AllDigests proof
      → collect (λ s. decoded 32 s field) (map hx.encode proof) ≡ ok proof
  collect-encode [] field d = refl
  collect-encode (p ∷ proof) field d =
      rw (decoded-encode p 32 field d.0) (rw (collect-encode proof field d.1))

module _ {V : Type 0} ⦃b3 : Blake3⦄ ⦃hx : Hex⦄ ⦃ed : Ed25519⦄ where
  digest_at :
      (es : List (LedgerEntry V)) (i : ℕ) {e : LedgerEntry V}
      → AllDigests (self_hashes es)
      → get_elem? es i ≡ some e
      → length e.self_hash ≡ 32
  digest_at [] i d h = cc
  digest_at (x ∷ es) zero d h =
      ap (λ (e : LedgerEntry V). length e.self_hash) (sym (some_inj h)) ∙ d.0
  digest_at (x ∷ es) (suc i) d h = digest_at es i d.1 h

  check_leaf-proved :
      (l : AuditLedger V) (seq : ℕ) (proof : List Bytes) (e : LedgerEntry V)
      → AllDigests (self_hashes l.entries)
      → get_elem? l.entries seq ≡ some e
      → merkle_proof l seq ≡ some proof
      → check_leaf l
          (record {
            seq = seq;
            self_hash_hex = hx.encode e.self_hash;
            path_hex = map hx.encode proof;
          })
          e
        ≡ ok tt
  unfolding check_leaf
  check_leaf-proved l seq proof e d h p =
      let (proof', found, passes) = merkle_proof-verifies l seq h in
      let same : proof' ≡ proof = some_inj (sym found ∙ p) in
      rw (decoded-encode e.self_hash 32 "inclusion.self_hash_hex" (digest_at l.entries seq d h)) (
        rw (==_refl e.self_hash) (
          rw (collect-encode proof "inclusion.path" (AllDigests-merkle_proof l seq p))
            (rw (← same, passes) refl)))

  check_inclusion-proved :
      (l : AuditLedger V) (seq : ℕ) {p : MerkleInclusionProof}
      → AllDigests (self_hashes l.entries)
      → prove_inclusion l seq ≡ some p
      → check_inclusion l p ≡ ok tt
  unfolding prove_inclusion check_inclusion
  check_inclusion-proved l seq {p} d h = elim (Option-cases (merkle_proof l seq)) [
    | inl none_found ↦ absurd (ground (arith, none_found, h))
    | inr (proof, found) ↦ elim (Option-cases (get_elem? l.entries seq)) [
      | inl no_entry ↦ absurd (ground (arith, found, no_entry, h))
      | inr (e, here) ↦
          subst (λ q. check_inclusion l q ≡ ok tt)
            (some_inj (rw (found, here, prove_inclusion) at h))
            (rw (here, check_inclusion) (check_leaf-proved l seq proof e d here found))
    ]
  ]

  check_inclusions-proved :
      (l : AuditLedger V) (seqs : List ℕ)
      → AllDigests (self_hashes l.entries)
      → check_inclusions l (prove_inclusions l seqs) ≡ ok tt
  unfolding prove_inclusions check_inclusions
  check_inclusions-proved l [] d = refl
  check_inclusions-proved l (seq ∷ seqs) d = elim (Option-cases (prove_inclusion l seq)) [
    | inl skipped ↦ rw (skipped, prove_inclusions) (check_inclusions-proved l seqs d)
    | inr (p, found) ↦
        rw (found, prove_inclusions, check_inclusions)
          (rw (check_inclusion-proved l seq d found) (check_inclusions-proved l seqs d))
  ]

  check_window-sealed :
      (l : AuditLedger V) (r : EvidenceReceipt)
      → r.meta.schema_version ≡ receipt_schema_version
      → r.ledger_len ≡ length l.entries
      → r.start_seq ≤ r.end_seq
      → r.end_seq < length l.entries
      → r.merkle_root_hex ≡ hx.encode (window_merkle_root l r.start_seq r.end_seq)
      → check_window r l ≡ ok (window_merkle_root l r.start_seq r.end_seq)
  unfolding check_window
  check_window-sealed l r version len from to root =
      let within : (ltb r.end_seq r.start_seq || leb (length l.entries) r.end_seq) ≡ false =
        ground arith in
      rw (version, len, ==_refl (length l.entries))
        (rw (within, root)
          (rw
            (decoded-encode (window_merkle_root l r.start_seq r.end_seq) 32 "merkle_root_hex"
              (length-window_merkle_root l r.start_seq r.end_seq from to))
            (rw (==_refl (window_merkle_root l r.start_seq r.end_seq)) refl)))

  from_receipt-sealed :
      (signing : ed.SigningKey) (l : AuditLedger V) (s e : ℕ) (opts : SealOptions) (now : ℕ)
      → from_receipt (sealed_receipt signing l s e opts now) ≡ ok (ed.verifying_key signing)
  unfolding from_receipt sealed_receipt
  from_receipt-sealed signing l s e opts now =
      rw (decoded-encode _ 32 "prover_pubkey_hex" (ed.length-to_bytes (ed.verifying_key signing)))
        (rw (ed.from_bytes-to_bytes (ed.verifying_key signing)) refl)

  check_signature-sealed :
      (signing : ed.SigningKey) (l : AuditLedger V) (s e : ℕ) (opts : SealOptions) (now : ℕ)
      → check_signature
          (ed.verifying_key signing)
          (sealed_receipt signing l s e opts now)
          (window_merkle_root l s e)
        ≡ ok tt
  unfolding check_signature sealed_receipt
  check_signature-sealed signing l s e opts now =
      rw (decoded-encode _ 32 "prover_pubkey_hex" (ed.length-to_bytes (ed.verifying_key signing))) (
        rw (decoded-encode _ 64 "signature_hex" (ed.length-sign signing _))
          (rw (ed.verify-sign signing _) refl))

  check_window-sealed_receipt :
      (signing : ed.SigningKey) (l : AuditLedger V) (s e : ℕ) (opts : SealOptions) (now : ℕ)
      → s ≤ e
      → e < length l.entries
      → check_window (sealed_receipt signing l s e opts now) l ≡ ok (window_merkle_root l s e)
  unfolding sealed_receipt
  check_window-sealed_receipt signing l s e opts now from to =
      check_window-sealed l _ refl refl from to refl

  check_inclusions-sealed_receipt :
      (signing : ed.SigningKey) (l : AuditLedger V) (s e : ℕ) (opts : SealOptions) (now : ℕ)
      → AllDigests (self_hashes l.entries)
      → check_inclusions l (sealed_receipt signing l s e opts now).inclusions ≡ ok tt
  unfolding sealed_receipt
  check_inclusions-sealed_receipt signing l s e opts now d =
      check_inclusions-proved l opts.inclusions d

  pub verify-sealed_receipt :
      (signing : ed.SigningKey) (l : AuditLedger V) (s e : ℕ) (opts : SealOptions) (now : ℕ)
      → AllDigests (self_hashes l.entries)
      → s ≤ e
      → e < length l.entries
      → verify (ed.verifying_key signing) (sealed_receipt signing l s e opts now) l ≡ ok tt
  unfolding verify
  verify-sealed_receipt signing l s e opts now d from to =
      rw (check_window-sealed_receipt signing l s e opts now from to) (
        rw (check_signature-sealed signing l s e opts now)
          (check_inclusions-sealed_receipt signing l s e opts now d))

  -- A receipt that `seal_with_options` gives for a window of a ledger whose entry hashes are 32
  -- bytes each is accepted against that ledger by the verifier that is made from the receipt.
  pub verify-seal :
      (signing : ed.SigningKey) (l : AuditLedger V) (start_seq end_seq : ℕ) (opts : SealOptions)
      (now : ℕ) {r : EvidenceReceipt}
      → AllDigests (self_hashes l.entries)
      → seal_with_options signing l start_seq end_seq opts now ≡ ok r
      → (do vk ← from_receipt r; verify vk r l) ≡ ok tt
  unfolding seal_with_options
  verify-seal signing l s e opts now {r} d h =
      elim (Bool-cases (ltb e s || leb (length l.entries) e)) [
        | inl bad ↦ absurd (ground (arith, bad, h))
        | inr within ↦
            subst (λ x. (do vk ← from_receipt x; verify vk x l) ≡ ok tt) (ok_inj (rw within at h))
              (rw (from_receipt-sealed signing l s e opts now)
                (verify-sealed_receipt signing l s e opts now d (ground arith) (ground arith)))
      ]
