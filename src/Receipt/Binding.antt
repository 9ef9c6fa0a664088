-- ===== src/Receipt/Binding.antt =====
-- crates/epica-zk-evidence/src/receipt.rs: the signing payload is unambiguous.
use epica.Prelude.{
  nat_eq, string_eq, list_eq, length, ℕ, zero, suc, ◌/◌, ◌%◌, ◌^◌, ◌<◌, ◌≡◌, refl, sym, ap, ◌∙◌,
  ◌⊎◌, inl, inr, ◌++◌, arith,
}
use native.Mathlib.Nat.{pow-suc}
use epica.Ledger.Defs.{Bytes, Blake3}
use epica.Ledger.Collision.{Collision, hash_cases, append_injective}
use epica.Receipt.Wire.{to_le_bytes, receipt_domain, binding_bytes, receipt_binding}

length-to_le_bytes : (w x : ℕ) → length (to_le_bytes w x) ≡ w
unfolding to_le_bytes
length-to_le_bytes zero x = refl
length-to_le_bytes (suc w) x = ap suc (length-to_le_bytes w (x / 256))

to_le_bytes_injective :
    (w x y : ℕ) → x < 256 ^ w → y < 256 ^ w → to_le_bytes w x ≡ to_le_bytes w y → x ≡ y
unfolding to_le_bytes
to_le_bytes_injective zero x y p q h = omega arith
to_le_bytes_injective (suc w) x y p q h =
    let low : x % 256 ≡ y % 256 = ground (arith, h) in
    let high : x / 256 ≡ y / 256 =
      to_le_bytes_injective w (x / 256) (y / 256) (omega (arith, pow-suc 256 w))
        (omega (arith, pow-suc 256 w)) (ground (arith, h)) in
    omega arith

-- The values that a receipt binds, in the ranges of their Rust types.
pub record Bound : Type 0 where
  pub merkle_root : Bytes
  pub start_seq : ℕ
  pub end_seq : ℕ
  pub ledger_len : ℕ
  pub prover_pubkey : Bytes
  pub schema_version : ℕ

pub record IsInRange (b : Bound) : Type 0 where
  pub root : length b.merkle_root ≡ 32
  pub start : b.start_seq < 256 ^ 8
  pub stop : b.end_seq < 256 ^ 8
  pub len : b.ledger_len < 256 ^ 8
  pub key : length b.prover_pubkey ≡ 32
  pub version : b.schema_version < 256 ^ 4

abbrev pub bytes_of : Bound → Bytes
bytes_of b =
    binding_bytes b.merkle_root b.start_seq b.end_seq b.ledger_len b.prover_pubkey b.schema_version

le_split :
    (w x y : ℕ) {r s : Bytes}
    → x < 256 ^ w
    → y < 256 ^ w
    → to_le_bytes w x ++ r ≡ to_le_bytes w y ++ s
    → (x ≡ y) × (r ≡ s)
le_split w x y p q h =
    let parts =
      append_injective (to_le_bytes w x) (to_le_bytes w y)
        (length-to_le_bytes w x ∙ sym (length-to_le_bytes w y)) h in
    (to_le_bytes_injective w x y p q parts.0, parts.1)

binding_bytes_injective :
    (a b : Bound) → IsInRange a → IsInRange b → bytes_of a ≡ bytes_of b → a ≡ b
unfolding binding_bytes
binding_bytes_injective a b p q h =
    let (_, h1) = append_injective receipt_domain receipt_domain refl h in
    let (root, h2) = append_injective a.merkle_root b.merkle_root (p.root ∙ sym q.root) h1 in
    let (start, h3) = le_split 8 a.start_seq b.start_seq p.start q.start h2 in
    let (stop, h4) = le_split 8 a.end_seq b.end_seq p.stop q.stop h3 in
    let (len, h5) = le_split 8 a.ledger_len b.ledger_len p.len q.len h4 in
    let (key, h6) = append_injective a.prover_pubkey b.prover_pubkey (p.key ∙ sym q.key) h5 in
    let version =
      to_le_bytes_injective 4 a.schema_version b.schema_version p.version q.version h6 in
    λ i. record {
      merkle_root = root i;
      start_seq = start i;
      end_seq = stop i;
      ledger_len = len i;
      prover_pubkey = key i;
      schema_version = version i;
    }

module _ ⦃b3 : Blake3⦄ where
  abbrev pub binding_of : Bound → Bytes
  binding_of b =
      receipt_binding b.merkle_root b.start_seq b.end_seq b.ledger_len b.prover_pubkey
        b.schema_version

  -- Two signing payloads with the same digest have the same root, window, ledger length, key and
  -- version, provided that the roots and keys are 32 bytes and the numbers fit their fields, or a
  -- hash collision is exhibited.
  pub receipt_binding-injective :
      (a b : Bound) → IsInRange a → IsInRange b → binding_of a ≡ binding_of b → (a ≡ b) ⊎ Collision
  unfolding receipt_binding
  receipt_binding-injective a b p q h = elim (hash_cases (bytes_of a) (bytes_of b) h) [
    | inl same ↦ inl (binding_bytes_injective a b p q same)
    | inr c ↦ inr c
  ]
