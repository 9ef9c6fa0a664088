-- ===== src/Receipt/Wire.antt =====
-- crates/epica-zk-evidence/src/receipt.rs: the receipt, its signing payload and the decoding of
-- its fields. The crates `hex` and `ed25519_dalek` are instance arguments, with what they document.
use epica.Prelude.{
  if◌then◌else◌, ◌==◌, nat_eq, string_eq, list_eq, length, Result, ◌>>=◌, map_err, ℕ, zero, suc,
  ◌/◌, ◌%◌, String, ◌≡◌, Option, List, [], ◌∷◌, ◌++◌, arith, ok, err,
}
use Prim.Native.Char.{code}
use epica.Ledger.Defs.{Bytes, Blake3}

-- The crate `hex`.
pub record Hex : Type 1 where
  pub FromHexError : Type 0
  pub encode : Bytes → String
  pub decode : String → Result FromHexError Bytes
  pub decode-encode : (b : Bytes) → decode (encode b) ≡ ok b

-- The crate `ed25519_dalek`.
pub record Ed25519 : Type 1 where
  pub SigningKey : Type 0
  pub VerifyingKey : Type 0
  pub SignatureError : Type 0
  pub secret_from_bytes : Bytes → SigningKey
  pub secret_to_bytes : SigningKey → Bytes
  pub verifying_key : SigningKey → VerifyingKey
  pub to_bytes : VerifyingKey → Bytes
  pub from_bytes : Bytes → Result SignatureError VerifyingKey
  pub sign : SigningKey → Bytes → Bytes
  pub verify : VerifyingKey → Bytes → Bytes → Result SignatureError (Unit {0})
  pub length-to_bytes : (k : VerifyingKey) → length (to_bytes k) ≡ 32
  pub length-sign : (k : SigningKey) (m : Bytes) → length (sign k m) ≡ 64
  pub from_bytes-to_bytes : (k : VerifyingKey) → from_bytes (to_bytes k) ≡ ok k
  pub verify-sign : (k : SigningKey) (m : Bytes) → verify (verifying_key k) m (sign k m) ≡ ok tt

pub record ReceiptMetadata : Type 0 where
  pub label : Option String
  pub sealed_at_ms : ℕ
  pub schema_version : ℕ

pub record MerkleInclusionProof : Type 0 where
  pub seq : ℕ
  pub self_hash_hex : String
  pub path_hex : List String

pub record EvidenceReceipt : Type 0 where
  pub meta : ReceiptMetadata
  pub merkle_root_hex : String
  pub start_seq : ℕ
  pub end_seq : ℕ
  pub ledger_len : ℕ
  pub prover_pubkey_hex : String
  pub signature_hex : String
  pub inclusions : List MerkleInclusionProof

abbrev pub receipt_schema_version : ℕ
receipt_schema_version = 1

module _ ⦃hx : Hex⦄ where
  pub data EvidenceReceiptError : Type 0 where
    hex : String → hx.FromHexError → EvidenceReceiptError
    invalid_length : String → ℕ → ℕ → EvidenceReceiptError

-- `x.to_le_bytes()` of an integer of `w` bytes.
unfoldable pub to_le_bytes : ℕ → ℕ → Bytes
to_le_bytes zero x = []
to_le_bytes (suc w) x = (x % 256) ∷ to_le_bytes w (x / 256)

abbrev pub ascii : String → Bytes
ascii String.[] = []
ascii (String.◌∷◌ c s) = code c ∷ ascii s

-- `b"epica-evidence-receipt-v1\0"`
abbrev pub receipt_domain : Bytes
receipt_domain = ascii "epica-evidence-receipt-v1" ++ 0 ∷ []

-- The bytes that are hashed: 26 + 32 + 8 + 8 + 8 + 32 + 4 of them.
unfoldable pub binding_bytes : Bytes → ℕ → ℕ → ℕ → Bytes → ℕ → Bytes
unfolding to_le_bytes
binding_bytes merkle_root start_seq end_seq ledger_len prover_pubkey schema_version =
    receipt_domain
    ++ (merkle_root
        ++ (to_le_bytes 8 start_seq
            ++ (to_le_bytes 8 end_seq
                ++ (to_le_bytes 8 ledger_len ++ (prover_pubkey ++ to_le_bytes 4 schema_version)))))

module _ ⦃b3 : Blake3⦄ where
  unfoldable pub receipt_binding : Bytes → ℕ → ℕ → ℕ → Bytes → ℕ → Bytes
  receipt_binding merkle_root start_seq end_seq ledger_len prover_pubkey schema_version =
      b3.hash (binding_bytes merkle_root start_seq end_seq ledger_len prover_pubkey schema_version)

-- `decode_fixed_hex::<n>(hex_str, field)`
module _ ⦃hx : Hex⦄ where
  unfoldable pub check_length : ℕ → String → Bytes → Result EvidenceReceiptError Bytes
  check_length n field raw =
      if length raw == n then ok raw else err (invalid_length field n (length raw))

  unfoldable pub decode_fixed_hex : ℕ → String → String → Result EvidenceReceiptError Bytes
  unfolding check_length
  decode_fixed_hex n hex_str field = do
    raw ← map_err (hex field) (hx.decode hex_str)
    check_length n field raw

  -- Decoding gives back what was encoded, if it has the length that the field asks for.
  pub decode_fixed_hex-encode :
      (b : Bytes) (n : ℕ) (field : String)
      → length b ≡ n
      → decode_fixed_hex n (hx.encode b) field ≡ ok b
  unfolding decode_fixed_hex
  decode_fixed_hex-encode b n field h = rw (hx.decode-encode b) (ground (arith, h))
