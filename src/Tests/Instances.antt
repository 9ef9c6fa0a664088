-- ===== src/Tests/Instances.antt =====
-- Small instances of the hash, the codecs and the signatures.
use epica.Ledger.Defs.{Blake3, Bytes, EntryEncoder}
use epica.Receipt.Wire.{Ed25519, Hex}
use epica.Prelude.{
  nat_beq, if◌then◌else◌, ◌==◌, nat_eq, string_eq, ==_refl, list_eq, length, take, replicate,
  length-append, length-take, length-replicate, Result, ℕ, zero, suc, ◌+◌, ◌≡◌, refl, ap, ap₂, ◌∙◌,
  some, List, [], ◌∷◌, ◌++◌, arith, ok, err,
}
use Prim.Native.Char.{Char, code}
use text.Mathlib.TextBridge.{to_list, of_list, to_list-of_list}

abbrev pub pad : ℕ → Bytes → Bytes
pad n m = take n (m ++ replicate n 0)

pub length-pad : (n : ℕ) (m : Bytes) → length (pad n m) ≡ n
length-pad n m = ground (
  arith,
  length-take n (m ++ replicate n 0),
  length-append m (replicate n 0),
  length-replicate {A = ℕ} n 0,
)

instance abbrev pub toy_hash : Blake3
toy_hash = record { hash = pad 32; length-hash = length-pad 32 }

instance abbrev pub toy_encoder : EntryEncoder ℕ
toy_encoder = record { to_vec = λ e. some (e.timestamp_ms ∷ e.details ∷ []) }

abbrev pub spell : Bytes → List Char
spell [] = []
spell (n ∷ ns) = replicate n "a" ++ "b" ∷ spell ns

abbrev pub read : ℕ → List Char → Bytes
read k [] = []
read k (c ∷ cs) =
    let more = read (suc k) cs in
    let rest = read 0 cs in if nat_beq (code c) 97 then more else k ∷ rest

read-run : (n k : ℕ) (cs : List Char) → read k (replicate n "a" ++ "b" ∷ cs) ≡ (n + k) ∷ read 0 cs
read-run zero k cs = let e : k ≡ 0 + k = omega arith in ap (λ x. x ∷ read 0 cs) e
read-run (suc n) k cs =
    let e : n + suc k ≡ suc n + k = omega arith in read-run n (suc k) cs ∙ ap (λ x. x ∷ read 0 cs) e

pub read-spell : (b : Bytes) → read 0 (spell b) ≡ b
read-spell [] = refl
read-spell (n ∷ ns) = read-run n 0 (spell ns) ∙ ap₂ (◌∷◌) (omega arith) (read-spell ns)

instance abbrev pub toy_hex : Hex
toy_hex = record {
  FromHexError = Unit;
  encode = λ b. of_list (spell b);
  decode = λ s. ok (read 0 (to_list s));
  decode-encode = λ b. ap ok (ap (read 0) (to_list-of_list (spell b)) ∙ read-spell b);
}

abbrev pub head_or_zero : Bytes → ℕ
head_or_zero [] = 0
head_or_zero (n ∷ _) = n

abbrev pub toy_sign : ℕ → Bytes → Bytes
toy_sign k m = pad 64 (k ∷ m)

abbrev pub toy_verify : ℕ → Bytes → Bytes → Result ℕ (Unit {0})
toy_verify k m s = if s == toy_sign k m then ok tt else err 0

pub toy_verify-sign : (k : ℕ) (m : Bytes) → toy_verify k m (toy_sign k m) ≡ ok tt
toy_verify-sign k m = rw (==_refl (toy_sign k m)) refl

abbrev pub key_of : Bytes → Result ℕ ℕ
key_of [] = err 0
key_of (n ∷ _) = ok n

instance abbrev pub toy_ed : Ed25519
toy_ed = record {
  SigningKey = ℕ;
  VerifyingKey = ℕ;
  SignatureError = ℕ;
  secret_from_bytes = head_or_zero;
  secret_to_bytes = λ k. k ∷ replicate 31 0;
  verifying_key = λ k. k;
  to_bytes = λ k. k ∷ replicate 31 0;
  from_bytes = key_of;
  sign = toy_sign;
  verify = toy_verify;
  length-to_bytes = λ k. refl;
  length-sign = λ k m. length-pad 64 (k ∷ m);
  from_bytes-to_bytes = λ k. refl;
  verify-sign = toy_verify-sign;
}
