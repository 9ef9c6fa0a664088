-- ===== src/Tests/Receipts.antt =====
-- Runs of the receipt's theorems.
use epica.Prelude.{
  nat_eq, string_eq, list_eq, replicate, ◌>>=◌, ◌≡◌, refl, ◌⊎◌, some, [], ◌∷◌, arith, ok,
}
use epica.Ledger.Binding.{self_hashes}
use epica.Ledger.Collision.{Collision}
use epica.Receipt.Prover.{
  SealOptions, seal_with_options, sealed_receipt, window_merkle_root, window,
}
use epica.Receipt.Verifier.{from_receipt, verify}
use epica.Receipt.RoundTrip.{verify-seal, verify-sealed_receipt}
use epica.Receipt.Pin.{Attests, verify-Attests, verify-pins}
use epica.Receipt.Binding.{Bound, IsInRange, receipt_binding-injective}
use epica.Receipt.Window.{window_merkle_root_lem}
use epica.Ledger.Merkle.{root_of}
use epica.Receipt.Wire.{EvidenceReceipt}
use epica.Tests.Instances.{toy_hash, toy_hex, toy_ed}
use epica.Tests.Ledgers.{plain}

abbrev options : SealOptions
options = record { label = some "quarter"; inclusions = 1 ∷ 9 ∷ [] }

abbrev sealed : EvidenceReceipt
sealed = sealed_receipt 7 plain 0 1 options 42

seals : seal_with_options 7 plain 0 1 options 42 ≡ ok sealed
unfolding seal_with_options
seals = refl

verify-seal_example : (do vk ← from_receipt sealed; verify vk sealed plain) ≡ ok tt
verify-seal_example = verify-seal 7 plain 0 1 options 42 (refl, (refl, (refl, tt))) seals

accepted : verify 7 sealed plain ≡ ok tt
accepted =
    verify-sealed_receipt 7 plain 0 1 options 42 (refl, (refl, (refl, tt))) (omega arith)
      (omega arith)

verify-Attests_example : Attests 7 sealed plain
verify-Attests_example = verify-Attests 7 sealed plain accepted

verify-pins_example : (self_hashes (window plain 0 1) ≡ self_hashes (window plain 0 1)) ⊎ Collision
unfolding sealed_receipt
verify-pins_example = verify-pins 7 7 sealed plain plain accepted accepted

abbrev small : Bound
small = record {
  merkle_root = replicate 32 5;
  start_seq = 0;
  end_seq = 1;
  ledger_len = 3;
  prover_pubkey = replicate 32 7;
  schema_version = 1;
}

small-IsInRange : IsInRange small
small-IsInRange = record {
  root = refl;
  start = omega arith;
  stop = omega arith;
  len = omega arith;
  key = refl;
  version = omega arith;
}

receipt_binding-injective_example : (small ≡ small) ⊎ Collision
receipt_binding-injective_example =
    receipt_binding-injective small small small-IsInRange small-IsInRange refl

window_merkle_root_lem_example : window_merkle_root plain 1 2 ≡ root_of (window plain 1 2)
window_merkle_root_lem_example = window_merkle_root_lem plain 1 2 (omega arith) (omega arith)
