-- ===== src/Tests/Ledgers.antt =====
-- Runs of the audit ledger's theorems.
use epica.Prelude.{
  string_eq, nat_eq, list_eq, length, get_elem?, replicate, ℕ, ◌^◌, ◌≤◌, ◌<◌, ◌≡◌, refl, ◌↔◌, ◌⊎◌,
  true, none, some, List, [], ◌∷◌, map, ok, err,
}
use epica.Ledger.Chain.{
  IsChain, FirstBad, append_all, verify_chain-append_all, verify_chain_iff, verify_chain-err,
}
use epica.Ledger.Tamper.{SameSeals, same_head-SameSeals}
use epica.Ledger.Inclusion.{merkle_proof-verifies}
use epica.Ledger.Sound.{verify_merkle_proof_sound}
use epica.Ledger.Binding.{self_hashes, merkle_root-binds}
use epica.Ledger.Size.{length-merkle_proof}
use epica.Ledger.Collision.{Collision}
use epica.Tests.Instances.{toy_hash, toy_encoder}
use epica.Ledger.Defs.{
  AuditEntry, AuditLedger, LedgerEntry, belief_write, zero_digest, new, verify_chain,
  chain_link_broken, verify_from, Bytes,
}
use epica.Ledger.Merkle.{
  merkle_proof, merkle_root, verify_merkle_proof, leaf_hash, climb, node_hash, leaves, reduce_all,
  reduce, root_of,
}

abbrev pub event : ℕ → AuditEntry ℕ
event t = record {
  timestamp_ms = t;
  event_type = belief_write;
  belief_key = some "k";
  agent_id = none;
  details = t;
}

abbrev events : List (AuditEntry ℕ)
events = event 1 ∷ event 2 ∷ event 3 ∷ []

abbrev sealed : AuditLedger ℕ
sealed = append_all new events

abbrev pub item : ℕ → LedgerEntry ℕ
item i = record { seq = i; entry = event i; prev_hash = zero_digest; self_hash = replicate 32 i }

-- Three entries with made-up hashes, for the theorems that ask nothing of the chain.
abbrev pub plain : AuditLedger ℕ
plain = record { entries = item 0 ∷ item 1 ∷ item 2 ∷ []; last_hash = zero_digest }

abbrev pair : AuditLedger ℕ
pair = record { entries = item 0 ∷ item 1 ∷ []; last_hash = zero_digest }

verify_chain-append_all_example :
    (verify_chain (append_all new events) ≡ ok tt)
    × (map (λ e. e.entry) (append_all new events).entries ≡ events)
verify_chain-append_all_example = verify_chain-append_all events

verify_chain_iff_example : (verify_chain plain ≡ ok tt) ↔ IsChain 0 zero_digest plain.entries
verify_chain_iff_example = verify_chain_iff plain

-- An entry out of sequence.
abbrev shifted : AuditLedger ℕ
shifted = record { entries = item 1 ∷ []; last_hash = zero_digest }

shifted-refused : verify_chain shifted ≡ err (chain_link_broken 0)
unfolding verify_chain verify_from
shifted-refused = refl

verify_chain-err_example : FirstBad 0 zero_digest shifted.entries (chain_link_broken 0)
verify_chain-err_example = verify_chain-err shifted shifted-refused

same_head-SameSeals_example : SameSeals sealed.entries sealed.entries ⊎ Collision
same_head-SameSeals_example =
    same_head-SameSeals sealed sealed (verify_chain-append_all events).0
      (verify_chain-append_all events).0 refl refl

merkle_proof-verifies_example :
    (proof : List Bytes) × (merkle_proof plain 1 ≡ some proof)
    × (verify_merkle_proof (replicate 32 1) 1 3 proof (merkle_root plain) ≡ true)
merkle_proof-verifies_example = merkle_proof-verifies plain 1 refl

pair-accepted :
    verify_merkle_proof (replicate 32 1) 1 2 (leaf_hash (replicate 32 0) ∷ []) (merkle_root pair)
    ≡ true
unfolding verify_merkle_proof climb leaf_hash node_hash merkle_root leaves reduce_all reduce root_of
    epica.Ledger.Merkle.div_ceil2
pair-accepted = refl

hash-length : (m : Bytes) → length (leaf_hash m) ≡ 32
unfolding leaf_hash
hash-length m = toy_hash.length-hash (0 ∷ m)

verify_merkle_proof_sound_example :
    ((e : LedgerEntry ℕ) × (get_elem? pair.entries 1 ≡ some e) × (replicate 32 1 ≡ e.self_hash))
    ⊎ Collision
verify_merkle_proof_sound_example =
    verify_merkle_proof_sound pair (replicate 32 1) 1 (leaf_hash (replicate 32 0) ∷ [])
      (hash-length (replicate 32 0), tt) pair-accepted

merkle_root-binds_example : (self_hashes plain.entries ≡ self_hashes plain.entries) ⊎ Collision
merkle_root-binds_example = merkle_root-binds plain plain refl refl

length-merkle_proof_example :
    (3 ≤ 2 ^ length (merkle_proof-verifies plain 1 {e = item 1} refl).0)
    × (2 ^ length (merkle_proof-verifies plain 1 {e = item 1} refl).0 < 6)
length-merkle_proof_example =
    length-merkle_proof plain 1 (merkle_proof-verifies plain 1 {e = item 1} refl).1
