-- ===== src/Ledger/Defs.antt =====
-- crates/epica-contracts/src/sovereignty/audit.rs (the entries) and ledger.rs (the hash chain).
-- A `[u8; 32]` is a list of its bytes. BLAKE3 and serde_json stand outside the repository: the
-- hash of the bytes fed to a hasher, and the encoder, are instance arguments.
use epica.Prelude.{
  if◌then◌else◌, ◌==◌, nat_eq, string_eq, list_eq, length, replicate, Result, ℕ, ◌+◌, String, ◌≡◌,
  Option, none, some, List, [], ◌∷◌, ◌++◌, ok, err,
}

abbrev pub Bytes : Type 0
Bytes = List ℕ

-- `h.update(a); h.update(b); h.finalize()` is `hash (a ++ b)`.
pub record Blake3 : Type 0 where
  pub hash : Bytes → Bytes
  pub length-hash : (m : Bytes) → length (hash m) ≡ 32

pub data AuditEventType : Type 0 where
  belief_write belief_update belief_read belief_forgotten : AuditEventType
  contract_violation recovery_executed auth_denied : AuditEventType

-- `V` is `serde_json::Value`.
pub record AuditEntry (V : Type 0) : Type 0 where
  pub timestamp_ms : ℕ
  pub event_type : AuditEventType
  pub belief_key : Option String
  pub agent_id : Option String
  pub details : V

-- `serde_json::to_vec`, which may fail.
pub record EntryEncoder (V : Type 0) : Type 0 where
  pub to_vec : AuditEntry V → Option Bytes

pub record LedgerEntry (V : Type 0) : Type 0 where
  pub seq : ℕ
  pub entry : AuditEntry V
  pub prev_hash : Bytes
  pub self_hash : Bytes

pub data LedgerTamperError : Type 0 where
  entry_hash_mismatch : ℕ → LedgerTamperError
  chain_link_broken : ℕ → LedgerTamperError

pub record AuditLedger (V : Type 0) : Type 0 where
  pub entries : List (LedgerEntry V)
  pub last_hash : Bytes

abbrev pub zero_digest : Bytes
zero_digest = replicate 32 0

abbrev pub ChainResult : Type 0
ChainResult = Result LedgerTamperError (Unit {0})

module _ {V : Type 0} where
  unfoldable pub new : AuditLedger V
  new = record { entries = []; last_hash = zero_digest }

  unfoldable pub len : AuditLedger V → ℕ
  len l = length l.entries

  unfoldable pub head_hash : AuditLedger V → Bytes
  head_hash l = l.last_hash

module _ {V : Type 0} ⦃ser : EntryEncoder V⦄ where
  -- `serde_json::to_vec(entry).unwrap_or_default()`
  unfoldable pub canonical : AuditEntry V → Bytes
  canonical e = elim (ser.to_vec e) [ none ↦ [] | some b ↦ b ]

module _ {V : Type 0} ⦃b3 : Blake3⦄ ⦃ser : EntryEncoder V⦄ where
  unfoldable pub hash_entry : Bytes → AuditEntry V → Bytes
  hash_entry prev_hash entry = b3.hash (prev_hash ++ canonical entry)

  -- The sealed entry, and the ledger after the call.
  unfoldable pub append : AuditLedger V → AuditEntry V → AuditLedger V × LedgerEntry V
  append l entry =
      let self_hash = hash_entry l.last_hash entry in
      let sealed : LedgerEntry V = record {
        seq = length l.entries;
        entry = entry;
        prev_hash = l.last_hash;
        self_hash = self_hash;
      } in
      (record { entries = l.entries ++ sealed ∷ []; last_hash = self_hash }, sealed)

  -- The loop of `verify_chain`, from index `i` on.
  unfoldable pub verify_from : ℕ → Bytes → List (LedgerEntry V) → ChainResult
  verify_from i expected_prev [] = ok tt
  verify_from i expected_prev (e ∷ rest) =
      let next = verify_from (i + 1) e.self_hash rest in
      if e.seq == i
      then if e.prev_hash == expected_prev
        then if hash_entry e.prev_hash e.entry == e.self_hash
          then next
          else err (entry_hash_mismatch i)
        else err (chain_link_broken i)
      else err (chain_link_broken i)

  unfoldable pub verify_chain : AuditLedger V → ChainResult
  unfolding verify_from
  verify_chain l = verify_from 0 zero_digest l.entries
