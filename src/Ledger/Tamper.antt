-- ===== src/Ledger/Tamper.antt =====
-- crates/epica-contracts/src/sovereignty/ledger.rs: what the hash chain commits to.
use epica.Prelude.{
  nat_eq, string_eq, list_eq, length, ℕ, suc, ◌≡◌, refl, sym, ap, ◌∙◌, ◌⊎◌, inl, inr, List, [], ◌∷◌,
  ◌++◌, arith, ok,
}
use epica.Ledger.Defs.{
  Bytes, Blake3, EntryEncoder, LedgerEntry, AuditLedger, zero_digest, canonical, hash_entry,
  verify_chain,
}
use epica.Ledger.Collision.{Collision, hash_cases, append_injective}
use epica.Ledger.Chain.{IsSealedAt, IsChain, head_of, verify_chain_iff}

module _ {V : Type 0} ⦃b3 : Blake3⦄ ⦃ser : EntryEncoder V⦄ where
  -- Two sealed entries that record the same: all their fields, the entry as it is encoded.
  pub record SameSeal (e f : LedgerEntry V) : Type 0 where
    pub seq : e.seq ≡ f.seq
    pub prev_hash : e.prev_hash ≡ f.prev_hash
    pub self_hash : e.self_hash ≡ f.self_hash
    pub entry : canonical e.entry ≡ canonical f.entry

  abbrev pub SameSeals : List (LedgerEntry V) → List (LedgerEntry V) → Type 0
  SameSeals [] [] = Unit
  SameSeals (e ∷ es) (f ∷ fs) = SameSeal e f × SameSeals es fs
  SameSeals _ _ = ⊥

  length-hash_entry :
      (i : ℕ) (prev : Bytes) (e : LedgerEntry V) → IsSealedAt i prev e → length e.self_hash ≡ 32
  unfolding hash_entry
  length-hash_entry i prev e s = ap length s.self_hash ∙ b3.length-hash _

  same_entry :
      (i : ℕ) (prev prev' : Bytes) (e f : LedgerEntry V)
      → length prev ≡ length prev'
      → IsSealedAt i prev e
      → IsSealedAt i prev' f
      → e.self_hash ≡ f.self_hash
      → ((prev ≡ prev') × SameSeal e f) ⊎ Collision
  unfolding hash_entry
  same_entry i prev prev' e f n s t h =
      elim (hash_cases (e.prev_hash ++ canonical e.entry) (f.prev_hash ++ canonical f.entry)
        (sym s.self_hash ∙ h ∙ t.self_hash)) [
          | inr c ↦ inr c
          | inl p ↦
              let parts =
                append_injective e.prev_hash f.prev_hash
                  (ap length s.prev_hash ∙ n ∙ sym (ap length t.prev_hash)) p in
              inl (
                sym s.prev_hash ∙ parts.0 ∙ t.prev_hash,
                record {
                  seq = s.seq ∙ sym t.seq;
                  prev_hash = parts.0;
                  self_hash = h;
                  entry = parts.1;
                },
              )
        ]

  same_chain :
      (i : ℕ) (prev prev' : Bytes) (es fs : List (LedgerEntry V))
      → length prev ≡ length prev'
      → IsChain i prev es
      → IsChain i prev' fs
      → length es ≡ length fs
      → head_of prev es ≡ head_of prev' fs
      → ((prev ≡ prev') × SameSeals es fs) ⊎ Collision
  same_chain i prev prev' [] [] n c d l h = inl (h, tt)
  same_chain i prev prev' [] (f ∷ fs) n c d l h = absurd (omega arith)
  same_chain i prev prev' (e ∷ es) [] n c d l h = absurd (omega arith)
  same_chain i prev prev' (e ∷ es) (f ∷ fs) n c d l h =
      elim (same_chain (suc i) e.self_hash f.self_hash es fs
        (length-hash_entry i prev e c.0 ∙ sym (length-hash_entry i prev' f d.0)) c.1 d.1
        (omega arith) h) [
          | inr x ↦ inr x
          | inl (p, rest) ↦ elim (same_entry i prev prev' e f n c.0 d.0 p) [
            | inr x ↦ inr x
            | inl (q, here) ↦ inl (q, (here, rest))
          ]
        ]

  -- Two ledgers of one length that both pass `verify_chain` and whose last entries have the same
  -- hash agree on the seals and on the encoded content of every entry, or a hash collision is
  -- exhibited.
  pub same_head-SameSeals :
      (l m : AuditLedger V)
      → verify_chain l ≡ ok tt
      → verify_chain m ≡ ok tt
      → length l.entries ≡ length m.entries
      → head_of zero_digest l.entries ≡ head_of zero_digest m.entries
      → SameSeals l.entries m.entries ⊎ Collision
  same_head-SameSeals l m v w n h =
      elim (same_chain 0 zero_digest zero_digest l.entries m.entries refl ((verify_chain_iff l).0 v)
        ((verify_chain_iff m).0 w) n h) [ inl p ↦ inl p.1 | inr c ↦ inr c ]
