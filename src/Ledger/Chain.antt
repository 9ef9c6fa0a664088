-- ===== src/Ledger/Chain.antt =====
-- crates/epica-contracts/src/sovereignty/ledger.rs: the invariants that `AuditLedger` documents,
-- `append` and `verify_chain`.
use epica.Prelude.{
  ◌==◌, nat_eq, string_eq, ==→≡, ne_of_test, list_beq_iff, list_eq, Bool-cases, length, ℕ, suc, ◌+◌,
  ◌≡◌, refl, sym, ◌∙◌, subst, ◌≢◌, ◌↔◌, ◌⊎◌, inl, inr, List, [], ◌∷◌, ◌++◌, map, append-nil,
  append_assoc, map-append, arith, add-one, ok, err,
}
use epica.Ledger.Defs.{
  Bytes, Blake3, AuditEntry, EntryEncoder, LedgerEntry, AuditLedger, LedgerTamperError,
  entry_hash_mismatch, chain_link_broken, ChainResult, zero_digest, new, hash_entry, append,
  verify_from, verify_chain,
}

module _ {V : Type 0} ⦃b3 : Blake3⦄ ⦃ser : EntryEncoder V⦄ where
  -- The entry at position `i`, after an entry with the digest `prev`, is sealed.
  pub record IsSealedAt (i : ℕ) (prev : Bytes) (e : LedgerEntry V) : Type 0 where
    pub seq : e.seq ≡ i
    pub prev_hash : e.prev_hash ≡ prev
    pub self_hash : e.self_hash ≡ hash_entry e.prev_hash e.entry

  abbrev pub IsChain : ℕ → Bytes → List (LedgerEntry V) → Type 0
  IsChain i prev [] = Unit
  IsChain i prev (e ∷ es) = IsSealedAt i prev e × IsChain (suc i) e.self_hash es

  -- The digest that the next entry must link to.
  abbrev pub head_of : Bytes → List (LedgerEntry V) → Bytes
  head_of prev [] = prev
  head_of prev (e ∷ es) = head_of e.self_hash es

  pub record IsWellFormed (l : AuditLedger V) : Type 0 where
    pub chain : IsChain 0 zero_digest l.entries
    pub head : l.last_hash ≡ head_of zero_digest l.entries

  IsChain-snoc :
      (i : ℕ) (prev : Bytes) (es : List (LedgerEntry V)) (e : LedgerEntry V)
      → IsChain i prev es
      → IsSealedAt (length es + i) (head_of prev es) e
      → IsChain i prev (es ++ e ∷ [])
  IsChain-snoc i prev [] e c s =
      (record { seq = omega (arith, s.seq); prev_hash = s.prev_hash; self_hash = s.self_hash }, tt)
  IsChain-snoc i prev (x ∷ es) e c s = (
    c.0,
    IsChain-snoc (suc i) x.self_hash es e c.1
        (record { seq = omega (arith, s.seq); prev_hash = s.prev_hash; self_hash = s.self_hash }),
  )

  head_of-snoc :
      (prev : Bytes) (es : List (LedgerEntry V)) (e : LedgerEntry V)
      → head_of prev (es ++ e ∷ []) ≡ e.self_hash
  head_of-snoc prev [] e = refl
  head_of-snoc prev (x ∷ es) e = head_of-snoc x.self_hash es e

  pub new-IsWellFormed : IsWellFormed new
  unfolding new
  new-IsWellFormed = record { chain = tt; head = refl }

  -- Appending any entry to a ledger that is a sealed chain with its head recorded gives such a
  -- ledger.
  pub append-IsWellFormed :
      (l : AuditLedger V) (entry : AuditEntry V) → IsWellFormed l → IsWellFormed (append l entry).0
  unfolding append
  append-IsWellFormed l entry w = record {
    chain =
        IsChain-snoc 0 zero_digest l.entries _ w.chain
          (record { seq = omega arith; prev_hash = w.head; self_hash = refl });
    head = sym (head_of-snoc zero_digest l.entries _);
  }

  -- A ledger that records the entries in turn.
  abbrev pub append_all : AuditLedger V → List (AuditEntry V) → AuditLedger V
  append_all l [] = l
  append_all l (e ∷ es) = append_all (append l e).0 es

  append_all-IsWellFormed :
      (l : AuditLedger V) (es : List (AuditEntry V))
      → IsWellFormed l
      → IsWellFormed (append_all l es)
  append_all-IsWellFormed l [] w = w
  append_all-IsWellFormed l (e ∷ es) w =
      append_all-IsWellFormed (append l e).0 es (append-IsWellFormed l e w)

  recorded-append_all :
      (l : AuditLedger V) (es : List (AuditEntry V))
      → map (λ e. e.entry) (append_all l es).entries ≡ map (λ e. e.entry) l.entries ++ es
  unfolding append
  recorded-append_all l [] = rw append-nil
  recorded-append_all l (e ∷ es) =
      recorded-append_all (append l e).0 es ∙ simp (map-append, append_assoc)

  verify_from_complete :
      (i : ℕ) (prev : Bytes) (es : List (LedgerEntry V))
      → IsChain i prev es
      → verify_from i prev es ≡ ok tt
  unfolding verify_from
  verify_from_complete i prev [] c = refl
  verify_from_complete i prev (e ∷ es) c = ground (
    arith,
    c.0.seq,
    c.0.prev_hash,
    c.0.self_hash,
    list_beq_iff e.prev_hash prev,
    list_beq_iff (hash_entry e.prev_hash e.entry) e.self_hash,
    verify_from_complete (suc i) e.self_hash es c.1,
  )

  -- Where the first entry that is not sealed stands, and what the error says of it.
  abbrev pub FirstBad : ℕ → Bytes → List (LedgerEntry V) → LedgerTamperError → Type 0
  FirstBad i prev [] error = ⊥
  FirstBad i prev (e ∷ es) error =
      (IsSealedAt i prev e × FirstBad (suc i) e.self_hash es error)
      ⊎ (((e.seq ≢ i) ⊎ (e.prev_hash ≢ prev)) × (error ≡ chain_link_broken i))
      ⊎ ((e.seq ≡ i)
          × (e.prev_hash ≡ prev)
          × (e.self_hash ≢ hash_entry e.prev_hash e.entry)
          × (error ≡ entry_hash_mismatch i))

  abbrev Explains : ℕ → Bytes → List (LedgerEntry V) → ChainResult → Type 0
  Explains i prev es (ok _) = IsChain i prev es
  Explains i prev es (err error) = FirstBad i prev es error

  Explains-cons :
      (i : ℕ) (prev : Bytes) (e : LedgerEntry V) (es : List (LedgerEntry V)) (r : ChainResult)
      → IsSealedAt i prev e
      → Explains (suc i) e.self_hash es r
      → Explains i prev (e ∷ es) r
  Explains-cons i prev e es (ok _) s x = (s, x)
  Explains-cons i prev e es (err error) s x = inl (s, x)

  verify_from-Explains :
      (i : ℕ) (prev : Bytes) (es : List (LedgerEntry V))
      → Explains i prev es (verify_from i prev es)
  unfolding verify_from
  verify_from-Explains i prev [] = tt
  verify_from-Explains i prev (e ∷ es) = elim (Bool-cases (e.seq == i)) [
    | inr p ↦ rw p (inr (inl (inl (ne_of_test _ _ p), refl)))
    | inl p ↦ elim (Bool-cases (e.prev_hash == prev)) [
      | inr q ↦ rw (p, q) (inr (inl (inr (ne_of_test _ _ q), refl)))
      | inl q ↦ elim (Bool-cases (hash_entry e.prev_hash e.entry == e.self_hash)) [
        | inr r ↦ rw (p, q, r) (inr (inr (==→≡ p, ==→≡ q, (λ x. ne_of_test _ _ r (sym x)), refl)))
        | inl r ↦
            rw (p, q, r)
              (Explains-cons i prev e es _
                (record { seq = ==→≡ p; prev_hash = ==→≡ q; self_hash = sym (==→≡ r) })
                (rw add-one (verify_from-Explains (suc i) e.self_hash es)))
      ]
    ]
  ]

  -- `verify_chain` succeeds exactly on the ledgers whose entries carry their positions as `seq`,
  -- link to the hash of the entry before (the zero digest for the first) and have the hash of their
  -- own content.
  pub verify_chain_iff :
      (l : AuditLedger V) → (verify_chain l ≡ ok tt) ↔ IsChain 0 zero_digest l.entries
  unfolding verify_chain
  verify_chain_iff l = (
    (λ h.
        subst (Explains 0 zero_digest l.entries) h (verify_from-Explains 0 zero_digest l.entries)),
    verify_from_complete 0 zero_digest l.entries,
  )

  -- When `verify_chain` refuses a ledger, the error names the first entry that is out of place: a
  -- broken link if its `seq` or `prev_hash` is wrong, and otherwise a hash mismatch.
  pub verify_chain-err :
      (l : AuditLedger V) {error : LedgerTamperError}
      → verify_chain l ≡ err error
      → FirstBad 0 zero_digest l.entries error
  unfolding verify_chain
  verify_chain-err l h =
      subst (Explains 0 zero_digest l.entries) h (verify_from-Explains 0 zero_digest l.entries)

  -- A ledger that records any list of entries one after the other, from the empty ledger on, passes
  -- `verify_chain`, and holds exactly those entries in that order.
  pub verify_chain-append_all :
      (es : List (AuditEntry V))
      → (verify_chain (append_all new es) ≡ ok tt)
        × (map (λ e. e.entry) (append_all new es).entries ≡ es)
  verify_chain-append_all es = (
    (verify_chain_iff _).1 (append_all-IsWellFormed new es new-IsWellFormed).chain,
    unfold new in recorded-append_all new es,
  )
