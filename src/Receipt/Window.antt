-- ===== src/Receipt/Window.antt =====
-- crates/epica-zk-evidence/src/prover.rs: the reduction that the prover writes out once more
-- computes what the ledger's does.
use epica.Prelude.{
  ltb, leb, if◌then◌else◌, nat_eq, string_eq, list_eq, Bool-cases, length, get_or, drop,
  length-take, take_of_length-le, length-drop, length-map, ℕ, zero, suc, ◌+◌, ◌-◌, ◌≤◌, ◌<◌, ◌≡◌,
  refl, sym, ap, ap₂, ◌∙◌, inl, inr, false, ◌||◌, List, [], ◌∷◌, ◌++◌, map, arith,
}
use epica.Ledger.Defs.{Bytes, Blake3, LedgerEntry, AuditLedger, zero_digest}
use epica.Ledger.Merkle.{leaf_hash, node_hash, reduce, reduce_all, leaves, root_of}
use epica.Ledger.Reduce.{AllDigests, AllDigests-reduce, length-get_or}
use epica.Ledger.Inclusion.{root_of_lem}
use epica.Ledger.Binding.{AllDigests-leaves}
use epica.Receipt.Prover.{window_reduce, window_loop, window, window_merkle_root}

module _ ⦃b3 : Blake3⦄ where
  window_reduce_lem : (level : List Bytes) → window_reduce level ≡ reduce level
  unfolding window_reduce reduce node_hash
  window_reduce_lem [] = refl
  window_reduce_lem (l ∷ []) = refl
  window_reduce_lem (l ∷ r ∷ rest) = ap (◌∷◌ (b3.hash (1 ∷ l ++ r))) (window_reduce_lem rest)

  window_loop_lem : (fuel : ℕ) (level : List Bytes) → window_loop fuel level ≡ reduce_all fuel level
  unfolding window_loop reduce_all
  window_loop_lem zero level = refl
  window_loop_lem (suc fuel) level =
      ap (λ next. if ltb 1 (length level) then next else level)
        (window_loop_lem fuel (window_reduce level)
          ∙ ap (reduce_all fuel) (window_reduce_lem level))

  AllDigests-reduce_all :
      (fuel : ℕ) (level : List Bytes) → AllDigests level → AllDigests (reduce_all fuel level)
  unfolding reduce_all
  AllDigests-reduce_all zero level d = d
  AllDigests-reduce_all (suc fuel) level d = elim (Bool-cases (ltb 1 (length level))) [
    | inl t ↦ rw t (AllDigests-reduce_all fuel (reduce level) (AllDigests-reduce level))
    | inr t ↦ rw t d
  ]

module _ {V : Type 0} ⦃b3 : Blake3⦄ where
  pub length-root_of : (es : List (LedgerEntry V)) → length (root_of es) ≡ 32
  unfolding root_of
  length-root_of [] = refl
  length-root_of (e ∷ es) =
      length-get_or (reduce_all (length (e ∷ es)) (leaves (e ∷ es))) 0
        (AllDigests-reduce_all (length (e ∷ es)) (leaves (e ∷ es)) (AllDigests-leaves (e ∷ es)))

  pub length-window :
      (l : AuditLedger V) (s e : ℕ)
      → s ≤ e
      → e < length l.entries
      → length (window l s e) ≡ e + 1 - s
  unfolding window
  length-window l s e h g =
      omega (arith, length-take (e + 1 - s) (drop s l.entries), length-drop s l.entries)

  abbrev raw_leaves : List (LedgerEntry V) → List Bytes
  raw_leaves = map (λ x. b3.hash (0 ∷ x.self_hash))

  raw_leaves_lem : (es : List (LedgerEntry V)) → raw_leaves es ≡ leaves es
  unfolding leaves leaf_hash
  raw_leaves_lem es = refl

  raw_root :
      (es : List (LedgerEntry V))
      → 0 < length es
      → get_or (window_loop (length (raw_leaves es)) (raw_leaves es)) 0 zero_digest ≡ root_of es
  raw_root es h =
      ap (λ level. get_or level 0 zero_digest)
        (window_loop_lem (length (raw_leaves es)) (raw_leaves es)
          ∙ ap₂ reduce_all (length-map es _) (raw_leaves_lem es))
      ∙ sym (root_of_lem es h)

  -- For a window within the ledger, the inlined reduction of the prover gives the root that the
  -- ledger's own reduction gives for the entries of the window.
  pub window_merkle_root_lem :
      (l : AuditLedger V) (s e : ℕ)
      → s ≤ e
      → e < length l.entries
      → window_merkle_root l s e ≡ root_of (window l s e)
  unfolding window_merkle_root
  window_merkle_root_lem l s e h g =
      let within : (leb (length l.entries) e || ltb e s) ≡ false = ground arith in
      rw within (raw_root (window l s e) (omega (arith, length-window l s e h g)))

  -- The whole ledger is a window.
  pub window_whole :
      (l : AuditLedger V) (n : ℕ) → length l.entries ≡ suc n → window l 0 n ≡ l.entries
  unfolding window
  window_whole l n h = take_of_length-le (n + 1 - 0) l.entries (omega arith)
