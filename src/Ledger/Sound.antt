-- ===== src/Ledger/Sound.antt =====
-- crates/epica-contracts/src/sovereignty/ledger.rs: what `verify_merkle_proof` accepts stands in
-- the ledger. A proof longer than the tree is high passes the test of the level size, and is
-- caught by the prefix bytes that keep leaves and inner nodes apart.
use epica.Prelude.{
  ltb, leb, if◌then◌else◌, ltb→lt, lt→ltb, ◌==◌, nat_eq, string_eq, list_beq_iff, list_eq,
  Bool-cases, length, get_elem?, get_or, get_elem?_total, ℕ, zero, suc, ◌+◌, ◌/◌, ◌%◌, ◌≤◌, ◌<◌,
  ◌≡◌, refl, sym, ap, ◌∙◌, subst, ◌⊎◌, inl, inr, true, ◌&&◌, ◌||◌, some, List, [], ◌∷◌, arith,
}
use epica.Ledger.Defs.{Bytes, Blake3, LedgerEntry, AuditLedger, zero_digest}
use epica.Ledger.Merkle.{
  div_ceil2, sibling_index, leaf_hash, node_hash, reduce, reduce_all, climb, verify_merkle_proof,
  leaves, root_of, merkle_root,
}
use epica.Ledger.Collision.{
  Collision, node_hash_cases, leaf_hash_cases, leaf-node_cases, length-leaf_hash, length-node_hash,
}
use epica.Ledger.Reduce.{AllDigests, AllDigests-reduce, length-reduce, length-get_or, get_or-reduce}
use epica.Ledger.Inclusion.{root_of_lem, length-leaves, leaf_at}
use epica.Ledger.Binding.{AllDigests-leaves}

module _ ⦃b3 : Blake3⦄ where
  -- A node at height `k` of a Merkle tree.
  abbrev IsNode : ℕ → Bytes → Type 0
  IsNode zero x = (m : Bytes) × (x ≡ leaf_hash m)
  IsNode (suc k) x =
      (l : Bytes) × (r : Bytes) × (x ≡ node_hash l r) × (length l ≡ 32) × IsNode k l × IsNode k r

  -- What `climb` holds after `k` steps from a leaf, whatever the siblings are.
  abbrev IsClimbed : ℕ → Bytes → Type 0
  IsClimbed zero x = (m : Bytes) × (x ≡ leaf_hash m)
  IsClimbed (suc k) x =
      (h : Bytes) × (s : Bytes) × IsClimbed k h
      × (length h ≡ 32)
      × (length s ≡ 32)
      × ((x ≡ node_hash h s) ⊎ (x ≡ node_hash s h))

  abbrev AllNodes : ℕ → List Bytes → Type 0
  AllNodes k [] = Unit
  AllNodes k (x ∷ xs) = IsNode k x × AllNodes k xs

  too_high : (k j : ℕ) (x : Bytes) → j < k → IsClimbed k x → IsNode j x → Collision
  too_high zero j x lt c n = absurd (omega arith)
  too_high (suc k) zero x lt (h, s, c, hl, sl, inl p) (m, q) = leaf-node_cases m h s (sym q ∙ p)
  too_high (suc k) zero x lt (h, s, c, hl, sl, inr p) (m, q) = leaf-node_cases m s h (sym q ∙ p)
  too_high (suc k) (suc j) x lt (h, s, c, hl, sl, inl p) (l, r, q, ll, nl, nr) =
      elim (node_hash_cases h s l r (hl ∙ sym ll) (sym p ∙ q)) [
        | inr col ↦ col
        | inl e ↦ too_high k j l (omega arith) (subst (IsClimbed k) e.0 c) nl
      ]
  too_high (suc k) (suc j) x lt (h, s, c, hl, sl, inr p) (l, r, q, ll, nl, nr) =
      elim (node_hash_cases s h l r (sl ∙ sym ll) (sym p ∙ q)) [
        | inr col ↦ col
        | inl e ↦ too_high k j r (omega arith) (subst (IsClimbed k) e.1 c) nr
      ]

  abbrev step : Bytes → ℕ → Bytes → Bytes
  step sib path h = if path % 2 == 0 then node_hash h sib else node_hash sib h

  IsClimbed-step :
      (k : ℕ) (sib : Bytes) (path : ℕ) (h : Bytes)
      → length sib ≡ 32
      → length h ≡ 32
      → IsClimbed k h
      → IsClimbed (suc k) (step sib path h)
  IsClimbed-step k sib path h sl hl c = elim (Bool-cases (path % 2 == 0)) [
    | inl t ↦ rw t (h, sib, c, hl, sl, inl refl)
    | inr t ↦ rw t (h, sib, c, hl, sl, inr refl)
  ]

  length-step : (sib : Bytes) (path : ℕ) (h : Bytes) → length (step sib path h) ≡ 32
  length-step sib path h = elim (Bool-cases (path % 2 == 0)) [
    | inl t ↦ rw t (length-node_hash h sib)
    | inr t ↦ rw t (length-node_hash sib h)
  ]

  overlong :
      (proof : List Bytes) (path k j : ℕ) (h x : Bytes)
      → AllDigests proof
      → length h ≡ 32
      → j < k
      → IsClimbed k h
      → IsNode j x
      → climb proof path 1 h ≡ (x, 1)
      → Collision
  unfolding climb div_ceil2
  overlong [] path k j h x d hl lt c n e =
      too_high k j x lt (subst (IsClimbed k) (ap (λ t. t.0) e) c) n
  overlong (s ∷ proof) path k j h x d hl lt c n e =
      overlong proof (path / 2) (suc k) j (step s path h) x d.1 (length-step s path h) (omega arith)
        (IsClimbed-step k s path h d.0 hl c) n e

  AllNodes-reduce :
      (k : ℕ) (level : List Bytes)
      → AllDigests level
      → AllNodes k level
      → AllNodes (suc k) (reduce level)
  unfolding reduce
  AllNodes-reduce k [] d n = tt
  AllNodes-reduce k (l ∷ []) d n = ((l, l, refl, d.0, n.0, n.0), tt)
  AllNodes-reduce k (l ∷ r ∷ rest) d n =
      ((l, r, refl, d.0, n.0, n.1.0), AllNodes-reduce k rest d.1.1 n.1.1)

  -- One step from the wrong node is a collision.
  step_injective :
      (level : List Bytes) (path : ℕ) (sib h : Bytes)
      → AllDigests level
      → length sib ≡ 32
      → length h ≡ 32
      → path < length level
      → step sib path h ≡ get_or (reduce level) (path / 2) zero_digest
      → (h ≡ get_or level path zero_digest) ⊎ Collision
  step_injective level path sib h d sl hl lt e = elim (Bool-cases (path % 2 == 0)) [
    | inl t ↦
        elim (node_hash_cases h sib (get_or level path zero_digest)
          (get_or level (sibling_index path (length level)) zero_digest)
          (hl ∙ sym (length-get_or level path d)) (rw t at (e ∙ get_or-reduce level path lt))) [
            | inl p ↦ inl p.0
            | inr c ↦ inr c
          ]
    | inr t ↦
        elim (node_hash_cases sib h (get_or level (sibling_index path (length level)) zero_digest)
          (get_or level path zero_digest)
          (sl ∙ sym (length-get_or level (sibling_index path (length level)) d))
          (rw t at (e ∙ get_or-reduce level path lt))) [ inl p ↦ inl p.1 | inr c ↦ inr c ]
  ]

  stays : (fuel : ℕ) (level : List Bytes) → length level ≤ 1 → reduce_all fuel level ≡ level
  unfolding reduce_all
  stays zero level h = refl
  stays (suc fuel) level h = elim (Bool-cases (ltb 1 (length level))) [
    | inl t ↦ absurd (omega (arith, ltb→lt 1 (length level) t))
    | inr t ↦ rw t
  ]

  goes_on :
      (fuel : ℕ) (level : List Bytes)
      → 1 < length level
      → reduce_all (suc fuel) level ≡ reduce_all fuel (reduce level)
  unfolding reduce_all
  goes_on fuel level h = rw (lt→ltb 1 (length level) h)

  first-IsNode :
      (k : ℕ) (level : List Bytes)
      → 0 < length level
      → AllNodes k level
      → IsNode k (get_or level 0 zero_digest)
  first-IsNode k [] h n = absurd (omega arith)
  first-IsNode k (x ∷ xs) h n = n.0

  -- A sibling after the level of one node.
  past_root :
      (s : Bytes) (proof : List Bytes) (fuel : ℕ) (level : List Bytes) (path k : ℕ) (h : Bytes)
      → AllDigests (s ∷ proof)
      → AllNodes k level
      → length h ≡ 32
      → IsClimbed k h
      → path < length level
      → length level ≤ 1
      → climb (s ∷ proof) path (length level) h ≡ (get_or (reduce_all fuel level) 0 zero_digest, 1)
      → Collision
  unfolding climb div_ceil2
  past_root s proof fuel level path k h dp n hl c lt f e =
      let one : length level ≡ 1 = omega arith in
      overlong proof (path / 2) (suc k) k (step s path h) (get_or level 0 zero_digest) dp.1
        (length-step s path h) (omega arith) (IsClimbed-step k s path h dp.0 hl c)
        (first-IsNode k level (omega arith) n)
        (subst
          (λ m.
            climb proof (path / 2) ((m + 1) / 2) (step s path h) ≡ (get_or level 0 zero_digest, 1))
          one (e ∙ ap (λ l. (get_or l 0 zero_digest, 1)) (stays fuel level f)))

  climb_sound :
      (proof : List Bytes) (fuel : ℕ) (level : List Bytes) (path k : ℕ) (h : Bytes)
      → AllDigests proof
      → AllDigests level
      → AllNodes k level
      → length h ≡ 32
      → IsClimbed k h
      → path < length level
      → length level ≤ suc fuel
      → climb proof path (length level) h ≡ (get_or (reduce_all fuel level) 0 zero_digest, 1)
      → (h ≡ get_or level path zero_digest) ⊎ Collision
  unfolding climb div_ceil2
  climb_sound [] fuel level path k h dp dl n hl c lt f e =
      let one : length level ≡ 1 = ap (λ t. t.1) e in
      let at_zero : path ≡ 0 = omega arith in
      inl (
        rw at_zero
          (ap (λ t. t.0) e ∙ ap (λ l. get_or l 0 zero_digest) (stays fuel level (omega arith))))
  climb_sound (s ∷ proof) zero level path k h dp dl n hl c lt f e =
      inr (past_root s proof zero level path k h dp n hl c lt f e)
  climb_sound (s ∷ proof) (suc fuel) level path k h dp dl n hl c lt f e =
      elim (Bool-cases (ltb 1 (length level))) [
        | inr t ↦ inr (past_root s proof (suc fuel) level path k h dp n hl c lt (ground arith) e)
        | inl t ↦
            let long : 1 < length level = ltb→lt 1 (length level) t in
            elim (climb_sound proof fuel (reduce level) (path / 2) (suc k) (step s path h) dp.1
              (AllDigests-reduce level) (AllNodes-reduce k level dl n) (length-step s path h)
              (IsClimbed-step k s path h dp.0 hl c) (omega (arith, length-reduce level))
              (omega (arith, length-reduce level))
              (rw (length-reduce level)
                (e ∙ ap (λ l. (get_or l 0 zero_digest, 1)) (goes_on fuel level long)))) [
                  | inr col ↦ inr col
                  | inl p ↦ step_injective level path s h dl dp.0 hl lt p
                ]
      ]

  root_test : (r : Bytes × ℕ) (root : Bytes) → (r.1 == 1 && r.0 == root) ≡ true → r ≡ (root, 1)
  root_test (h, size) root t = ground (arith, list_beq_iff h root)

  -- The tests that `verify_merkle_proof` makes.
  accepted :
      (leaf : Bytes) (seq n : ℕ) (proof : List Bytes) (root : Bytes)
      → verify_merkle_proof leaf seq n proof root ≡ true
      → (seq < n) × (climb proof seq n (leaf_hash leaf) ≡ (root, 1))
  unfolding verify_merkle_proof
  accepted leaf seq n proof root h = elim (Bool-cases (n == 0 || leb n seq)) [
    | inl out ↦ absurd (ground (arith, out, h))
    | inr within ↦ (
      ground (arith, within),
      root_test (climb proof seq n (leaf_hash leaf)) root (rw within at h),
    )
  ]

module _ {V : Type 0} ⦃b3 : Blake3⦄ where
  AllNodes-leaves : (es : List (LedgerEntry V)) → AllNodes 0 (leaves es)
  unfolding leaves
  AllNodes-leaves [] = tt
  AllNodes-leaves (e ∷ es) = ((e.self_hash, refl), AllNodes-leaves es)

  -- If `verify_merkle_proof` accepts a leaf at a position against the root of a ledger, by a proof
  -- whose nodes are 32 bytes each, then the ledger has an entry at that position with that leaf as
  -- its hash, or a hash collision is exhibited.
  pub verify_merkle_proof_sound :
      (l : AuditLedger V) (leaf : Bytes) (seq : ℕ) (proof : List Bytes)
      → AllDigests proof
      → verify_merkle_proof leaf seq (length l.entries) proof (merkle_root l) ≡ true
      → ((e : LedgerEntry V) × (get_elem? l.entries seq ≡ some e) × (leaf ≡ e.self_hash))
        ⊎ Collision
  unfolding merkle_root
  verify_merkle_proof_sound l leaf seq proof dp h =
      let (bound, ends) = accepted leaf seq (length l.entries) proof (root_of l.entries) h in
      let (e, here) = get_elem?_total l.entries seq bound in
      elim (climb_sound proof (length l.entries) (leaves l.entries) seq 0 (leaf_hash leaf) dp
        (AllDigests-leaves l.entries) (AllNodes-leaves l.entries) (length-leaf_hash leaf)
        (leaf, refl) (omega (arith, length-leaves l.entries))
        (omega (arith, length-leaves l.entries))
        (rw (length-leaves l.entries, ← root_of_lem l.entries (omega arith)) ends)) [
          | inr c ↦ inr c
          | inl p ↦ elim (leaf_hash_cases leaf e.self_hash (p ∙ leaf_at l.entries seq here)) [
            | inr c ↦ inr c
            | inl q ↦ inl (e, here, q)
          ]
        ]
