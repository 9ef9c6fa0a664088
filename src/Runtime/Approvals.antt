-- ===== src/Runtime/Approvals.antt =====
-- crates/epica-runtime/src/governance_tracker.rs: the pending approvals, before and after an approval.
use epica.Prelude.{
  string_eq, nat_eq, ◌==◌, ==_refl, list_eq, Bool-cases, test-ne, IsListed, any_iff-IsListed,
  String, ◌≡◌, refl, sym, ap, ◌∙◌, ◌≢◌, ◌↔◌, inl, inr, true, not, ◌&&◌, List, [], ◌∷◌, arith,
}
use epica.Prelude.{not, ◌&&◌, ◌≢◌, test-ne, sym, ap, ◌∙◌}
use epica.Runtime.Governance.{
  GovernanceTracker, requires_approval, mark_approved, remove_key, insert_key, is_key_in,
}

is_key_in-remove_key :
    (key k : String) (keys : List String)
    → is_key_in k (remove_key key keys) ≡ (not (key == k) && is_key_in k keys)
unfolding remove_key
is_key_in-remove_key key k [] = elim (Bool-cases (key == k)) [
  | inl y ↦ rw y refl
  | inr n ↦ rw n refl
]
is_key_in-remove_key key k (x ∷ keys) =
    let ih = is_key_in-remove_key key k keys in
    elim (Bool-cases (x == key)) [
      | inl t ↦
          let same : (x == k) ≡ (key == k) = ap (λ z. z == k) ((string_eq.beq_iff x key).0 t) in
          elim (Bool-cases (key == k)) [
            | inl y ↦ rw t (ih ∙ rw y refl)
            | inr n ↦ rw t (ih ∙ rw (same, n) refl)
          ]
      | inr f ↦ elim (Bool-cases (key == k)) [
        | inl y ↦
            let other : (x == k) ≡ (x == key) =
              ap (λ z. x == z) (sym ((string_eq.beq_iff key k).0 y)) in
            rw (f, ih, other, f, y) refl
        | inr n ↦ rw (f, ih, n) refl
      ]
    ]

is_key_in-insert_key :
    (key : String) (keys : List String) → is_key_in key (insert_key key keys) ≡ true
is_key_in-insert_key key keys = elim (Bool-cases (is_key_in key keys)) [
  | inl t ↦ rw t t
  | inr f ↦ rw f (ground (arith, ==_refl key))
]

-- An approval takes its key off the pending ones and no other; the next check of that key says
-- that it requires approval, and puts it back, exactly if the key is in the list of those that do.
pub requires_approval-mark_approved :
    (t : GovernanceTracker) (key other : String) (listed : List String)
    → (IsListed other (mark_approved t key).pending_approvals
        ↔ (IsListed other t.pending_approvals × (key ≢ other)))
      × (((requires_approval (mark_approved t key) key listed).1 ≡ true) ↔ IsListed key listed)
      × (IsListed key (requires_approval (mark_approved t key) key listed).0.pending_approvals
          ↔ IsListed key listed)
unfolding requires_approval mark_approved
requires_approval-mark_approved t key other listed =
    let pending = t.pending_approvals in
    let off = is_key_in-remove_key key other pending in
    let gone = is_key_in-remove_key key key pending in
    let back = is_key_in-insert_key key (remove_key key pending) in
    let after = any_iff-IsListed other (remove_key key pending) in
    let before = any_iff-IsListed other pending in
    let gate : (((requires_approval (mark_approved t key) key listed).1 ≡ true)
          ↔ IsListed key listed)
        × (IsListed key (requires_approval (mark_approved t key) key listed).0.pending_approvals
            ↔ IsListed key listed) =
      elim (Bool-cases (is_key_in key listed)) [
        | inl y ↦ rw y (
          (λ h. (any_iff-IsListed key listed).0 y, λ h. refl),
          (λ h. (any_iff-IsListed key listed).0 y, λ h. (any_iff-IsListed key _).0 back),
        )
        | inr n ↦ rw n (
          (λ h. absurd cc, λ h. absurd (cc (n, (any_iff-IsListed key listed).1 h))),
          (
            λ h. absurd (ground (arith, gone, (any_iff-IsListed key _).1 h, ==_refl key)),
            λ h. absurd (cc (n, (any_iff-IsListed key listed).1 h)),
          ),
        )
      ] in
    (
      (
        λ l. (
          before.0 (ground (arith, off, after.1 l)),
          λ q. absurd (ground (arith, off, after.1 l, (string_eq.beq_iff key other).1 q)),
        ),
        λ (l, ne). after.0 (ground (arith, off, before.1 l, test-ne key other ne)),
      ),
      gate.0,
      gate.1,
    )
