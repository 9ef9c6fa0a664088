-- ===== src/Sovereignty/Emit.antt =====
-- crates/epica-contracts/src/sovereignty/audit.rs: the audit policy and `emit`. A `SharedLedger` is an
-- `Arc<Mutex<AuditLedger>>`: a handle into a heap of locks, so that clones of a policy share a chain.
-- The encoder of a JSON line and the success of opening a file are parameters.
use epica.Ledger.Defs.{new, AuditLedger, AuditEntry, EntryEncoder, Blake3, append}
use epica.Prelude.{
  nat_beq, if◌then◌else◌, nat_eq, string_eq, list_eq, Bool-cases, length, get_elem?, ℕ, zero, suc,
  String, ◌≡◌, refl, ◌≢◌, inl, inr, Bool, false, not, ◌&&◌, Option, none, some, List, [], ◌∷◌, ◌++◌,
  arith,
}
use epica.Ledger.Chain.{IsWellFormed, append-IsWellFormed}

pub record Mutex (A : Type 0) : Type 0 where
  pub poisoned : Bool
  pub value : A

abbrev pub Heap : Type 0 → Type 0
Heap V = List (Mutex (AuditLedger V))

pub data AuditMode : Type 0 where
  full selective violations_only : AuditMode

pub data AuditDestination : Type 0 where
  tracing : AuditDestination
  file : String → AuditDestination
  otlp : String → AuditDestination

pub data AuditFormat : Type 0 where
  json otel : AuditFormat

pub record AuditPolicy : Type 0 where
  pub mode : AuditMode
  pub destination : AuditDestination
  pub format : AuditFormat
  pub ledger : Option ℕ

unfoldable pub default_policy : AuditPolicy
default_policy = record { mode = selective; destination = tracing; format = json; ledger = none }

-- The lines that have left the process: of the tracing subscriber, and of each file.
pub record Sinks : Type 0 where
  pub traced : List (String × String)
  pub written : List (String × String)

pub record Outside (V : Type 0) : Type 0 where
  pub to_string : AuditEntry V → Option String
  pub can_open : String → Bool

pub record World (V : Type 0) : Type 0 where
  pub heap : Heap V
  pub sinks : Sinks

unfoldable pub with_shared_ledger : AuditPolicy → ℕ → AuditPolicy
with_shared_ledger p ledger = record {
  mode = p.mode;
  destination = p.destination;
  format = p.format;
  ledger = some ledger;
}

unfoldable pub ledger_handle : AuditPolicy → Option ℕ
ledger_handle p = p.ledger

abbrev trace : Sinks → String → String → Sinks
trace s event line = record { traced = s.traced ++ (event, line) ∷ []; written = s.written }

-- A fresh lock stands at the end of the heap.
module _ {V : Type 0} where
  unfoldable pub with_ledger : AuditPolicy → Heap V → AuditPolicy × Heap V
  with_ledger p heap = (
    record {
      mode = p.mode;
      destination = p.destination;
      format = p.format;
      ledger = some (length heap);
    },
    heap ++ record { poisoned = false; value = new } ∷ [],
  )

nat_beq-suc : (i j : ℕ) → nat_beq (suc i) (suc j) ≡ nat_beq i j
nat_beq-suc i j = ground arith

nat_beq-ne : (i j : ℕ) → i ≢ j → nat_beq i j ≡ false
nat_beq-ne i j h = ground arith

module _ {V : Type 0} ⦃ser : EntryEncoder V⦄ ⦃b3 : Blake3⦄ ⦃out : Outside V⦄ where
  unfoldable pub append_at : Heap V → ℕ → AuditEntry V → Heap V
  append_at [] i entry = []
  append_at (m ∷ ms) zero entry =
      (if m.poisoned then m else record { poisoned = false; value = (append m.value entry).0 }) ∷ ms
  append_at (m ∷ ms) (suc i) entry = m ∷ append_at ms i entry

  abbrev line_of : AuditEntry V → String
  line_of entry = elim (out.to_string entry) [ some s ↦ s | none ↦ "" ]

  unfoldable pub dispatch : AuditDestination → AuditEntry V → Sinks → Sinks
  dispatch tracing entry s = trace s "[epica-audit]" (line_of entry)
  dispatch (file path) entry s =
      if out.can_open path
      then record { traced = s.traced; written = s.written ++ (path, line_of entry) ∷ [] }
      else s
  dispatch (otlp endpoint) entry s = trace s "[epica-audit:otlp-pending]" (line_of entry)

  unfoldable pub seal_entry : Option ℕ → Heap V → AuditEntry V → Heap V
  seal_entry none heap entry = heap
  seal_entry (some l) heap entry = append_at heap l entry

  unfoldable pub emit : AuditPolicy → AuditEntry V → World V → World V
  emit p entry w = record {
    heap = seal_entry p.ledger w.heap entry;
    sinks = dispatch p.destination entry w.sinks;
  }

  -- Every ledger of the heap is a well-formed chain.
  unfoldable pub AllWellFormed : Heap V → Type 0
  AllWellFormed [] = Unit
  AllWellFormed (m ∷ ms) = IsWellFormed m.value × AllWellFormed ms

  append_at-AllWellFormed :
      (h : Heap V) (i : ℕ) (entry : AuditEntry V)
      → AllWellFormed h
      → AllWellFormed (append_at h i entry)
  unfolding append_at AllWellFormed
  append_at-AllWellFormed [] i entry w = tt
  append_at-AllWellFormed (m ∷ ms) zero entry w = elim (Bool-cases m.poisoned) [
    | inl t ↦ rw t w
    | inr f ↦ rw f (append-IsWellFormed m.value entry w.0, w.1)
  ]
  append_at-AllWellFormed (m ∷ ms) (suc i) entry w = (w.0, append_at-AllWellFormed ms i entry w.1)

  -- An emission over a heap whose ledgers are all well-formed chains leaves such a heap, under every
  -- policy.
  pub emit-AllWellFormed :
      (p : AuditPolicy) (entry : AuditEntry V) (w : World V)
      → AllWellFormed w.heap
      → AllWellFormed (emit p entry w).heap
  unfolding emit seal_entry
  emit-AllWellFormed p entry w h = by-ledger p.ledger
    where
      by-ledger : (l : Option ℕ) → AllWellFormed (seal_entry l w.heap entry)
      by-ledger none = h
      by-ledger (some l) = append_at-AllWellFormed w.heap l entry h

  append_at-get :
      (h : Heap V) (i j : ℕ) (entry : AuditEntry V) {m : Mutex (AuditLedger V)}
      → get_elem? h j ≡ some m
      → get_elem? (append_at h i entry) j
        ≡ some (
            if nat_beq i j && not m.poisoned
            then record { poisoned = false; value = (append m.value entry).0 }
            else m)
  unfolding append_at
  append_at-get [] i j entry p = absurd cc
  append_at-get (x ∷ h) zero zero entry {m} p =
      let q : x ≡ m = cc in
      elim (Bool-cases m.poisoned) [ inl t ↦ rw (q, t) refl | inr f ↦ rw (q, f) refl ]
  append_at-get (x ∷ h) zero (suc j) entry p = rw (nat_beq-ne zero (suc j) (omega arith)) p
  append_at-get (x ∷ h) (suc i) zero entry p = rw (nat_beq-ne (suc i) zero (omega arith)) p
  append_at-get (x ∷ h) (suc i) (suc j) entry p = rw (nat_beq-suc i j) (append_at-get h i j entry p)

  -- Under a policy with a ledger, an emission appends the entry to that ledger if its lock is not
  -- poisoned and leaves every other ledger as it was, whatever the mode, whatever the destination
  -- and whether or not the destination can be written.
  pub emit-seals :
      (p : AuditPolicy) (entry : AuditEntry V) (w : World V) (l j : ℕ) {m : Mutex (AuditLedger V)}
      → p.ledger ≡ some l
      → get_elem? w.heap j ≡ some m
      → get_elem? (emit p entry w).heap j
        ≡ some (
            if nat_beq l j && not m.poisoned
            then record { poisoned = false; value = (append m.value entry).0 }
            else m)
  unfolding emit seal_entry
  emit-seals p entry w l j e h = rw e (append_at-get w.heap l j entry h)
