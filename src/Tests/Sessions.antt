-- ===== src/Tests/Sessions.antt =====
-- Runs of the theorems on policies, audit emission and the session's counters.
use epica.Prelude.{
  nat_beq, if◌then◌else◌, string_eq, nat_eq, list_eq, get_elem?, IsListed, ℕ, ◌+◌, ◌-◌, min, String,
  ◌≡◌, refl, ◌≢◌, ◌↔◌, true, false, not, ◌&&◌, none, some, [], ◌∷◌, arith,
}
use epica.Sovereignty.Checks.{MnemonicSovereignty, permissive}
use epica.Sovereignty.Emit.{
  AuditPolicy, World, Outside, Mutex, emit, emit-seals, AllWellFormed, default_policy, file,
}
use epica.Ledger.Chain.{new-IsWellFormed, append-IsWellFormed}
use epica.Ledger.Defs.{AuditLedger, append, new}
use epica.Runtime.History.{ConfidenceHistory, ConfidenceRecord, HasNone}
use epica.Runtime.Governance.{
  GovernanceTracker, new_tracker, admitted_tokens, admitted_tokens_lem, requires_approval,
  mark_approved,
}
use epica.Prelude.{◌≢◌}
use epica.Runtime.Approvals.{requires_approval-mark_approved}
use epica.Tests.Instances.{toy_hash, toy_encoder}
use epica.Tests.Ledgers.{event}

abbrev open_to_all : MnemonicSovereignty ℕ ℕ ℕ
open_to_all = permissive 0

-- No file can be opened.
instance abbrev full_disk : Outside ℕ
full_disk = record { to_string = λ e. none; can_open = λ path. false }

abbrev to_disk : AuditPolicy
to_disk = record {
  mode = default_policy.mode;
  destination = file "/var/audit";
  format = default_policy.format;
  ledger = some 0;
}

abbrev lock : Mutex (AuditLedger ℕ)
lock = record { poisoned = false; value = (append new (event 1)).0 }

abbrev world : World ℕ
world = record { heap = lock ∷ []; sinks = record { traced = []; written = [] } }

world-AllWellFormed : AllWellFormed world.heap
unfolding AllWellFormed
world-AllWellFormed = (append-IsWellFormed new (event 1) new-IsWellFormed, tt)

emit-seals_example :
    get_elem? (emit to_disk (event 2) world).heap 0
    ≡ some (
        if nat_beq 0 0 && not lock.poisoned
        then record { poisoned = false; value = (append lock.value (event 2)).0 }
        else lock)
emit-seals_example = emit-seals to_disk (event 2) world 0 0 refl refl

abbrev first : ConfidenceRecord ℕ ℕ
first = record { belief_id = 1; confidence = 80; was_correct = none; timestamp_ms = 10 }

abbrev second : ConfidenceRecord ℕ ℕ
second = record { belief_id = 2; confidence = 60; was_correct = none; timestamp_ms = 11 }

abbrev trace : ConfidenceHistory ℕ ℕ
trace = record { records = first ∷ second ∷ [] }

second-other : HasNone 1 (second ∷ [])
unfolding HasNone
second-other = (omega arith, tt)

admitted_tokens_lem_example :
    ((admitted_tokens 5 3 new_tracker).0 ≡ min 5 (3 - new_tracker.tokens_used))
    × ((admitted_tokens 5 3 new_tracker).1.tokens_used ≡ new_tracker.tokens_used + 5)
unfolding new_tracker
admitted_tokens_lem_example = admitted_tokens_lem 5 3 new_tracker (omega arith)

abbrev waiting : GovernanceTracker
waiting = record { tokens_used = 0; tool_calls = []; pending_approvals = "k" ∷ "l" ∷ [] }

requires_approval-mark_approved_example :
    (IsListed {A = String} "l" (mark_approved waiting "k").pending_approvals
      ↔ (IsListed {A = String} "l" ("k" ∷ "l" ∷ []) × ◌≢◌ {A = String} "k" "l"))
    × (((requires_approval (mark_approved waiting "k") "k" ("k" ∷ [])).1 ≡ true)
        ↔ IsListed {A = String} "k" ("k" ∷ []))
    × (IsListed {A = String} "k"
          (requires_approval (mark_approved waiting "k") "k" ("k" ∷ [])).0.pending_approvals
        ↔ IsListed {A = String} "k" ("k" ∷ []))
requires_approval-mark_approved_example = requires_approval-mark_approved waiting "k" "l" ("k" ∷ [])
