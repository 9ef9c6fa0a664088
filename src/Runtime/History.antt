-- ===== src/Runtime/History.antt =====
-- crates/epica-runtime/src/history.rs: the confidence trace of a session. `F` is `f32` and `K` the type
-- of belief ids; the clock is an argument.
use epica.Prelude.{
  if◌then◌else◌, Eq, string_eq, nat_eq, ◌==◌, list_eq, Bool-cases, Option-cases, length, ℕ, ◌≡◌,
  refl, ap, ap₂, ◌∙◌, ◌≢◌, inl, inr, Bool, true, false, Option, none, some, List, [], ◌∷◌, ◌++◌,
  map,
}

pub record ConfidenceRecord (K F : Type 0) : Type 0 where
  pub belief_id : K
  pub confidence : F
  pub was_correct : Option Bool
  pub timestamp_ms : ℕ

-- The records, oldest first.
pub record ConfidenceHistory (K F : Type 0) : Type 0 where
  pub records : List (ConfidenceRecord K F)

module _ {K F : Type 0} where
  unfoldable pub empty : ConfidenceHistory K F
  empty = record { records = [] }

  unfoldable pub push : ConfidenceHistory K F → K → F → ℕ → ConfidenceHistory K F
  push h belief_id confidence now_ms = record {
    records =
        h.records
        ++ record {
          belief_id = belief_id;
          confidence = confidence;
          was_correct = none;
          timestamp_ms = now_ms;
        }
          ∷ [];
  }

  unfoldable pub finalize_record : ConfidenceRecord K F → ConfidenceRecord K F
  finalize_record r = elim r.was_correct [
    | none ↦ record {
      belief_id = r.belief_id;
      confidence = r.confidence;
      was_correct = some true;
      timestamp_ms = r.timestamp_ms;
    }
    | some c ↦ r
  ]

  unfoldable pub finalize_session : ConfidenceHistory K F → ConfidenceHistory K F
  finalize_session h = record { records = map finalize_record h.records }

  unfoldable pub tece_pairs : List (ConfidenceRecord K F) → List (F × Bool)
  tece_pairs [] = []
  tece_pairs (r ∷ rs) =
      let rest = tece_pairs rs in
      elim r.was_correct [ none ↦ rest | some c ↦ (r.confidence, c) ∷ rest ]

  unfoldable pub as_tece_input : ConfidenceHistory K F → List (F × Bool)
  as_tece_input h = tece_pairs h.records

  unfoldable pub len : ConfidenceHistory K F → ℕ
  len h = length h.records

  unfoldable pub is_empty : ConfidenceHistory K F → Bool
  is_empty h = elim h.records [ [] ↦ true | _ ∷ _ ↦ false ]

  abbrev or_keep :
      ConfidenceHistory K F → Option (List (ConfidenceRecord K F)) → ConfidenceHistory K F
  or_keep h none = h
  or_keep h (some rs) = record { records = rs }

module _ {K F : Type 0} ⦃e : Eq K⦄ where
  -- `iter_mut().rev().find(..)` and a write: the last record of `id` is changed, `none` if there is none.
  unfoldable pub change_last :
      (ConfidenceRecord K F → ConfidenceRecord K F)
      → K
      → List (ConfidenceRecord K F)
      → Option (List (ConfidenceRecord K F))
  change_last f id [] = none
  change_last f id (r ∷ rs) = elim (change_last f id rs) [
    | some rs' ↦ some (r ∷ rs')
    | none ↦ if r.belief_id == id then some (f r ∷ rs) else none
  ]

  abbrev with_last :
      (ConfidenceRecord K F → ConfidenceRecord K F)
      → K
      → ConfidenceHistory K F
      → ConfidenceHistory K F
  with_last f id h = or_keep h (change_last f id h.records)

  abbrev pub set_correct : Bool → ConfidenceRecord K F → ConfidenceRecord K F
  set_correct correct r = record {
    belief_id = r.belief_id;
    confidence = r.confidence;
    was_correct = some correct;
    timestamp_ms = r.timestamp_ms;
  }

  unfoldable pub mark_correct : ConfidenceHistory K F → K → Bool → ConfidenceHistory K F
  mark_correct h id correct = with_last (set_correct correct) id h

  abbrev pub set_confidence : F → ConfidenceRecord K F → ConfidenceRecord K F
  set_confidence confidence r = record {
    belief_id = r.belief_id;
    confidence = confidence;
    was_correct = r.was_correct;
    timestamp_ms = r.timestamp_ms;
  }

  unfoldable pub replace_last_confidence : ConfidenceHistory K F → K → F → ConfidenceHistory K F
  replace_last_confidence h id confidence = with_last (set_confidence confidence) id h

  -- `id` has no record in `rs`.
  unfoldable pub HasNone : K → List (ConfidenceRecord K F) → Type 0
  HasNone id [] = Unit
  HasNone id (r ∷ rs) = (r.belief_id ≢ id) × HasNone id rs

  change_last-later :
      (f : ConfidenceRecord K F → ConfidenceRecord K F) (id : K) (rs : List (ConfidenceRecord K F))
      → HasNone id rs
      → change_last f id rs ≡ none
  unfolding change_last HasNone
  change_last-later f id [] h = refl
  change_last-later f id (r ∷ rs) h =
      rw (change_last-later f id rs h.1) (elim (Bool-cases (r.belief_id == id)) [
        | inl t ↦ absurd (h.0 ((e.beq_iff r.belief_id id).0 t))
        | inr n ↦ rw n refl
      ])

  change_last_lem :
      (f : ConfidenceRecord K F → ConfidenceRecord K F) (id : K)
      (before : List (ConfidenceRecord K F)) (r : ConfidenceRecord K F)
      (later : List (ConfidenceRecord K F))
      → r.belief_id ≡ id
      → HasNone id later
      → change_last f id (before ++ r ∷ later) ≡ some (before ++ f r ∷ later)
  unfolding change_last
  change_last_lem f id [] r later p h =
      rw (change_last-later f id later h, (e.beq_iff r.belief_id id).1 p) refl
  change_last_lem f id (x ∷ before) r later p h = rw (change_last_lem f id before r later p h) refl

  -- Marking a belief whose last record is given, with records of other beliefs only after it, sets
  -- the outcome of that record and changes nothing else.
  pub mark_correct_lem :
      (before : List (ConfidenceRecord K F)) (r : ConfidenceRecord K F)
      (later : List (ConfidenceRecord K F)) (correct : Bool)
      → HasNone r.belief_id later
      → mark_correct (record { records = before ++ r ∷ later }) r.belief_id correct
        ≡ record { records = before ++ set_correct correct r ∷ later }
  unfolding mark_correct
  mark_correct_lem before r later correct h =
      ap (or_keep _) (change_last_lem (set_correct correct) r.belief_id before r later refl h)

  -- System 2's confidence supersedes the one of the most recent record and nothing else.
  pub replace_last_confidence_lem :
      (before : List (ConfidenceRecord K F)) (r : ConfidenceRecord K F)
      (later : List (ConfidenceRecord K F)) (confidence : F)
      → HasNone r.belief_id later
      → replace_last_confidence (record { records = before ++ r ∷ later }) r.belief_id confidence
        ≡ record { records = before ++ set_confidence confidence r ∷ later }
  unfolding replace_last_confidence
  replace_last_confidence_lem before r later confidence h =
      ap (or_keep _) (change_last_lem (set_confidence confidence) r.belief_id before r later refl h)

module _ {K F : Type 0} where
  -- `none` outcomes count as correct.
  unfoldable pub assumed : ConfidenceRecord K F → F × Bool
  assumed r = (r.confidence, elim r.was_correct [ none ↦ true | some c ↦ c ])

  tece_pairs-finalized :
      (rs : List (ConfidenceRecord K F)) → tece_pairs (map finalize_record rs) ≡ map assumed rs
  unfolding tece_pairs finalize_record assumed
  tece_pairs-finalized [] = refl
  tece_pairs-finalized (r ∷ rs) = elim (Option-cases r.was_correct) [
    | inl n ↦ rw (n, tece_pairs-finalized rs) refl
    | inr (c, s) ↦ rw (s, tece_pairs-finalized rs) refl
  ]

  assumed-finalize_record : (r : ConfidenceRecord K F) → assumed (finalize_record r) ≡ assumed r
  unfolding assumed finalize_record
  assumed-finalize_record r = by-outcome r.was_correct
    where
      with_outcome : Option Bool → ConfidenceRecord K F
      with_outcome o = record {
        belief_id = r.belief_id;
        confidence = r.confidence;
        was_correct = o;
        timestamp_ms = r.timestamp_ms;
      }

      by-outcome :
          (o : Option Bool) → assumed (finalize_record (with_outcome o)) ≡ assumed (with_outcome o)
      by-outcome none = refl
      by-outcome (some c) = refl

  -- After the session is finalized the calibration input has every record in order, with a belief
  -- that was never contradicted counted as correct, and finalizing once more does not change it.
  pub as_tece_input-finalize_session :
      (h : ConfidenceHistory K F)
      → (as_tece_input (finalize_session h) ≡ map assumed h.records)
        × (as_tece_input (finalize_session (finalize_session h)) ≡ map assumed h.records)
  unfolding as_tece_input finalize_session finalize_record assumed
  as_tece_input-finalize_session h = (
    tece_pairs-finalized h.records,
    tece_pairs-finalized (map finalize_record h.records) ∙ same h.records,
  )
    where
      same :
          (rs : List (ConfidenceRecord K F)) → map assumed (map finalize_record rs) ≡ map assumed rs
      same [] = refl
      same (r ∷ rs) = ap₂ (◌∷◌) (assumed-finalize_record r) (same rs)
