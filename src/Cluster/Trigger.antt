-- ===== src/Cluster/Trigger.antt =====
-- The calls of `triggerMasterEvent`.
use study_notes.Base.{
  ℕ, zero, suc, ◌≡◌, refl, Bool, true, false, none, some, List, [], ◌∷◌, ◌++◌, arith, length,
  Bool-cases, inl, inr,
}
use study_notes.Cluster.Manager.{trigger_master_event}

-- Where no handler throws, each is called once, in the order of their registration, within one
-- round for each handler and one more.
trigger_master_event-quiet :
    (throws : ℕ → ℕ → Bool) (calls : ℕ) (handlers : List ℕ)
    → ((n h : ℕ) → throws n h ≡ false)
    → trigger_master_event throws (suc (length handlers)) calls handlers ≡ some handlers
unfolding trigger_master_event
trigger_master_event-quiet throws calls [] quiet = refl
trigger_master_event-quiet throws calls (h ∷ handlers) quiet =
    ground (arith, quiet calls h, trigger_master_event-quiet throws (suc calls) handlers quiet)

-- Where a registered handler throws at every call, `triggerMasterEvent` never returns: whatever
-- the fuel, its loop runs out of it.
pub trigger_master_event-throws :
    (throws : ℕ → ℕ → Bool) (fuel calls : ℕ) (before after : List ℕ) (handler : ℕ)
    → ((n : ℕ) → throws n handler ≡ true)
    → trigger_master_event throws fuel calls (before ++ handler ∷ after) ≡ none
unfolding trigger_master_event
trigger_master_event-throws throws zero calls before after handler bad = refl
trigger_master_event-throws throws (suc fuel) calls [] after handler bad =
    ground
      (arith, bad calls, trigger_master_event-throws throws fuel (suc calls) [] after handler bad)
trigger_master_event-throws throws (suc fuel) calls (h ∷ before) after handler bad =
    elim (Bool-cases (throws calls h)) [
      | inl again ↦ ground (
        arith,
        again,
        trigger_master_event-throws throws fuel (suc calls) (h ∷ before) after handler bad,
      )
      | inr next ↦ ground (
        arith,
        next,
        trigger_master_event-throws throws fuel (suc calls) before after handler bad,
      )
    ]
