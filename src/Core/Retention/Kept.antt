-- ===== src/Core/Retention/Kept.antt =====
-- Which runs a sweep counts as held and as eligible.
use quaestor.Base.{
  ℕ, ◌+◌, String, ◌≡◌, refl, Bool, false, not, ◌&&◌, ◌||◌, filter, leb, ltb, eqb, none, some,
  Bool-cases, inl, inr, Option, List, [], ◌∷◌, elem, length, map, arith,
}
use quaestor.Base.Int.{ℤ}
use quaestor.Core.Domain.{is_terminal}
use quaestor.Core.Retention.{
  RetentionDecision, is_eligible, is_young, has_security_hold, owner_hold_states, classify, RunRow,
  age_of, counts_of, sweep,
}

-- A run is eligible for collection exactly when its state is terminal and is not held for the owner,
-- no security refusal is recorded, and it is at least as old as the window.
pub eligible_iff :
    (run_id state reason : String) (min_age : ℕ) (age : Option ℤ)
    → is_eligible (classify run_id state reason min_age age).retention_class ≡ (
        not (elem state owner_hold_states)
        && not (has_security_hold reason)
        && is_terminal state
        && not (is_young min_age age))
unfolding classify
eligible_iff run_id state reason min_age age = ground arith

-- A run's state or recorded refusal is held for the owner.
abbrev pub is_held : RunRow → Bool
is_held r = elem r.execution_state owner_hold_states || has_security_hold r.refusal_reason

-- The run is recorded to have ended at least the window ago.
abbrev pub is_old : ℕ → ℕ → Option ℕ → Bool
is_old min_age now none = false
is_old min_age now (some t) = not (eqb t 0) && leb (t + min_age) now

is_young-age_of :
    (min_age now : ℕ) (terminal_at : Option ℕ)
    → is_young min_age (age_of now terminal_at) ≡ not (is_old min_age now terminal_at)
unfolding age_of
is_young-age_of min_age now none = refl
is_young-age_of min_age now (some t) = elim (Bool-cases (eqb t 0)) [
  | inl never ↦ rw never refl
  | inr ended ↦ elim (Bool-cases (ltb now t)) [
    | inl later ↦ rw (ended, later) (ground (arith, later))
    | inr past ↦ rw (ended, past) (ground (arith, past))
  ]
]

-- A run that is over, not held, and at least as old as the window.
abbrev pub is_disposable : ℕ → ℕ → RunRow → Bool
is_disposable min_age now r =
    not (is_held r) && is_terminal r.execution_state && is_old min_age now r.terminal_at

abbrev classified : ℕ → ℕ → RunRow → RetentionDecision
classified min_age now r =
    classify r.run_id r.execution_state r.refusal_reason min_age (age_of now r.terminal_at)

counted_eligible :
    (runs : List RunRow) (min_age now : ℕ)
    → (counts_of (map (classified min_age now) runs)).eligible_for_gc
      ≡ length (filter (is_disposable min_age now) runs)
unfolding counts_of classify
counted_eligible [] min_age now = refl
counted_eligible (r ∷ runs) min_age now =
    ground (arith, is_young-age_of min_age now r.terminal_at, counted_eligible runs min_age now)

counted_held :
    (runs : List RunRow) (min_age now : ℕ)
    → (counts_of (map (classified min_age now) runs)).owner_hold ≡ length (filter is_held runs)
unfolding counts_of classify
counted_held [] min_age now = refl
counted_held (r ∷ runs) min_age now = ground (arith, counted_held runs min_age now)

-- The runs that a sweep counts as held for the owner are those whose state or whose recorded refusal
-- is held, and those it counts as eligible for collection are the ones that are not held, are over
-- and are recorded to have ended at least the window ago.
pub sweep_counts :
    (runs : List RunRow) (min_age now : ℕ)
    → let report = sweep runs min_age now in
      (report.counts.owner_hold ≡ length (filter is_held runs))
      × (report.counts.eligible_for_gc ≡ length (filter (is_disposable min_age now) runs))
unfolding sweep
sweep_counts runs min_age now = (counted_held runs min_age now, counted_eligible runs min_age now)
