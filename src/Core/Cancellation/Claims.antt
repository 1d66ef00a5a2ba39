-- ===== src/Core/Cancellation/Claims.antt =====
-- What the outcomes of classify_cancel claim, at the stage that stage_for reports.
use quaestor.Base.{
  String, ◌≡◌, ◌⊎◌, Bool, true, false, Option, arith, refl, ◌≢◌, all, all-elem, is_true, ◌&&◌,
  and_true,
}
use quaestor.Core.Domain.{
  is_active, is_terminal, can_transition, active_states, transitions, refusals, terminal_states,
  all_states,
}
use quaestor.Core.Domain.Graph.{active-not-terminal}
use quaestor.Core.Cancellation.{
  Stage, Outcome, cancelled, noop, outcome_text, classify_cancel, stage_for,
}

-- The text of an outcome is a state that every active state may move to.
abbrev recordable : Outcome → String → Bool
recordable o s = can_transition s (outcome_text o) && is_terminal (outcome_text o)

recordable_checked : (o : Outcome) → o ≢ noop → all (recordable o) active_states ≡ true
unfolding outcome_text can_transition transitions refusals is_terminal terminal_states all_states
    is_active active_states
recordable_checked cancelled h = refl
recordable_checked noop h = absurd (h refl)
recordable_checked _ h = refl

outcome_known :
    (state : String) (stage : Stage) (write child : Bool) (measurable changed : Option Bool)
    → is_terminal state ≡ false
    → (classify_cancel state stage write child measurable changed).outcome ≢ noop
unfolding classify_cancel
outcome_known state stage write child measurable changed h = ground arith

outcome_recordable :
    (state : String) (o : Outcome)
    → is_active state ≡ true
    → o ≢ noop
    → (can_transition state (outcome_text o) ≡ true) × (is_terminal (outcome_text o) ≡ true)
unfolding is_active
outcome_recordable state o active known =
    and_true _ _ (all-elem (recordable o) state active_states (recordable_checked o known) active)

terminal_is_noop :
    (state : String) (stage : Stage) (write child : Bool) (measurable changed : Option Bool)
    → is_terminal state ≡ true
    → let d = classify_cancel state stage write child measurable changed in
      (d.outcome ≡ noop) × (d.idempotent_noop ≡ true)
unfolding classify_cancel
terminal_is_noop state stage write child measurable changed h = ground arith

-- No cancellation lets the run be dispatched again.
pub cancel_never_redispatches :
    (state : String) (stage : Stage) (write child : Bool) (measurable changed : Option Bool)
    → (classify_cancel state stage write child measurable changed).may_redispatch ≡ false
unfolding classify_cancel
cancel_never_redispatches state stage write child measurable changed = ground arith

-- The outcome of a cancellation of an active run is a state that the transition graph allows from
-- there, and a second cancellation, in that state and with any readings, is a no-op.
pub cancel_twice_is_noop :
    (state : String) (stage stage2 : Stage) (write child write2 child2 : Bool)
    (measurable changed measurable2 changed2 : Option Bool)
    → is_active state ≡ true
    → let first = classify_cancel state stage write child measurable changed in
      let recorded = outcome_text first.outcome in
      let second = classify_cancel recorded stage2 write2 child2 measurable2 changed2 in
      (can_transition state recorded ≡ true)
      × (second.outcome ≡ noop)
      × (second.idempotent_noop ≡ true)
cancel_twice_is_noop state stage stage2 write child write2 child2 m c m2 c2 active =
    let o = (classify_cancel state stage write child m c).outcome in
    let known = outcome_known state stage write child m c (active-not-terminal state active) in
    let (legal, final) = outcome_recordable state o active known in
    let (none_left, quiet) = terminal_is_noop (outcome_text o) stage2 write2 child2 m2 c2 final in
    (legal, none_left, quiet)

-- An active run is reported cancelled only if no child ran and no container was created, or the
-- target was measured and was not found changed.
pub cancelled_needs_measurement :
    (state : String) (container child write : Bool) (measurable changed : Option Bool)
    → is_active state ≡ true
    → let stage = stage_for state container child in
      let d = classify_cancel state stage write child measurable changed in
      d.outcome ≡ cancelled
      → ((container ≡ false) × (child ≡ false))
        ⊎ ((is_true measurable ≡ true) × (is_true changed ≡ false))
unfolding classify_cancel stage_for
cancelled_needs_measurement state container child write measurable changed active h =
    ground (arith, active-not-terminal state active)
