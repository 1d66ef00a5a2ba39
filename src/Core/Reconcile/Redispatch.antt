-- ===== src/Core/Reconcile/Redispatch.antt =====
-- When a classification lets a run be dispatched again, and what it never hides.
use quaestor.Base.{
  String, ◌≡◌, ◌≢◌, ◌⊎◌, Bool, true, false, Option, none, some, arith, elem, is_true, all, all-elem,
  refl, ◌∙◌, sym,
}
use quaestor.Core.Domain.{
  is_active, is_terminal, can_transition, active_states, transitions, refusals, terminal_states,
  all_states,
}
use quaestor.Core.Proc.{Liveness, alive, dead, unknown}
use quaestor.Core.Reconcile.{
  Classification, running, ambiguous_execution, ExitReceipt, classify, pre_spawn_states,
  failing_code, state_for,
}

-- A run may be dispatched again by itself only if it is not terminal and no child of it can have
-- started: the spawn step was never reached, or the worker's receipt says that the child did not
-- start, or the worker is dead and never recorded its own identity.
pub redispatch_only_if_never_started :
    (state : String) (is_write : Bool) (liveness : Liveness) (worker_started : Bool)
    (receipt : Option ExitReceipt) (valid observed : Option Bool) (spawned : Bool)
    → let r = classify state is_write liveness worker_started receipt valid observed spawned in
      r.auto_redispatch_allowed ≡ true
      → (is_terminal state ≡ false)
        × (((spawned ≡ false) × (elem state pre_spawn_states ≡ true) × (receipt ≡ none))
            ⊎ (((r : ExitReceipt) × (receipt ≡ some r) × (is_true r.started ≡ false))
                ⊎ ((receipt ≡ none) × (liveness ≡ dead) × (worker_started ≡ false))))
unfolding classify
redispatch_only_if_never_started state is_write liveness worker_started none valid observed spawned
      h =
    ground arith
redispatch_only_if_never_started state is_write liveness worker_started (some r) valid observed
      spawned h =
    ground arith

-- With no receipt and no verdict on the worker's liveness, a run that reached its spawn step is
-- classified ambiguous and is not dispatched again: UNKNOWN is never read as DEAD.
pub unknown_liveness_is_ambiguous :
    (state : String) (is_write worker_started : Bool) (valid observed : Option Bool)
    → is_terminal state ≡ false
    → let r = classify state is_write unknown worker_started none valid observed true in
      (r.classification ≡ ambiguous_execution) × (r.auto_redispatch_allowed ≡ false)
unfolding classify
unknown_liveness_is_ambiguous state is_write worker_started valid observed h = ground arith

-- A write run whose child started, which left no valid result and no failing exit code, and whose
-- worker does not hold its lock, is classified ambiguous and is not dispatched again.
pub unfinished_write_is_ambiguous :
    (state : String) (liveness : Liveness) (worker_started : Bool) (r : ExitReceipt)
    (valid observed : Option Bool) (spawned : Bool)
    → is_terminal state ≡ false
    → liveness ≢ alive
    → is_true r.started ≡ true
    → is_true valid ≡ false
    → failing_code r.exit_code ≡ false
    → let c = classify state true liveness worker_started (some r) valid observed spawned in
      (c.classification ≡ ambiguous_execution) × (c.auto_redispatch_allowed ≡ false)
unfolding classify
unfinished_write_is_ambiguous state alive worker_started r valid observed spawned t l s v c =
    absurd (l refl)
unfinished_write_is_ambiguous state liveness worker_started r valid observed spawned t l s v c =
    ground arith

target_of :
    (state : String) (is_write : Bool) (liveness : Liveness) (worker_started : Bool)
    (receipt : Option ExitReceipt) (valid observed : Option Bool) (spawned : Bool)
    → let r = classify state is_write liveness worker_started receipt valid observed spawned in
      r.target_state ≡ state_for r.classification
unfolding classify state_for
target_of state is_write liveness worker_started none valid observed spawned = ground arith
target_of state is_write liveness worker_started (some r) valid observed spawned = ground arith

-- A target that a classification can name is open from every active state.
open_targets : String → Classification → Bool
open_targets s c = elim (state_for c) [ none ↦ true | some t ↦ can_transition s t ]

targets_checked : (c : Classification) → all (λ s. open_targets s c) active_states ≡ true
unfolding open_targets state_for can_transition transitions refusals terminal_states all_states
    is_active active_states
targets_checked running = refl
targets_checked _ = refl

open_target :
    (s : String) (c : Classification) (t : String)
    → open_targets s c ≡ true
    → state_for c ≡ some t
    → can_transition s t ≡ true
unfolding open_targets
open_target s c t h e = ground arith

-- Whatever a run in an active state is classified as, the state that the classification maps to is
-- one that the transition graph allows from there.
pub target_is_legal :
    (state : String) (is_write : Bool) (liveness : Liveness) (worker_started : Bool)
    (receipt : Option ExitReceipt) (valid observed : Option Bool) (spawned : Bool) {t : String}
    → is_active state ≡ true
    → let r = classify state is_write liveness worker_started receipt valid observed spawned in
      r.target_state ≡ some t → can_transition state t ≡ true
unfolding is_active
target_is_legal state is_write liveness worker_started receipt valid observed spawned {t} h e =
    let r = classify state is_write liveness worker_started receipt valid observed spawned in
    let c = r.classification in
    let known = target_of state is_write liveness worker_started receipt valid observed spawned in
    let open_c = all-elem (λ s. open_targets s c) state active_states (targets_checked c) h in
    open_target state c t open_c (sym known ∙ e)
