-- ===== src/Examples/Runs.antt =====
-- Runs, leases, reconciliations and cancellations at concrete readings.
use quaestor.Base.{
  ℕ, ◌≤◌, String, ◌≡◌, ◌≢◌, ◌⊎◌, refl, true, false, Option, none, some, List, [], ◌∷◌, elem, length,
  is_some, is_true, is_false, arith,
}
use quaestor.Base.Int.{pos}
use quaestor.Core.Domain.{
  created, dispatched, running, result_received, evidence_collected, handoff_ready, all_states,
  active_states, is_active, terminal_states, is_terminal, refusals, transitions, can_transition,
}
use quaestor.Core.Domain.History.{is_history, last, history_bounded, handoff_passes_through}
use quaestor.Core.Proc.{lock_free, dead, alive, classify_liveness, both_known, times_agree}
use quaestor.Core.Lease.{Lease, may_reclaim, liveness_permits_reclaim}
use quaestor.Core.Lease.Ownership.{reclaim_needs_dead_and_terminal}
use quaestor.Core.Reconcile.{ExitReceipt, classify, pre_spawn_states}
use quaestor.Core.Reconcile.Redispatch.{redispatch_only_if_never_started, target_is_legal}
use quaestor.Core.Cancellation
use quaestor.Core.Cancellation.{
  Stage, child_running, before_worker, classify_cancel, outcome_text, stage_for,
}
use quaestor.Core.Cancellation.Claims.{cancelled_needs_measurement}

-- The graph at two edges.
handed_over : can_transition "HANDOFF_READY" "HANDED_TO_ORCHESTRATOR" ≡ true
unfolding can_transition transitions refusals all_states terminal_states is_active active_states
handed_over = refl

ready_is_terminal : is_terminal "HANDOFF_READY" ≡ true
unfolding is_terminal terminal_states is_active active_states all_states
ready_is_terminal = refl

abbrev whole_run : List String
whole_run =
    "PREFLIGHT" ∷ "LEASED" ∷ "DISPATCHED" ∷ "RUNNING" ∷ "RESULT_RECEIVED" ∷ "EVIDENCE_COLLECTED"
    ∷ "HANDOFF_READY" ∷ []

whole_run-is_history : is_history created whole_run ≡ true
unfolding can_transition transitions refusals all_states terminal_states is_active active_states
whole_run-is_history = refl

history_bounded_example : length whole_run ≤ 8
history_bounded_example = history_bounded created whole_run whole_run-is_history

whole_run_ends : last created whole_run ≡ handoff_ready
whole_run_ends = refl

handoff_passes_through_example :
    (elem dispatched whole_run ≡ true)
    × (elem running whole_run ≡ true)
    × (elem result_received whole_run ≡ true)
    × (elem evidence_collected whole_run ≡ true)
handoff_passes_through_example =
    handoff_passes_through whole_run whole_run-is_history whole_run_ends

abbrev worker_pid : Option ℕ
worker_pid = some 7

abbrev lease : Lease
lease = record {
  lease_id = "l";
  repo_id = "r";
  worktree_path = "/t";
  expected_branch = "main";
  expected_head = "h";
  holder_run_id = "run";
  epoch = 1;
  acquired_at = 1;
  heartbeat_at = some 100;
  released_at = none;
  release_reason = "";
}

ambiguous_is_terminal : is_terminal "AMBIGUOUS_EXECUTION" ≡ true
unfolding is_terminal terminal_states is_active active_states all_states
ambiguous_is_terminal = refl

reclaimed :
    may_reclaim
      (some lease)
      "AMBIGUOUS_EXECUTION"
      (classify_liveness lock_free worker_pid none none (some false))
    ≡ true
unfolding may_reclaim liveness_permits_reclaim classify_liveness
reclaimed = rw ambiguous_is_terminal refl

reclaim_needs_dead_and_terminal_example :
    (is_terminal "AMBIGUOUS_EXECUTION" ≡ true)
    × (lock_free ≡ lock_free)
    × (is_some worker_pid ≡ true)
    × ((is_false (some false) ≡ true)
        ⊎ ((both_known none none ≡ true) × (times_agree none none ≡ false)))
reclaim_needs_dead_and_terminal_example =
    reclaim_needs_dead_and_terminal (some lease) "AMBIGUOUS_EXECUTION" lock_free worker_pid none
      none (some false) reclaimed

running_is_open : is_terminal "RUNNING" ≡ false
unfolding is_terminal terminal_states is_active active_states all_states
running_is_open = refl

abbrev never_started : ExitReceipt
never_started = record { started = some false; exit_code = none }

abbrev unfinished : ExitReceipt
unfinished = record { started = some true; exit_code = some (pos 0) }

may_redispatch :
    (classify "RUNNING" true dead true (some never_started) none none true).auto_redispatch_allowed
    ≡ true
unfolding classify
may_redispatch = rw running_is_open refl

redispatch_only_if_never_started_example :
    (is_terminal "RUNNING" ≡ false)
    × (((true ≡ false) × (elem "RUNNING" pre_spawn_states ≡ true) × (some never_started ≡ none))
        ⊎ (((r : ExitReceipt) × (some never_started ≡ some r) × (is_true r.started ≡ false))
            ⊎ ((some never_started ≡ none) × (dead ≡ dead) × (true ≡ false))))
redispatch_only_if_never_started_example =
    redispatch_only_if_never_started "RUNNING" true dead true (some never_started) none none true
      may_redispatch

dead_is_not_alive : dead ≢ alive
dead_is_not_alive e = absurd (ground (arith, e))

running_is_active : is_active "RUNNING" ≡ true
unfolding is_active active_states
running_is_active = refl

targets_failed :
    (classify "RUNNING" true dead true (some never_started) none none true).target_state
    ≡ some "WORKER_FAILED"
unfolding classify
targets_failed = rw running_is_open refl

target_is_legal_example : can_transition "RUNNING" "WORKER_FAILED" ≡ true
target_is_legal_example =
    target_is_legal "RUNNING" true dead true (some never_started) none none true running_is_active
      targets_failed

reported_cancelled :
    let d =
      classify_cancel "RUNNING"
        (stage_for "RUNNING" true true)
        true
        true
        (some true)
        (some false) in
    d.outcome ≡ Cancellation.cancelled
unfolding classify_cancel stage_for
reported_cancelled = rw running_is_open refl

cancelled_needs_measurement_example :
    ((true ≡ false) × (true ≡ false))
    ⊎ ((is_true (some true) ≡ true) × (is_true (some false) ≡ false))
cancelled_needs_measurement_example =
    cancelled_needs_measurement "RUNNING" true true true (some true) (some false) running_is_active
      reported_cancelled
