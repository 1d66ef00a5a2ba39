-- ===== src/Core/Reconcile.antt =====
-- core/reconcile.py, classify: what happened to a run whose worker is no longer watched.
-- The reason texts and the evidence dictionary, which no code reads, are left out.
pub mod Redispatch
use quaestor.Base.{
  String, Bool, true, false, not, ◌&&◌, ◌||◌, Option, none, some, List, [], ◌∷◌, elem, is_true,
  is_some, if◌then◌else◌,
}
use quaestor.Base.Int.{ℤ, is_zero}
use quaestor.Core.Domain
use quaestor.Core.Domain.{is_terminal, created, preflight, leased}
use quaestor.Core.Proc.{Liveness, alive, dead, unknown}

pub data Classification : Type 0 where
  running process_failed worker_failed interrupted ambiguous_execution : Classification
  terminal_already never_dispatched : Classification

pub data RecoveryAuthority : Type 0 where
  nobody gpt_orchestrator owner : RecoveryAuthority

-- STATE_FOR.
unfoldable pub state_for : Classification → Option String
state_for process_failed = some Domain.claude_failed
state_for worker_failed = some Domain.worker_failed
state_for interrupted = some Domain.interrupted
state_for ambiguous_execution = some Domain.ambiguous_execution
state_for _ = none

pub record Reconciliation : Type 0 where
  pub classification : Classification
  pub auto_redispatch_allowed : Bool
  pub recovery_authority : RecoveryAuthority
  pub target_state : Option String

-- exit.json: `started` when it is a literal boolean, `exit_code` when it is an integer.
pub record ExitReceipt : Type 0 where
  pub started : Option Bool
  pub exit_code : Option ℤ

-- PRE_SPAWN_STATES.
unfoldable pub pre_spawn_states : List String
pre_spawn_states = created ∷ preflight ∷ leased ∷ []

abbrev pub failing_code : Option ℤ → Bool
failing_code none = false
failing_code (some code) = not (is_zero code)

outcome : Classification → Bool → RecoveryAuthority → Reconciliation
unfolding state_for
outcome c redispatch authority = record {
  classification = c;
  auto_redispatch_allowed = redispatch;
  recovery_authority = authority;
  target_state = state_for c;
}

-- The branches with a terminal receipt.
with_receipt : Bool → Option Bool → Option Bool → ExitReceipt → Reconciliation
unfolding outcome
with_receipt is_write result_valid observed_change receipt =
    if not (is_true receipt.started)
    then outcome worker_failed true gpt_orchestrator
    else if is_true result_valid
    then outcome interrupted false gpt_orchestrator
    else if failing_code receipt.exit_code
    then outcome process_failed false gpt_orchestrator
    else if is_write || is_true observed_change
    then outcome ambiguous_execution false gpt_orchestrator
    else outcome interrupted false gpt_orchestrator

-- The branches with no receipt, of a worker that is not alive.
without_receipt : Liveness → Bool → Bool → Option Bool → Reconciliation
unfolding outcome
without_receipt unknown worker_started is_write observed_change =
    outcome ambiguous_execution false gpt_orchestrator
without_receipt _ worker_started is_write observed_change =
    if not worker_started
    then outcome worker_failed true gpt_orchestrator
    else if is_write || is_true observed_change
    then outcome ambiguous_execution false owner
    else outcome interrupted false gpt_orchestrator

abbrev pub is_alive : Liveness → Bool
is_alive alive = true
is_alive _ = false

unfoldable pub classify :
    String
    → Bool
    → Liveness
    → Bool
    → Option ExitReceipt
    → Option Bool
    → Option Bool
    → Bool
    → Reconciliation
unfolding outcome with_receipt without_receipt
classify run_state is_write liveness worker_started exit_receipt result_valid observed_change
      spawn_recorded =
    if is_terminal run_state
    then outcome terminal_already false nobody
    else if not spawn_recorded && elem run_state pre_spawn_states && not (is_some exit_receipt)
    then outcome never_dispatched true gpt_orchestrator
    else if is_alive liveness
    then outcome running false nobody
    else elim exit_receipt [
      | some receipt ↦ with_receipt is_write result_valid observed_change receipt
      | none ↦ without_receipt liveness worker_started is_write observed_change
    ]
