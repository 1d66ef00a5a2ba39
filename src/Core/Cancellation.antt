-- ===== src/Core/Cancellation.antt =====
-- core/cancellation.py: what a cancellation may honestly claim. Reason texts are left out.
pub mod Claims
use quaestor.Base.{
  String, Bool, true, false, not, ◌&&◌, ◌||◌, Option, none, some, List, [], ◌∷◌, elem, is_true,
  is_false, if◌then◌else◌,
}
use quaestor.Core.Domain
use quaestor.Core.Domain.{is_terminal, created, preflight, leased}

pub data Stage : Type 0 where
  before_worker before_container container_no_child child_running already_terminal : Stage

-- The outcomes; `noop` is ALREADY_TERMINAL.
pub data Outcome : Type 0 where
  cancelled interrupted ambiguous noop : Outcome

-- The text of an outcome: three of them are execution states.
unfoldable pub outcome_text : Outcome → String
outcome_text cancelled = Domain.cancelled
outcome_text interrupted = Domain.interrupted
outcome_text ambiguous = Domain.ambiguous_execution
outcome_text noop = "ALREADY_TERMINAL"

pub record CancelDecision : Type 0 where
  pub outcome : Outcome
  pub stage : Stage
  pub may_redispatch : Bool
  pub target_measured : Option Bool
  pub idempotent_noop : Bool

decided : Outcome → Stage → Option Bool → CancelDecision
decided outcome stage measured = record {
  outcome = outcome;
  stage = stage;
  may_redispatch = false;
  target_measured = measured;
  idempotent_noop = false;
}

abbrev pub is_before_environment : Stage → Bool
is_before_environment before_worker = true
is_before_environment before_container = true
is_before_environment _ = false

abbrev pub is_container_no_child : Stage → Bool
is_container_no_child container_no_child = true
is_container_no_child _ = false

-- The branches for a child that was running.
of_child : Stage → Bool → Option Bool → Option Bool → CancelDecision
unfolding decided
of_child stage is_write_capable target_measurable target_changed =
    if not is_write_capable
    then (if is_true target_measurable && is_false target_changed
        then decided cancelled stage (some true)
        else if is_true target_changed
        then decided interrupted stage (some true)
        else decided interrupted stage target_measurable)
    else if not (is_true target_measurable)
    then decided ambiguous stage target_measurable
    else if is_true target_changed
    then decided interrupted stage (some true)
    else decided cancelled stage (some true)

unfoldable pub classify_cancel :
    String → Stage → Bool → Bool → Option Bool → Option Bool → CancelDecision
unfolding decided of_child
classify_cancel run_state stage is_write_capable child_started target_measurable target_changed =
    if is_terminal run_state
    then record {
      outcome = noop;
      stage = already_terminal;
      may_redispatch = false;
      target_measured = none;
      idempotent_noop = true;
    }
    else if is_before_environment stage
    then decided cancelled stage none
    else if is_container_no_child stage && not child_started
    then (if is_true target_measurable && is_false target_changed
        then decided cancelled stage (some true)
        else decided interrupted stage target_measurable)
    else of_child stage is_write_capable target_measurable target_changed

unfoldable pub stage_for : String → Bool → Bool → Stage
stage_for run_state container_created child_started =
    if is_terminal run_state
    then already_terminal
    else if child_started
    then child_running
    else if container_created
    then container_no_child
    else if elem run_state (created ∷ preflight ∷ leased ∷ [])
    then before_worker
    else before_container
