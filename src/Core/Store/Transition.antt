-- ===== src/Core/Store/Transition.antt =====
-- Store.transition: the durable, guarded change of a run's execution state.
pub mod Guard
use quaestor.Base.{
  ℕ, String, Bool, true, false, not, Option, none, some, List, [], ◌∷◌, map, ◌==◌, if◌then◌else◌,
}
use quaestor.Core.Domain.{can_transition, is_terminal}
use quaestor.Core.Store.Rows.{Store, Attempt, Event, log, get_run}

-- The three ways in which TransitionRefused is raised.
pub data Refusal : Type 0 where
  no_such_run moved_on illegal_transition : Refusal

pub data Outcome : Type 0 where
  moved : Attempt → Outcome
  refused : Refusal → Outcome

-- `expect_from is not None and src != expect_from`.
abbrev pub expected : Option String → String → Bool
expected none src = true
expected (some want) src = src == want

-- `COALESCE(new, old)`.
abbrev pub coalesce {ℓ} : {A : Type ℓ} → Option A → Option A → Option A
coalesce none old = old
coalesce (some new) old = some new

-- `reason or None`.
abbrev pub reason_or_none : String → Option String
reason_or_none reason = if reason == "" then none else some reason

-- The row as the UPDATE leaves it.
unfoldable pub moved_row : ℕ → String → String → Attempt → Attempt
moved_row now to_state reason row = record row {
  execution_state = to_state;
  updated_at = now;
  terminal_at = coalesce (if is_terminal to_state then some now else none) row.terminal_at;
  refusal_reason = coalesce (reason_or_none reason) row.refusal_reason;
}

-- `UPDATE attempt ... WHERE run_id=?`.
unfoldable pub update_run : String → (Attempt → Attempt) → List Attempt → List Attempt
update_run run_id f [] = []
update_run run_id f (a ∷ rest) = (if a.run_id == run_id then f a else a) ∷ update_run run_id f rest

apply_move : ℕ → String → String → String → Attempt → Store → Store
apply_move now run_id to_state reason row s =
    log
      (record {
        at = now;
        run_id = run_id;
        dispatch_key = row.dispatch_key;
        kind = "state";
        from_state = some row.execution_state;
        to_state = some to_state;
      })
      (record s { attempts = update_run run_id (moved_row now to_state reason) s.attempts })

guarded : ℕ → String → String → Option String → String → Attempt → Store → Store × Outcome
unfolding apply_move
guarded now run_id to_state expect_from reason row s =
    if not (expected expect_from row.execution_state)
    then (s, refused moved_on)
    else if not (can_transition row.execution_state to_state)
    then (s, refused illegal_transition)
    else (apply_move now run_id to_state reason row s, moved (moved_row now to_state reason row))

-- transition, at a time, of a run to a state, with the state that it is expected to be in and the
-- reason for the change.
unfoldable pub transition : ℕ → String → String → Option String → String → Store → Store × Outcome
unfolding guarded
transition now run_id to_state expect_from reason s = elim (get_run s run_id) [
  | none ↦ (s, refused no_such_run)
  | some row ↦ guarded now run_id to_state expect_from reason row s
]
