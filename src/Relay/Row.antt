-- ===== src/Relay/Row.antt =====
-- relay/state.py and relay/kernel.py: the row of one relay, and how it is parked and resumed.
use quaestor.Base.{ℕ, ◌-◌, String, Bool, true, false, ◌&&◌, List, elem, leb, ◌==◌, if◌then◌else◌}

-- The columns of the relay table that these operations read or write.
pub record Row : Type 0 where
  pub state : String
  pub stop_reason : String
  pub exchange_no : ℕ
  pub owner_hold : String
  pub started_at : ℕ
  pub last_activity_at : ℕ

abbrev pub running : String
running = "RUNNING"

abbrev pub stopped : String
stopped = "STOPPED"

-- request_stop, and whether it applied.
unfoldable pub request_stop : ℕ → String → List String → Row → Row × Bool
request_stop now reason from_states row =
    if elem row.state from_states
    then (record row { state = stopped; stop_reason = reason; last_activity_at = now }, true)
    else (row, false)

-- resume_running, and whether it applied.
unfoldable pub resume_running : ℕ → String → String → Row → Row × Bool
resume_running now from_state from_stop_reason row =
    if row.state == from_state && row.stop_reason == from_stop_reason
    then (record row { state = running; stop_reason = ""; last_activity_at = now }, true)
    else (row, false)

-- The update of _finish.
unfoldable pub finish : ℕ → String → String → Row → Row
finish now reason state row = record row {
  state = state;
  stop_reason = reason;
  last_activity_at = now;
}

-- _ceiling_stop; the clock does not go back behind the start.
unfoldable pub ceiling_stop : ℕ → ℕ → ℕ → Row → String
ceiling_stop max_exchanges max_duration now row =
    if leb max_exchanges row.exchange_no
    then "MAX_EXCHANGES_REACHED"
    else if leb max_duration (now - row.started_at)
    then "MAX_DURATION_REACHED"
    else ""
