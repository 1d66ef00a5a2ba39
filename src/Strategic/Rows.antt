-- ===== src/Strategic/Rows.antt =====
-- The tables of core/strategic_store.py that hold lanes, their leases and tasks, decisions and messages.
-- An event's id and its detail are left out.
use quaestor.Base.{ℕ, String, Option, none, some, List, [], ◌∷◌, ◌++◌, find, ◌==◌}
use quaestor.Strategic.Lanes.{Lane, Dependency}
use quaestor.Strategic.Decisions.{Decision}
use quaestor.Strategic.Messages.{Message}

-- LaneLease, a row of lane_lease; `released_at` is 0 while it is not released.
pub record LaneLease : Type 0 where
  pub lane_id : String
  pub owner_token : String
  pub actor_id : String
  pub fence : ℕ
  pub acquired_at : ℕ
  pub expires_at : ℕ
  pub released_at : ℕ

-- What json.loads makes of a column, a value inside it by its own JSON text. `other` is a text, a
-- number, a truth value or null.
pub data Document : Type 0 where
  object : List (String × String) → Document
  array : List String → Document
  other : Document

-- A JSON column holds what json.loads reads in it; `none` is a text that is not JSON. An empty
-- column reads as the empty document.
pub record LaneTask : Type 0 where
  pub lane_id : String
  pub task : String
  pub acceptance_json : Option Document
  pub executor_json : Option Document
  pub attempt : ℕ
  pub checkpoint_json : Option Document
  pub updated_at : ℕ

pub record Event : Type 0 where
  pub event_type : String
  pub at : ℕ
  pub program_id : String
  pub lane_id : String
  pub run_id : String
  pub actor_id : String

pub record StrategicStore : Type 0 where
  pub lane : List Lane
  pub lane_dependency : List Dependency
  pub lane_lease : List LaneLease
  pub lane_task : List LaneTask
  pub decision : List Decision
  pub message : List Message
  pub event : List Event

abbrev pub empty : StrategicStore
empty = record {
  lane = [];
  lane_dependency = [];
  lane_lease = [];
  lane_task = [];
  decision = [];
  message = [];
  event = [];
}

-- append_event.
abbrev pub append_event : Event → StrategicStore → StrategicStore
append_event e s = record s { event = s.event ++ e ∷ [] }

abbrev pub new_event : String → ℕ → String → String → String → String → Event
new_event event_type now program_id lane_id run_id actor_id = record {
  event_type = event_type;
  at = now;
  program_id = program_id;
  lane_id = lane_id;
  run_id = run_id;
  actor_id = actor_id;
}

unfoldable pub get_lane : String → StrategicStore → Option Lane
get_lane lane_id s = find (λ l. l.lane_id == lane_id) s.lane

-- `lane.program_id if lane else ""`.
abbrev pub program_of : Option Lane → String
program_of none = ""
program_of (some l) = l.program_id

-- _lease_row.
unfoldable pub lease_row : String → List LaneLease → Option LaneLease
lease_row lane_id rows = find (λ l. l.lane_id == lane_id) rows

unfoldable pub task_row : String → List LaneTask → Option LaneTask
task_row lane_id rows = find (λ t. t.lane_id == lane_id) rows
