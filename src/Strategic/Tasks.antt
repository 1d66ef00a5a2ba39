-- ===== src/Strategic/Tasks.antt =====
-- The lane_task table of core/strategic_store.py: a lane's task, its attempts and its checkpoint.
pub mod Checkpoints
use quaestor.Base.{
  ℕ, suc, String, Option, none, some, List, [], ◌∷◌, ◌++◌, map, ◌==◌, if◌then◌else◌,
}
use quaestor.Strategic.Rows.{
  Document, object, array, other, LaneTask, StrategicStore, append_event, new_event, get_lane,
  program_of, task_row,
}

-- `INSERT ... ON CONFLICT(lane_id) DO UPDATE`: the new row, or the update of the one that is there.
unfoldable pub upsert_task : LaneTask → (LaneTask → LaneTask) → List LaneTask → List LaneTask
upsert_task fresh update [] = fresh ∷ []
upsert_task fresh update (row ∷ rows) =
    let rest = upsert_task fresh update rows in
    if row.lane_id == fresh.lane_id then update row ∷ rows else row ∷ rest

unfoldable pub new_task : ℕ → String → String → List String → List (String × String) → LaneTask
new_task now lane_id task acceptance executor = record {
  lane_id = lane_id;
  task = task;
  acceptance_json = some (array acceptance);
  executor_json = some (object executor);
  attempt = 0;
  checkpoint_json = some (object []);
  updated_at = now;
}

-- The columns of the UPDATE; the executor is not among them.
unfoldable pub retold : ℕ → String → List String → LaneTask → LaneTask
retold now task acceptance row = record row {
  task = task;
  acceptance_json = some (array acceptance);
  updated_at = now;
}

unfoldable pub set_lane_task :
    ℕ → String → String → List String → List (String × String) → StrategicStore → StrategicStore
unfolding upsert_task new_task retold
set_lane_task now lane_id task acceptance executor s =
    append_event (new_event "LANE_TASK_SET" now (program_of (get_lane lane_id s)) lane_id "" "")
      (record s {
        lane_task =
            upsert_task (new_task now lane_id task acceptance executor) (retold now task acceptance)
              s.lane_task;
      })

-- get_lane_task(lane_id)["attempt"].
unfoldable pub attempt_of : Option LaneTask → ℕ
attempt_of none = 0
attempt_of (some row) = row.attempt

-- `UPDATE lane_task SET attempt=?, updated_at=? WHERE lane_id=?`.
unfoldable pub with_attempt : ℕ → String → ℕ → LaneTask → LaneTask
with_attempt now lane_id n row =
    if row.lane_id == lane_id then record row { attempt = n; updated_at = now } else row

unfoldable pub write_attempt : ℕ → String → ℕ → StrategicStore → StrategicStore
unfolding with_attempt
write_attempt now lane_id n s = record s {
  lane_task = map (with_attempt now lane_id n) s.lane_task;
}

-- bump_attempt where no other call comes between its read and its write: the store, and the number of
-- the attempt.
unfoldable pub bump_attempt : ℕ → String → StrategicStore → StrategicStore × ℕ
unfolding attempt_of write_attempt
bump_attempt now lane_id s =
    let next = suc (attempt_of (task_row lane_id s.lane_task)) in
    (write_attempt now lane_id next s, next)

-- The mapping in a checkpoint; anything else counts as the empty one.
unfoldable pub entries : Option Document → List (String × String)
entries (some (object m)) = m
entries _ = []

unfoldable pub base_of : Option LaneTask → List (String × String)
unfolding entries
base_of none = []
base_of (some row) = entries row.checkpoint_json

-- `d[k] = v`, and `d.update(...)`.
unfoldable pub put : String → String → List (String × String) → List (String × String)
put k v [] = (k, v) ∷ []
put k v ((j, w) ∷ m) = let rest = put k v m in if k == j then (j, v) ∷ m else (j, w) ∷ rest

unfoldable pub update : List (String × String) → List (String × String) → List (String × String)
unfolding put
update base [] = base
update base ((k, v) ∷ items) = update (put k v base) items

unfoldable pub checkpoint_row : ℕ → String → List (String × String) → LaneTask
checkpoint_row now lane_id merged = record {
  lane_id = lane_id;
  task = "";
  acceptance_json = some (array []);
  executor_json = some (object []);
  attempt = 0;
  checkpoint_json = some (object merged);
  updated_at = now;
}

unfoldable pub with_checkpoint : ℕ → List (String × String) → LaneTask → LaneTask
with_checkpoint now merged row = record row {
  checkpoint_json = some (object merged);
  updated_at = now;
}

-- save_checkpoint: the read and the write are under the lock of the store object, so they are one step
-- among the calls on one object.
unfoldable pub save_checkpoint :
    ℕ → String → List (String × String) → String → String → StrategicStore → StrategicStore
unfolding upsert_task base_of update checkpoint_row with_checkpoint
save_checkpoint now lane_id checkpoint program_id run_id s =
    let merged = update (base_of (task_row lane_id s.lane_task)) checkpoint in
    append_event (new_event "CHECKPOINT_SAVED" now program_id lane_id run_id "") (record s {
      lane_task =
          upsert_task (checkpoint_row now lane_id merged) (with_checkpoint now merged) s.lane_task;
    })

-- The calls on the table through one store object. A bump_attempt takes the lock twice: other calls may
-- come between its read, which changes nothing, and its write of whatever number it made of the read.
pub data Command : Type 0 where
  -- set_lane_task: the lane, the task, the acceptance criteria, the executor.
  tell : String → String → List String → List (String × String) → Command
  -- The write of bump_attempt: the lane, the number.
  bump : String → ℕ → Command
  -- save_checkpoint: the lane, the checkpoint, the program, the run.
  save : String → List (String × String) → String → String → Command

unfoldable pub perform : ℕ → Command → StrategicStore → StrategicStore
perform now (tell lane_id task acceptance executor) s =
    set_lane_task now lane_id task acceptance executor s
perform now (bump lane_id n) s = write_attempt now lane_id n s
perform now (save lane_id checkpoint program_id run_id) s =
    save_checkpoint now lane_id checkpoint program_id run_id s

-- A history, with the clock's reading at each call.
unfoldable pub run : List (ℕ × Command) → StrategicStore → StrategicStore
unfolding perform
run [] s = s
run ((now, c) ∷ rest) s = run rest (perform now c s)
