-- ===== src/Strategic/Tasks/Checkpoints.antt =====
-- What a lane's checkpoint keeps.
use quaestor.Base.{
  ℕ, ◌≡◌, refl, ap, ◌∙◌, String, Option, none, some, List, [], ◌∷◌, map, lookup, arith, ◌==◌,
  eq_iff, Bool-cases, inl, inr, if◌then◌else◌,
}
use mathlib.Core.Option
use quaestor.Strategic.Rows.{LaneTask, StrategicStore, task_row}
use quaestor.Strategic.Tasks.{
  upsert_task, new_task, retold, set_lane_task, with_attempt, write_attempt, entries, base_of, put,
  update, checkpoint_row, with_checkpoint, save_checkpoint, Command, tell, bump, save, perform, run,
}

-- The mapping in the checkpoint of a lane.
pub checkpoint_of : String → StrategicStore → List (String × String)
checkpoint_of lane_id s = base_of (task_row lane_id s.lane_task)

-- The last value for a key among items written in order.
pub last_value : String → List (String × String) → Option String → Option String
last_value k [] before = before
last_value k ((j, v) ∷ items) before = last_value k items (if k == j then some v else before)

lookup-put :
    (k j v : String) (m : List (String × String))
    → lookup k (put j v m) ≡ (if k == j then some v else lookup k m)
unfolding put
lookup-put k j v [] = ground arith
lookup-put k j v ((i, w) ∷ m) =
    ground (arith, eq_iff j i, eq_iff k j, eq_iff k i, lookup-put k j v m)

lookup-update :
    (k : String) (items m : List (String × String))
    → lookup k (update m items) ≡ last_value k items (lookup k m)
unfolding update last_value
lookup-update k [] m = refl
lookup-update k ((j, v) ∷ items) m =
    lookup-update k items (put j v m) ∙ rw (lookup-put k j v m) refl

-- The row of a lane after an upsert that keeps the key.
unfoldable pub upserted : LaneTask → (LaneTask → LaneTask) → Option LaneTask → LaneTask
upserted fresh f none = fresh
upserted fresh f (some row) = f row

pub upsert-task_row :
    (k : String) (fresh : LaneTask) (f : LaneTask → LaneTask) (rows : List LaneTask)
    → ((row : LaneTask) → (f row).lane_id ≡ row.lane_id)
    → task_row k (upsert_task fresh f rows)
      ≡ (if fresh.lane_id == k then some (upserted fresh f (task_row k rows)) else task_row k rows)
unfolding task_row upsert_task upserted
upsert-task_row k fresh f [] keeps = ground arith
upsert-task_row k fresh f (row ∷ rows) keeps = ground (
  arith,
  keeps row,
  eq_iff row.lane_id fresh.lane_id,
  eq_iff fresh.lane_id k,
  eq_iff row.lane_id k,
  upsert-task_row k fresh f rows keeps,
)

pub with_attempt-task_row :
    (now : ℕ) (k lane_id : String) (n : ℕ) (rows : List LaneTask)
    → task_row k (map (with_attempt now lane_id n) rows)
      ≡ Option.map (with_attempt now lane_id n) (task_row k rows)
unfolding task_row with_attempt
with_attempt-task_row now k lane_id n [] = refl
with_attempt-task_row now k lane_id n (row ∷ rows) =
    ground (arith, with_attempt-task_row now k lane_id n rows)

told_base :
    (now : ℕ) (lane_id task : String) (acceptance : List String) (executor : List (String × String))
    (k : String) (row : Option LaneTask)
    → base_of (
        some (
          upserted
            (new_task now lane_id task acceptance executor)
            (retold now task acceptance)
            row))
      ≡ base_of row
unfolding upserted base_of entries new_task retold
told_base now lane_id task acceptance executor k none = refl
told_base now lane_id task acceptance executor k (some row) = refl

attempted_base :
    (now : ℕ) (lane_id : String) (n : ℕ) (row : Option LaneTask)
    → base_of (Option.map (with_attempt now lane_id n) row) ≡ base_of row
unfolding base_of with_attempt
attempted_base now lane_id n none = refl
attempted_base now lane_id n (some row) = elim (Bool-cases (row.lane_id == lane_id)) [
  | inl mine ↦ rw mine refl
  | inr other ↦ rw other refl
]

saved_base :
    (now : ℕ) (lane_id : String) (merged : List (String × String)) (row : Option LaneTask)
    → base_of (some (upserted (checkpoint_row now lane_id merged) (with_checkpoint now merged) row))
      ≡ merged
unfolding upserted base_of entries checkpoint_row with_checkpoint
saved_base now lane_id merged none = refl
saved_base now lane_id merged (some row) = refl

pub retold-lane_id :
    (now : ℕ) (task : String) (acceptance : List String) (row : LaneTask)
    → (retold now task acceptance row).lane_id ≡ row.lane_id
unfolding retold
retold-lane_id now task acceptance row = refl

pub with_checkpoint-lane_id :
    (now : ℕ) (merged : List (String × String)) (row : LaneTask)
    → (with_checkpoint now merged row).lane_id ≡ row.lane_id
unfolding with_checkpoint
with_checkpoint-lane_id now merged row = refl

-- What a call makes of the value of a key in the checkpoint of a lane.
pub saved_value : String → String → Command → Option String → Option String
saved_value k lane_id (save l items program_id run_id) before =
    if l == lane_id then last_value k items before else before
saved_value k lane_id _ before = before

perform_value :
    (now : ℕ) (k lane_id : String) (cmd : Command) (s : StrategicStore)
    → lookup k (checkpoint_of lane_id (perform now cmd s))
      ≡ saved_value k lane_id cmd (lookup k (checkpoint_of lane_id s))
unfolding perform checkpoint_of saved_value set_lane_task write_attempt save_checkpoint
perform_value now k lane_id (tell l task acceptance executor) s =
    let upsert =
      upsert-task_row lane_id (new_task now l task acceptance executor) (retold now task acceptance)
        s.lane_task (retold-lane_id now task acceptance) in
    elim (Bool-cases (l == lane_id)) [
      | inl mine ↦
          rw
            (
              upsert,
              mine,
              told_base now l task acceptance executor k (task_row lane_id s.lane_task),
            )
            refl
      | inr other ↦ rw (upsert, other) refl
    ]
perform_value now k lane_id (bump l n) s =
    rw
      (
        with_attempt-task_row now lane_id l n s.lane_task,
        attempted_base now l n (task_row lane_id s.lane_task),
      )
      refl
perform_value now k lane_id (save l items program_id run_id) s =
    let merged = update (base_of (task_row l s.lane_task)) items in
    let upsert =
      upsert-task_row lane_id (checkpoint_row now l merged) (with_checkpoint now merged) s.lane_task
        (with_checkpoint-lane_id now merged) in
    elim (Bool-cases (l == lane_id)) [
      | inl mine ↦
          rw (upsert, mine, saved_base now l merged (task_row lane_id s.lane_task))
            (lookup-update k items (base_of (task_row l s.lane_task))
              ∙ rw ((eq_iff l lane_id).0 mine) refl)
      | inr other ↦ rw (upsert, other) refl
    ]

pub replayed : String → String → List (ℕ × Command) → Option String → Option String
replayed k lane_id [] before = before
replayed k lane_id ((now, cmd) ∷ rest) before =
    replayed k lane_id rest (saved_value k lane_id cmd before)

-- Whatever calls on one store object set tasks, count attempts and save checkpoints, for any lanes,
-- the checkpoint of a
-- lane has under a key the last value that a checkpoint of the lane was saved with, and the value
-- from before where no checkpoint of the lane named the key.
pub last_save_decides :
    (k lane_id : String) (h : List (ℕ × Command)) (s : StrategicStore)
    → lookup k (checkpoint_of lane_id (run h s))
      ≡ replayed k lane_id h (lookup k (checkpoint_of lane_id s))
unfolding run replayed
last_save_decides k lane_id [] s = refl
last_save_decides k lane_id ((now, cmd) ∷ rest) s =
    last_save_decides k lane_id rest (perform now cmd s)
    ∙ ap (replayed k lane_id rest) (perform_value now k lane_id cmd s)
