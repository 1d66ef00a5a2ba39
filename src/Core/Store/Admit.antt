-- ===== src/Core/Store/Admit.antt =====
-- Store.admit: the durable defence against a second execution of the same dispatch. The attempt's
-- run_dir, a path on disk, is left out.
pub mod Once
use quaestor.Base.{
  ℕ, String, Bool, true, false, ◌&&◌, ◌||◌, Option, none, some, List, [], ◌∷◌, ◌++◌, any, filter,
  ltb, ◌==◌, if◌then◌else◌,
}
use quaestor.Core.Domain.{created, is_active}
use quaestor.Core.Store.Rows.{
  Host, DispatchIdentity, key_material, dispatch_key, Workflow, Dispatch, Attempt, Store, log,
  event, get_dispatch,
}

pub record Admission : Type 0 where
  pub run_id : String
  pub dispatch_key : String
  pub created : Bool
  pub run : Option Attempt
  pub dispatch : Dispatch

-- `INSERT OR IGNORE INTO workflow`.
unfoldable pub ensure_workflow : ℕ → String → String → Store → Store
ensure_workflow now workflow_id title s =
    if any (λ w. w.workflow_id == workflow_id) s.workflows then s else record s {
      workflows =
          s.workflows
          ++ (record { workflow_id = workflow_id; title = title; created_at = now }) ∷ [];
    }

-- `ORDER BY attempt_no DESC LIMIT 1`.
later_attempt : Attempt → Option Attempt → Attempt
later_attempt a none = a
later_attempt a (some b) = if ltb a.attempt_no b.attempt_no then b else a

latest : List Attempt → Option Attempt
unfolding later_attempt
latest [] = none
latest (a ∷ rest) = some (later_attempt a (latest rest))

unfoldable pub latest_attempt : Store → String → Option Attempt
unfolding latest
latest_attempt s key = latest (filter (λ a. a.dispatch_key == key) s.attempts)

run_id_of : Option Attempt → String
run_id_of none = ""
run_id_of (some a) = a.run_id

-- The branch of a key that has been admitted already.
unfoldable pub duplicate : ℕ → String → Dispatch → Store → Store × Admission
unfolding run_id_of
duplicate now key existing s =
    let run = latest_attempt s key in
    (
      log (event now (run_id_of run) key "dispatch.duplicate") s,
      record {
        run_id = run_id_of run;
        dispatch_key = key;
        created = false;
        run = run;
        dispatch = existing;
      },
    )

unfoldable pub new_attempt : ℕ → String → String → String → Bool → Attempt
new_attempt now run_id nonce key is_write = record {
  run_id = run_id;
  dispatch_key = key;
  attempt_no = 1;
  run_nonce = nonce;
  execution_state = created;
  is_write = is_write;
  created_at = now;
  updated_at = now;
  terminal_at = none;
  refusal_reason = none;
}

-- What the primary key and the index attempt_one_active refuse.
unfoldable pub collides : Attempt → List Attempt → Bool
collides new rows =
    any
      (λ a.
        a.run_id == new.run_id || a.dispatch_key == new.dispatch_key && is_active a.execution_state)
      rows

admitted_event : ℕ → Attempt → Store → Store
admitted_event now a s =
    log
      (record {
        at = now;
        run_id = a.run_id;
        dispatch_key = a.dispatch_key;
        kind = "dispatch.admitted";
        from_state = none;
        to_state = some created;
      })
      s

-- The branch of a new key.
unfoldable pub admit_new : ℕ → Dispatch → Attempt → Store → Option (Store × Admission)
unfolding admitted_event
admit_new now d a s =
    if collides a s.attempts
    then none
    else some (
      admitted_event now a
          (record s { dispatches = s.dispatches ++ d ∷ []; attempts = s.attempts ++ a ∷ [] }),
      record {
        run_id = a.run_id;
        dispatch_key = a.dispatch_key;
        created = true;
        run = some a;
        dispatch = d;
      },
    )

-- admit; `none` is an IntegrityError, which rolls the transaction back.
unfoldable pub admit :
    Host
    → ℕ
    → String
    → String
    → Bool
    → String
    → DispatchIdentity
    → Store
    → Option (Store × Admission)
admit host now run_id nonce is_write title identity s =
    let key = dispatch_key host identity in
    let s' = ensure_workflow now identity.workflow_id title s in
    elim (get_dispatch s' key) [
      | some existing ↦ some (duplicate now key existing s')
      | none ↦
          admit_new now
            (record { dispatch_key = key; material = key_material host identity; created_at = now })
            (new_attempt now run_id nonce key is_write) s'
    ]
