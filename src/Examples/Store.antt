-- ===== src/Examples/Store.antt =====
-- core/store.py at a concrete history: one dispatch, admitted twice, run, leased and finished.
use quaestor.Base.{ℕ, ◌≤◌, String, ◌≡◌, refl, true, false, none, some, List, [], ◌∷◌, all}
use quaestor.Core.OwnerChannel.{at, Grant}
use quaestor.Core.Domain.{
  is_terminal, terminal_states, is_active, active_states, all_states, can_transition, transitions,
  refusals,
}
use quaestor.Core.Lease.{Lease}
use quaestor.Core.Store.Rows.{
  get_dispatch, Host, DispatchIdentity, dispatch_key, key_material, Attempt, Store, empty, get_run,
}
use quaestor.Core.Store.Transition.{moved, refused, moved_on, no_such_run, moved_row, transition}
use quaestor.Core.Store.Transition.Guard.{second_writer_refused, IsOver}
use quaestor.Core.Store.Admit.{Admission, admit, admit_new, ensure_workflow, new_attempt, collides}
use quaestor.Core.Store.History.Readmitted.{readmitted_as_first_run}
use quaestor.Core.Store.Admit.Once.{runs_of, is_registered}
use quaestor.Core.Store.Leasing.{
  active_lease, active_on, max_epoch, insertable, new_lease, insert_lease, acquire_lease,
}
use quaestor.Core.Store.Leasing.Exclusive.{holders, before, epochs_grow}
use quaestor.Core.Store.History.{Command, admission, move, acquire, admitted_or_else, run}
use quaestor.Core.Store.History.Invariants.{one_attempt_per_dispatch}
use quaestor.Core.Store.History.Holders.{one_holder_per_worktree}
use quaestor.Core.Store.History.Over.{run-IsOver}

abbrev host : Host
host = record { canonical_path = λ p. p; lower = λ s. s; sha256_obj = λ m. m.step_id }

abbrev identity : DispatchIdentity
identity = record {
  workflow_id = "w";
  step_id = "s";
  prompt_sha256 = "p";
  repo_id = "r";
  worktree_path = "/t";
  expected_branch = "main";
  expected_head = "h";
  authority_profile = "READ_ONLY";
  capabilities = [];
}

abbrev attempt : String → Attempt
attempt state = record {
  run_id = "run";
  dispatch_key = "s";
  attempt_no = 1;
  run_nonce = "n";
  execution_state = state;
  is_write = true;
  created_at = 1;
  updated_at = 1;
  terminal_at = none;
  refusal_reason = none;
}

abbrev other_attempt : Attempt
other_attempt = record (attempt "CREATED") { run_id = "other"; dispatch_key = "t" }

abbrev with_runs : List Attempt → Store
with_runs runs = record empty { attempts = runs }

abbrev lease : Lease
lease = record {
  lease_id = "l";
  repo_id = "r";
  worktree_path = "/t";
  expected_branch = "main";
  expected_head = "h";
  holder_run_id = "run";
  epoch = 4;
  acquired_at = 1;
  heartbeat_at = some 1;
  released_at = none;
  release_reason = "";
}

abbrev leased : Store
leased = record empty { attempts = attempt "LEASED" ∷ other_attempt ∷ []; leases = lease ∷ [] }

abbrev vacated : Store
vacated = record leased { leases = record lease { released_at = some 3 } ∷ [] }

abbrev registered : Store
registered = record empty {
  attempts = attempt "RUNNING" ∷ [];
  dispatches = record { dispatch_key = "s"; material = identity; created_at = 1 } ∷ [];
}

abbrev history : List (ℕ × Command)
history =
    (1, admission "run" "n" true "title" identity)
    ∷ (2, admission "again" "m" true "title" identity)
    ∷ (3, move "run" "PREFLIGHT" (some "CREATED") "")
    ∷ (4, acquire "l" "r" "/t" "main" "h" "run")
    ∷ (5, acquire "k" "r" "/t" "main" "h" "again")
    ∷ []

one_attempt_per_dispatch_example :
    (runs_of "s" (run host history empty) ≤ 1)
    × (is_registered "s" (run host history empty) ≡ false
        → runs_of "s" (run host history empty) ≡ 0)
one_attempt_per_dispatch_example = one_attempt_per_dispatch host history "s"

one_holder_per_worktree_example : holders "/t" (run host history empty) ≤ 1
one_holder_per_worktree_example = one_holder_per_worktree host history "/t"

finished : is_terminal "INTERRUPTED" ≡ true
unfolding is_terminal terminal_states is_active active_states all_states
finished = refl

finished_IsOver : IsOver "run" (with_runs (attempt "INTERRUPTED" ∷ []))
unfolding get_run
finished_IsOver = (attempt "INTERRUPTED", refl, finished)

run-IsOver_example : IsOver "run" (run host history (with_runs (attempt "INTERRUPTED" ∷ [])))
run-IsOver_example =
    run-IsOver host history "run" (with_runs (attempt "INTERRUPTED" ∷ [])) finished_IsOver

abbrev admitted_store : Store
admitted_store = admitted_or_else empty (admit host 1 "run" "n" true "title" identity empty)

abbrev first_admission : Admission
first_admission = record {
  run_id = "run";
  dispatch_key = "s";
  created = true;
  run = some (new_attempt 1 "run" "n" "s" true);
  dispatch = record { dispatch_key = "s"; material = key_material host identity; created_at = 1 };
}

admitted_first :
    admit host 1 "run" "n" true "title" identity empty ≡ some (admitted_store, first_admission)
unfolding admit admit_new admitted_or_else ensure_workflow get_dispatch new_attempt dispatch_key
    key_material collides
admitted_first = refl

readmitted_as_first_run_example :
    let s = run host history admitted_store in
    (s' : Store) × (r : Admission) × (admit host 9 "new" "x" true "title" identity s ≡ some (s', r))
    × (s'.attempts ≡ s.attempts)
    × (r.created ≡ false)
    × (r.run_id ≡ "run")
unfolding run
readmitted_as_first_run_example =
    readmitted_as_first_run host [] 1 "run" "n" "title" true identity admitted_store first_admission
      history 9 "new" "x" "title" true admitted_first refl

missing_run : (transition 5 "nobody" "PREFLIGHT" none "" leased).1 ≡ refused no_such_run
unfolding transition get_run
missing_run = refl

legal : can_transition "LEASED" "DISPATCHED" ≡ true
unfolding can_transition transitions refusals all_states terminal_states is_active active_states
legal = refl

first_writer :
    (transition 5 "run" "DISPATCHED" (some "LEASED") "" leased).1
    ≡ moved (moved_row 5 "DISPATCHED" "" (attempt "LEASED"))
unfolding transition get_run
first_writer = rw legal refl

second_writer_refused_example :
    let s' = (transition 5 "run" "DISPATCHED" (some "LEASED") "" leased).0 in
    transition 6 "run" "CANCELLED" (some "LEASED") "" s' ≡ (s', refused moved_on)
second_writer_refused_example =
    second_writer_refused 5 6 "run" "LEASED" "DISPATCHED" "CANCELLED" "" "" leased
      (moved_row 5 "DISPATCHED" "" (attempt "LEASED")) first_writer

vacant : active_lease (host.canonical_path "/t") vacated ≡ none
unfolding active_lease active_on
vacant = refl

abbrev next_lease : Lease
next_lease = record lease { lease_id = "m"; epoch = 5; acquired_at = 7; heartbeat_at = some 7 }

acquired : (acquire_lease host 7 "m" "r" "/t" "main" "h" "run" vacated).1 ≡ some next_lease
unfolding acquire_lease active_lease active_on insert_lease insertable new_lease max_epoch
acquired = refl

epochs_grow_example : all (before "/t" 5) vacated.leases ≡ true
epochs_grow_example =
    epochs_grow host 7 "m" "r" "/t" "main" "h" "run" vacated next_lease vacant acquired

held : active_lease (host.canonical_path "/t") leased ≡ some lease
unfolding active_lease active_on
held = refl

abbrev grant : Grant
grant = record {
  grant_id = "g";
  capability = "git_push";
  scope = "*";
  granted_at = 1;
  expires_at = at 90;
  revoked_at = none;
  note = "";
}

abbrev granted : Store
granted = record empty { grants = grant ∷ [] }
