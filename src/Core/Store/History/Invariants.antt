-- ===== src/Core/Store/History/Invariants.antt =====
-- What every history of the store keeps.
use quaestor.Base.{
  ℕ, ◌≤◌, String, ◌≡◌, refl, false, Option, none, some, List, [], ◌∷◌, arith, filter, length, ◌==◌,
}
use quaestor.Core.OwnerChannel.{Expiry}
use quaestor.Core.Store.Rows.{Host, Attempt, Store, empty}
use quaestor.Core.Store.Transition.{moved_row, update_run, transition}
use quaestor.Core.Store.Admit.{Admission, admit}
use quaestor.Core.Store.Admit.Once.{IsKeyed, runs_of, is_registered, admit-IsKeyed}
use quaestor.Core.Store.Leasing.{acquire_lease, release_lease, insert_lease, heartbeat_lease}
use quaestor.Core.Store.Grants.{add_owner_grant, revoke_owner_grant}
use quaestor.Core.Store.History.{
  Command, admission, move, acquire, heartbeat, release, grant, revoke, or_else, admitted_or_else,
  perform, run,
}

-- The operations on leases and grants leave the tables of admission as they are.
abbrev pub SameRuns : Store → Store → Type 0
SameRuns s s' = (s'.attempts ≡ s.attempts) × (s'.dispatches ≡ s.dispatches)

pub acquire-same :
    (host : Host) (now : ℕ) (id repo tree branch head run_id : String) (s : Store)
    → SameRuns s (acquire_lease host now id repo tree branch head run_id s).0
unfolding acquire_lease insert_lease
acquire-same host now id repo tree branch head run_id s = (ground arith, ground arith)

pub release-same :
    (now : ℕ) (id reason : String) (s : Store) → SameRuns s (release_lease now id reason s)
unfolding release_lease
release-same now id reason s = (ground arith, ground arith)

same-IsKeyed : (s s' : Store) (key : String) → SameRuns s s' → IsKeyed s key → IsKeyed s' key
same-IsKeyed s s' key (runs, keys) (le, fresh) =
    (ground (arith, runs, le), λ h. ground (arith, runs, keys, fresh, h))

runs-update_run :
    (now : ℕ) (run_id to reason key : String) (rows : List Attempt)
    → length
        (filter (λ a. a.dispatch_key == key) (update_run run_id (moved_row now to reason) rows))
      ≡ length (filter (λ a. a.dispatch_key == key) rows)
unfolding update_run moved_row
runs-update_run now run_id to reason key [] = refl
runs-update_run now run_id to reason key (a ∷ rows) =
    ground (arith, runs-update_run now run_id to reason key rows)

transition-IsKeyed :
    (now : ℕ) (run_id to reason key : String) (expect : Option String) (s : Store)
    → IsKeyed s key
    → IsKeyed (transition now run_id to expect reason s).0 key
unfolding transition
transition-IsKeyed now run_id to reason key expect s (le, fresh) = (
  ground (arith, runs-update_run now run_id to reason key s.attempts, le),
  λ h. ground (arith, runs-update_run now run_id to reason key s.attempts, fresh, h),
)

admitted-IsKeyed :
    (s : Store) (o : Option (Store × Admission)) (key : String)
    → ((s' : Store) (r : Admission) → o ≡ some (s', r) → IsKeyed s' key)
    → IsKeyed s key
    → IsKeyed (admitted_or_else s o) key
unfolding admitted_or_else
admitted-IsKeyed s none key h keyed = keyed
admitted-IsKeyed s (some (s', r)) key h keyed = h s' r refl

pub grant-same :
    (now : ℕ) (id capability scope note : String) (expires : Expiry) (s : Store)
    → SameRuns s (or_else s (add_owner_grant now id capability scope expires note s))
unfolding or_else add_owner_grant
grant-same now id capability scope note expires s = (ground arith, ground arith)

perform-IsKeyed :
    (host : Host) (now : ℕ) (c : Command) (s : Store)
    → ((key : String) → IsKeyed s key)
    → (key : String) → IsKeyed (perform host now c s) key
unfolding perform
perform-IsKeyed host now (admission run_id nonce is_write title identity) s keyed key =
    admitted-IsKeyed s (admit host now run_id nonce is_write title identity s) key
      (λ s' r e. admit-IsKeyed host now run_id nonce title is_write identity s s' r e keyed key)
      (keyed key)
perform-IsKeyed host now (move run_id to expect reason) s keyed key =
    transition-IsKeyed now run_id to reason key expect s (keyed key)
perform-IsKeyed host now (acquire id repo tree branch head run_id) s keyed key =
    same-IsKeyed s (acquire_lease host now id repo tree branch head run_id s).0 key
      (acquire-same host now id repo tree branch head run_id s) (keyed key)
perform-IsKeyed host now (heartbeat id) s keyed key =
    same-IsKeyed s (heartbeat_lease now id s) key (unfold heartbeat_lease in (refl, refl))
      (keyed key)
perform-IsKeyed host now (release id reason) s keyed key =
    same-IsKeyed s (release_lease now id reason s) key (release-same now id reason s) (keyed key)
perform-IsKeyed host now (grant id capability scope expires note) s keyed key =
    same-IsKeyed s (or_else s (add_owner_grant now id capability scope expires note s)) key
      (grant-same now id capability scope note expires s) (keyed key)
perform-IsKeyed host now (revoke id) s keyed key =
    same-IsKeyed s (revoke_owner_grant now id s) key (unfold revoke_owner_grant in (refl, refl))
      (keyed key)

pub run-IsKeyed :
    (host : Host) (history : List (ℕ × Command)) (s : Store)
    → ((key : String) → IsKeyed s key)
    → (key : String) → IsKeyed (run host history s) key
unfolding run
run-IsKeyed host [] s keyed key = keyed key
run-IsKeyed host ((now, c) ∷ rest) s keyed key =
    run-IsKeyed host rest (perform host now c s) (perform-IsKeyed host now c s keyed) key

pub empty-IsKeyed : (key : String) → IsKeyed empty key
empty-IsKeyed key = (omega arith, λ h. refl)

-- However the operations of the store follow one another from the empty store on, no dispatch key
-- ever has two attempts, and a key that is not registered has none.
pub one_attempt_per_dispatch :
    (host : Host) (history : List (ℕ × Command)) (key : String)
    → (runs_of key (run host history empty) ≤ 1)
      × (is_registered key (run host history empty) ≡ false
          → runs_of key (run host history empty) ≡ 0)
one_attempt_per_dispatch host history key = run-IsKeyed host history empty empty-IsKeyed key
