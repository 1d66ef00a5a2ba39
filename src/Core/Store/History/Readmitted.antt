-- ===== src/Core/Store/History/Readmitted.antt =====
-- A dispatch that has been admitted is the run that it was, under every history of the store.
use quaestor.Base.{
  ℕ, String, ◌≡◌, refl, Bool, true, false, Option, some, List, [], ◌∷◌, any, any-append, arith,
  ◌==◌,
}
use quaestor.Core.Store.Rows.{
  Host, DispatchIdentity, Attempt, Dispatch, Store, empty, dispatch_key, key_material,
}
use quaestor.Core.Store.Transition.{moved_row, update_run, transition}
use quaestor.Core.Store.Admit.{Admission, admit, admit_new, duplicate, new_attempt}
use quaestor.Core.Store.Admit.Once.{
  attempts-ensure_workflow, dispatches-ensure_workflow, is_run, IsKnown, admit-IsKeyed,
  admit-IsKnown, admit_again,
}
use quaestor.Core.Store.Leasing.{acquire_lease, release_lease, heartbeat_lease}
use quaestor.Core.Store.Grants.{add_owner_grant, revoke_owner_grant}
use quaestor.Core.Store.History.{
  Command, admission, move, acquire, heartbeat, release, grant, revoke, or_else, admitted_or_else,
  perform, run,
}
use quaestor.Core.Store.History.Invariants.{
  SameRuns, acquire-same, release-same, grant-same, run-IsKeyed, empty-IsKeyed,
}

module _ (key run_id : String) where
  same-IsKnown : (s s' : Store) → SameRuns s s' → IsKnown key run_id s → IsKnown key run_id s'
  same-IsKnown s s' (runs, keys) (listed, known) =
      (ground (arith, keys, listed), ground (arith, runs, known))

  any-update_run :
      (now : ℕ) (id to reason : String) (rows : List Attempt)
      → any (is_run key run_id) (update_run id (moved_row now to reason) rows)
        ≡ any (is_run key run_id) rows
  unfolding update_run moved_row
  any-update_run now id to reason [] = refl
  any-update_run now id to reason (a ∷ rows) = ground (arith, any-update_run now id to reason rows)

  transition-IsKnown :
      (now : ℕ) (id to reason : String) (expect : Option String) (s : Store)
      → IsKnown key run_id s
      → IsKnown key run_id (transition now id to expect reason s).0
  unfolding transition
  transition-IsKnown now id to reason expect s (listed, known) =
      (ground (arith, listed), ground (arith, any-update_run now id to reason s.attempts, known))

  admit-stays :
      (host : Host) (now : ℕ) (id nonce title : String) (is_write : Bool)
      (identity : DispatchIdentity) (s : Store)
      → IsKnown key run_id s
      → IsKnown key run_id (admitted_or_else s (admit host now id nonce is_write title identity s))
  unfolding admitted_or_else admit admit_new duplicate
  admit-stays host now id nonce title is_write identity s (listed, known) =
      let k = dispatch_key host identity in
      let a = new_attempt now id nonce k is_write in
      let d : Dispatch = record {
        dispatch_key = k;
        material = key_material host identity;
        created_at = now;
      } in
      let runs = attempts-ensure_workflow now identity.workflow_id title s in
      let keys = dispatches-ensure_workflow now identity.workflow_id title s in
      (
        ground (arith, keys, listed, any-append (λ x. x.dispatch_key == key) s.dispatches (d ∷ [])),
        ground (arith, runs, known, any-append (is_run key run_id) s.attempts (a ∷ [])),
      )

  perform-IsKnown :
      (host : Host) (now : ℕ) (c : Command) (s : Store)
      → IsKnown key run_id s
      → IsKnown key run_id (perform host now c s)
  unfolding perform
  perform-IsKnown host now (admission id nonce is_write title identity) s known =
      admit-stays host now id nonce title is_write identity s known
  perform-IsKnown host now (move id to expect reason) s known =
      transition-IsKnown now id to reason expect s known
  perform-IsKnown host now (acquire id repo tree branch head holder) s known =
      same-IsKnown s (acquire_lease host now id repo tree branch head holder s).0
        (acquire-same host now id repo tree branch head holder s) known
  perform-IsKnown host now (heartbeat id) s known =
      same-IsKnown s (heartbeat_lease now id s) (unfold heartbeat_lease in (refl, refl)) known
  perform-IsKnown host now (release id reason) s known =
      same-IsKnown s (release_lease now id reason s) (release-same now id reason s) known
  perform-IsKnown host now (grant id capability scope expires note) s known =
      same-IsKnown s (or_else s (add_owner_grant now id capability scope expires note s))
        (grant-same now id capability scope note expires s) known
  perform-IsKnown host now (revoke id) s known =
      same-IsKnown s (revoke_owner_grant now id s) (unfold revoke_owner_grant in (refl, refl)) known

  run-IsKnown :
      (host : Host) (history : List (ℕ × Command)) (s : Store)
      → IsKnown key run_id s
      → IsKnown key run_id (run host history s)
  unfolding run
  run-IsKnown host [] s known = known
  run-IsKnown host ((now, c) ∷ rest) s known =
      run-IsKnown host rest (perform host now c s) (perform-IsKnown host now c s known)

-- However the operations of the store follow one another from the empty store on, a dispatch that was
-- admitted as a new run is admitted as that very run ever after, whatever operations came in between:
-- the later admission succeeds, names the first run and adds no attempt.
pub readmitted_as_first_run :
    (host : Host) (before : List (ℕ × Command)) (now : ℕ) (run_id nonce title : String)
    (is_write : Bool) (identity : DispatchIdentity) (s : Store) (r : Admission)
    (history : List (ℕ × Command)) (later : ℕ) (run_id' nonce' title' : String) (is_write' : Bool)
    → admit host now run_id nonce is_write title identity (run host before empty) ≡ some (s, r)
    → r.created ≡ true
    → (s' : Store) × (r' : Admission) × (admit host later run_id' nonce' is_write' title' identity
          (run host history s)
        ≡ some (s', r'))
      × (s'.attempts ≡ (run host history s).attempts)
      × (r'.created ≡ false)
      × (r'.run_id ≡ r.run_id)
readmitted_as_first_run host before now run_id nonce title is_write identity s r history later
      run_id' nonce' title' is_write' e made =
    let key = dispatch_key host identity in
    let first = run-IsKeyed host before empty empty-IsKeyed in
    let keyed =
      admit-IsKeyed host now run_id nonce title is_write identity (run host before empty) s r e
        first in
    let known =
      admit-IsKnown host now run_id nonce title is_write identity (run host before empty) s r e
        made in
    admit_again host later run_id' nonce' title' is_write' identity (run host history s) r.run_id
      (run-IsKeyed host history s keyed key).0 (run-IsKnown key r.run_id host history s known)
