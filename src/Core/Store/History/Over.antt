-- ===== src/Core/Store/History/Over.antt =====
-- A run that is over stays over, under every history of the store.
use quaestor.Base.{
  ℕ, String, ◌≡◌, refl, ◌∙◌, Bool, List, [], ◌∷◌, ◌++◌, arith, find-append, is_some, not, ◌&&◌,
  if◌then◌else◌, ◌==◌,
}
use quaestor.Core.Store.Rows.{
  Host, DispatchIdentity, Attempt, Store, get_run, get_dispatch, dispatch_key,
}
use quaestor.Core.Store.Transition.Guard.{IsOver, transition-IsOver}
use quaestor.Core.Store.Admit.{admit, admit_new, duplicate, ensure_workflow, new_attempt, collides}
use quaestor.Core.Store.Admit.Once.{attempts-ensure_workflow}
use quaestor.Core.Store.History.Invariants.{acquire-same, release-same, grant-same}
use quaestor.Core.Store.Leasing.{acquire_lease, release_lease, heartbeat_lease}
use quaestor.Core.Store.Grants.{add_owner_grant, revoke_owner_grant}
use quaestor.Core.Store.History.{
  Command, admission, move, acquire, heartbeat, release, grant, revoke, or_else, admitted_or_else,
  perform, run,
}

-- A store whose attempts are those of another one, or one more at the end.
abbrev Extends : Store → Store → Type 0
Extends s s' = (more : List Attempt) × (s'.attempts ≡ s.attempts ++ more)

append-none : (l : List Attempt) → l ≡ l ++ []
append-none [] = refl
append-none (a ∷ l) = ground (arith, append-none l)

IsOver-Extends :
    (run_id : String) (s s' : Store) → Extends s s' → IsOver run_id s → IsOver run_id s'
unfolding get_run
IsOver-Extends run_id s s' (more, e) (a, found, over) =
    (a, rw e (find-append (λ r. r.run_id == run_id) s.attempts more found), over)

same-Extends : (s s' : Store) → s'.attempts ≡ s.attempts → Extends s s'
same-Extends s s' same = ([], same ∙ append-none s.attempts)

attempts-admit :
    (host : Host) (now : ℕ) (run_id nonce title : String) (is_write : Bool)
    (identity : DispatchIdentity) (s : Store)
    → let a = new_attempt now run_id nonce (dispatch_key host identity) is_write in
      let new =
        not (
          is_some (
            get_dispatch
              (ensure_workflow now identity.workflow_id title s)
              (dispatch_key host identity)))
        && not (collides a s.attempts) in
      (admitted_or_else s (admit host now run_id nonce is_write title identity s)).attempts
      ≡ s.attempts ++ (if new then a ∷ [] else [])
unfolding admitted_or_else admit admit_new duplicate
attempts-admit host now run_id nonce title is_write identity s =
    ground
      (arith, attempts-ensure_workflow now identity.workflow_id title s, append-none s.attempts)

admit-Extends :
    (host : Host) (now : ℕ) (run_id nonce title : String) (is_write : Bool)
    (identity : DispatchIdentity) (s : Store)
    → Extends s (admitted_or_else s (admit host now run_id nonce is_write title identity s))
admit-Extends host now run_id nonce title is_write identity s =
    (_, attempts-admit host now run_id nonce title is_write identity s)

perform-IsOver :
    (host : Host) (now : ℕ) (c : Command) (run_id : String) (s : Store)
    → IsOver run_id s
    → IsOver run_id (perform host now c s)
unfolding perform
perform-IsOver host now (admission id nonce is_write title identity) run_id s over =
    IsOver-Extends run_id s (admitted_or_else s (admit host now id nonce is_write title identity s))
      (admit-Extends host now id nonce title is_write identity s) over
perform-IsOver host now (move id to expect reason) run_id s over =
    transition-IsOver now id to expect reason run_id s over
perform-IsOver host now (acquire id repo tree branch head holder) run_id s over =
    IsOver-Extends run_id s (acquire_lease host now id repo tree branch head holder s).0
      (same-Extends s (acquire_lease host now id repo tree branch head holder s).0
        (acquire-same host now id repo tree branch head holder s).0)
      over
perform-IsOver host now (heartbeat id) run_id s over =
    IsOver-Extends run_id s (heartbeat_lease now id s)
      (same-Extends s (heartbeat_lease now id s) (unfold heartbeat_lease in refl)) over
perform-IsOver host now (release id reason) run_id s over =
    IsOver-Extends run_id s (release_lease now id reason s)
      (same-Extends s (release_lease now id reason s) (release-same now id reason s).0) over
perform-IsOver host now (grant id capability scope expires note) run_id s over =
    IsOver-Extends run_id s (or_else s (add_owner_grant now id capability scope expires note s))
      (same-Extends s (or_else s (add_owner_grant now id capability scope expires note s))
        (grant-same now id capability scope note expires s).0)
      over
perform-IsOver host now (revoke id) run_id s over =
    IsOver-Extends run_id s (revoke_owner_grant now id s)
      (same-Extends s (revoke_owner_grant now id s) (unfold revoke_owner_grant in refl)) over

-- A run that is over stays over, whatever operations of the store follow, on this run or on others.
pub run-IsOver :
    (host : Host) (history : List (ℕ × Command)) (run_id : String) (s : Store)
    → IsOver run_id s
    → IsOver run_id (run host history s)
unfolding run
run-IsOver host [] run_id s over = over
run-IsOver host ((now, c) ∷ rest) run_id s over =
    run-IsOver host rest run_id (perform host now c s) (perform-IsOver host now c run_id s over)
