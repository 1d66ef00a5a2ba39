-- ===== src/Core/Store/History/Holders.antt =====
-- The lease table and the event log under every history of the store.
use quaestor.Base.{ℕ, ◌≤◌, String, ◌≡◌, refl, Bool, Option, List, [], ◌∷◌, arith}
use quaestor.Core.OwnerChannel.{Expiry}
use quaestor.Core.Store.Rows.{Host, DispatchIdentity, Store, empty}
use quaestor.Core.Store.Transition.{transition}
use quaestor.Core.Store.Admit.{admit, admit_new, duplicate, ensure_workflow}
use quaestor.Core.Store.Leasing.Exclusive.{
  holders, holders-acquire_lease, holders-heartbeat_lease, holders-release_lease,
}
use quaestor.Core.Store.Grants.{add_owner_grant, revoke_owner_grant}
use quaestor.Core.Store.History.{
  Command, admission, move, acquire, heartbeat, release, grant, revoke, or_else, admitted_or_else,
  perform, run,
}

leases-admission :
    (host : Host) (now : ℕ) (run_id nonce title : String) (is_write : Bool)
    (identity : DispatchIdentity) (s : Store)
    → (admitted_or_else s (admit host now run_id nonce is_write title identity s)).leases ≡ s.leases
unfolding admitted_or_else admit admit_new duplicate ensure_workflow
leases-admission host now run_id nonce title is_write identity s = ground arith

leases-transition :
    (now : ℕ) (run_id to reason : String) (expect : Option String) (s : Store)
    → (transition now run_id to expect reason s).0.leases ≡ s.leases
unfolding transition
leases-transition now run_id to reason expect s = ground arith

leases-grant :
    (now : ℕ) (id capability scope note : String) (expires : Expiry) (s : Store)
    → (or_else s (add_owner_grant now id capability scope expires note s)).leases ≡ s.leases
unfolding or_else add_owner_grant
leases-grant now id capability scope note expires s = ground arith

same-holders :
    (path : String) (s s' : Store) → s'.leases ≡ s.leases → holders path s ≤ 1 → holders path s' ≤ 1
same-holders path s s' same le = ground (arith, same, le)

perform-holders :
    (host : Host) (now : ℕ) (c : Command) (path : String) (s : Store)
    → holders path s ≤ 1
    → holders path (perform host now c s) ≤ 1
unfolding perform
perform-holders host now (admission run_id nonce is_write title identity) path s le =
    same-holders path s (admitted_or_else s (admit host now run_id nonce is_write title identity s))
      (leases-admission host now run_id nonce title is_write identity s) le
perform-holders host now (move run_id to expect reason) path s le =
    same-holders path s (transition now run_id to expect reason s).0
      (leases-transition now run_id to reason expect s) le
perform-holders host now (acquire id repo tree branch head run_id) path s le =
    holders-acquire_lease host now id repo tree branch head run_id path s le
perform-holders host now (heartbeat id) path s le =
    omega (arith, holders-heartbeat_lease now id path s, le)
perform-holders host now (release id reason) path s le =
    omega (arith, holders-release_lease now id reason path s, le)
perform-holders host now (grant id capability scope expires note) path s le =
    same-holders path s (or_else s (add_owner_grant now id capability scope expires note s))
      (leases-grant now id capability scope note expires s) le
perform-holders host now (revoke id) path s le =
    same-holders path s (revoke_owner_grant now id s) (unfold revoke_owner_grant in refl) le

run-holders :
    (host : Host) (history : List (ℕ × Command)) (path : String) (s : Store)
    → holders path s ≤ 1
    → holders path (run host history s) ≤ 1
unfolding run
run-holders host [] path s le = le
run-holders host ((now, c) ∷ rest) path s le =
    run-holders host rest path (perform host now c s) (perform-holders host now c path s le)

-- However the operations of the store follow one another from the empty store on, a worktree never
-- has two active leases.
pub one_holder_per_worktree :
    (host : Host) (history : List (ℕ × Command)) (path : String)
    → holders path (run host history empty) ≤ 1
one_holder_per_worktree host history path = run-holders host history path empty (omega arith)
