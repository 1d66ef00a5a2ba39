-- ===== src/Core/Store/History.antt =====
-- Histories of the store: any sequence of the operations of core/store.py on these tables, by any
-- processes, in any order.
pub mod Invariants
pub mod Holders
pub mod Over
pub mod Readmitted
use quaestor.Base.{ℕ, String, Bool, Option, none, some, List, [], ◌∷◌}
use quaestor.Core.OwnerChannel.{Expiry}
use quaestor.Core.Store.Rows.{Host, DispatchIdentity, Store}
use quaestor.Core.Store.Transition.{transition}
use quaestor.Core.Store.Admit.{Admission, admit}
use quaestor.Core.Store.Leasing.{acquire_lease, heartbeat_lease, release_lease}
use quaestor.Core.Store.Grants.{add_owner_grant, revoke_owner_grant}

pub data Command : Type 0 where
  -- admit: run_id, nonce, is_write, title, identity.
  admission : String → String → Bool → String → DispatchIdentity → Command
  -- transition: run_id, to_state, expect_from, reason.
  move : String → String → Option String → String → Command
  -- acquire_lease: lease_id, repo_id, worktree_path, expected_branch, expected_head, run_id.
  acquire : String → String → String → String → String → String → Command
  heartbeat : String → Command
  release : String → String → Command
  -- add_owner_grant: grant_id, capability, scope, expires_at, note.
  grant : String → String → String → Expiry → String → Command
  revoke : String → Command

-- The store after an operation that may have been rolled back.
unfoldable pub or_else : Store → Option Store → Store
or_else s none = s
or_else s (some s') = s'

unfoldable pub admitted_or_else : Store → Option (Store × Admission) → Store
admitted_or_else s none = s
admitted_or_else s (some (s', r)) = s'

unfoldable pub perform : Host → ℕ → Command → Store → Store
unfolding or_else admitted_or_else
perform host now (admission run_id nonce is_write title identity) s =
    admitted_or_else s (admit host now run_id nonce is_write title identity s)
perform host now (move run_id to expect reason) s = (transition now run_id to expect reason s).0
perform host now (acquire id repo tree branch head run) s =
    (acquire_lease host now id repo tree branch head run s).0
perform host now (heartbeat id) s = heartbeat_lease now id s
perform host now (release id reason) s = release_lease now id reason s
perform host now (grant id capability scope expires note) s =
    or_else s (add_owner_grant now id capability scope expires note s)
perform host now (revoke id) s = revoke_owner_grant now id s

-- A history, with the clock's reading at each operation.
unfoldable pub run : Host → List (ℕ × Command) → Store → Store
run host [] s = s
run host ((now, c) ∷ rest) s = run host rest (perform host now c s)
