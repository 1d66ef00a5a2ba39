-- ===== src/Core/Store/Leasing.antt =====
-- The lease table of core/store.py: at most one active row per worktree, and growing epochs.
pub mod Exclusive
use quaestor.Base.{
  ℕ, suc, String, Bool, true, false, not, ◌&&◌, ◌||◌, Option, none, some, List, [], ◌∷◌, ◌++◌, any,
  find, ltb, is_some, map, ◌==◌, if◌then◌else◌,
}
use quaestor.Core.Lease.{Lease}
use quaestor.Core.Store.Rows.{Host, Attempt, Store, log, event}

-- `worktree_path=? AND released_at IS NULL`.
unfoldable pub active_on : String → Lease → Bool
active_on path l = l.worktree_path == path && not (is_some l.released_at)

-- active_lease, of a canonical path.
unfoldable pub active_lease : String → Store → Option Lease
active_lease path s = find (active_on path) s.leases

-- `COALESCE(MAX(epoch), 0)`.
unfoldable pub max_epoch : String → List Lease → ℕ
max_epoch path [] = 0
max_epoch path (l ∷ rest) =
    let m = max_epoch path rest in if l.worktree_path == path && ltb m l.epoch then l.epoch else m

-- What the INSERT needs: a fresh primary key, a holder that is an attempt, and no other active row
-- on the path (lease_one_active).
unfoldable pub insertable : Lease → Store → Bool
insertable l s =
    not (any (λ r. r.lease_id == l.lease_id) s.leases)
    && any (λ a. a.run_id == l.holder_run_id) s.attempts
    && not (any (active_on l.worktree_path) s.leases)

unfoldable pub new_lease :
    Host → ℕ → String → String → String → String → String → String → ℕ → Lease
new_lease host now lease_id repo_id path branch head run_id epoch = record {
  lease_id = lease_id;
  repo_id = repo_id;
  worktree_path = path;
  expected_branch = branch;
  expected_head = host.lower head;
  holder_run_id = run_id;
  epoch = epoch;
  acquired_at = now;
  heartbeat_at = some now;
  released_at = none;
  release_reason = "";
}

unfoldable pub insert_lease : ℕ → Lease → Store → Store × Option Lease
insert_lease now l s = if not (insertable l s) then (s, none) else (
  log (event now l.holder_run_id "" "lease.acquired") (record s { leases = s.leases ++ l ∷ [] }),
  some l,
)

-- The lease that a run gets where one is active: its own, and `none` for a LeaseConflict.
abbrev pub own_or_conflict : String → Lease → Option Lease
own_or_conflict run_id active = if active.holder_run_id == run_id then some active else none

-- acquire_lease, with the clock, a fresh id, repo_id, worktree_path, expected_branch, expected_head
-- and run_id; `none` is a LeaseConflict.
unfoldable pub acquire_lease :
    Host → ℕ → String → String → String → String → String → String → Store → Store × Option Lease
acquire_lease host now lease_id repo_id worktree_path branch head run_id s =
    let path = host.canonical_path worktree_path in
    elim (active_lease path s) [
      | some active ↦ (s, own_or_conflict run_id active)
      | none ↦
          insert_lease now
            (new_lease host now lease_id repo_id path branch head run_id
              (suc (max_epoch path s.leases)))
            s
    ]

-- heartbeat_lease: a released row keeps its last heartbeat.
unfoldable pub beat : ℕ → String → Lease → Lease
beat now lease_id l =
    if l.lease_id == lease_id && not (is_some l.released_at)
    then record l { heartbeat_at = some now }
    else l

unfoldable pub heartbeat_lease : ℕ → String → Store → Store
heartbeat_lease now lease_id s = record s { leases = map (beat now lease_id) s.leases }

unfoldable pub released_row : ℕ → String → String → Lease → Lease
released_row now lease_id reason l =
    if l.lease_id == lease_id
    then record l { released_at = some now; release_reason = reason }
    else l

-- release_lease: a row that is missing or released already is left alone.
unfoldable pub release_lease : ℕ → String → String → Store → Store
release_lease now lease_id reason s = elim (find (λ l. l.lease_id == lease_id) s.leases) [
  | none ↦ s
  | some row ↦
      if is_some row.released_at
      then s
      else log (event now row.holder_run_id "" "lease.released")
          (record s { leases = map (released_row now lease_id reason) s.leases })
]

-- lease_for_run: the row of the run with the highest epoch.
abbrev later_epoch : Lease → Option Lease → Lease
later_epoch l none = l
later_epoch l (some m) = if ltb l.epoch m.epoch then m else l

unfoldable pub lease_for_run : String → List Lease → Option Lease
lease_for_run run_id [] = none
lease_for_run run_id (l ∷ rest) =
    let best = lease_for_run run_id rest in
    if l.holder_run_id == run_id then some (later_epoch l best) else best
