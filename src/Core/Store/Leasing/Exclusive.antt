-- ===== src/Core/Store/Leasing/Exclusive.antt =====
-- At most one active lease per worktree, and epochs that fence off the earlier holders.
use quaestor.Base.{
  ℕ, suc, ◌≤◌, String, ◌≡◌, refl, Bool, true, false, not, ◌||◌, none, some, List, [], ◌∷◌, ◌++◌,
  any, all, filter, length, ltb, arith, count-append, count-none, count-map-le, Bool-cases, inl,
  inr, ◌==◌, eq_iff,
}
use quaestor.Core.Lease.{Lease}
use quaestor.Core.Store.Rows.{Host, Store}
use quaestor.Core.Store.Leasing.{
  active_on, active_lease, max_epoch, insertable, new_lease, insert_lease, acquire_lease, beat,
  heartbeat_lease, released_row, release_lease,
}

-- The number of the active rows on a path.
abbrev pub holders : String → Store → ℕ
holders path s = length (filter (active_on path) s.leases)

active_on-other :
    (path other : String) (l : Lease)
    → (other == path) ≡ false
    → l.worktree_path ≡ other
    → active_on path l ≡ false
unfolding active_on
active_on-other path other l apart at = ground (arith, eq_iff other path)

holders-insert :
    (path : String) (l : Lease) (rows : List Lease)
    → any (active_on l.worktree_path) rows ≡ false
    → length (filter (active_on path) rows) ≤ 1
    → length (filter (active_on path) (rows ++ l ∷ [])) ≤ 1
holders-insert path l rows free le = elim (Bool-cases (l.worktree_path == path)) [
  | inl same ↦
      let at : l.worktree_path ≡ path = (eq_iff l.worktree_path path).0 same in
      let none_here : any (active_on path) rows ≡ false = rw (← at) free in
      ground (
        arith,
        count-append (active_on path) rows (l ∷ []),
        count-none (active_on path) rows none_here,
      )
  | inr apart ↦ ground (
    arith,
    count-append (active_on path) rows (l ∷ []),
    active_on-other path l.worktree_path l apart refl,
  )
]

pub holders-insert_lease :
    (now : ℕ) (path : String) (l : Lease) (s : Store)
    → holders path s ≤ 1
    → holders path (insert_lease now l s).0 ≤ 1
unfolding insert_lease insertable
holders-insert_lease now path l s le = ground (arith, holders-insert path l s.leases)

pub holders-acquire_lease :
    (host : Host) (now : ℕ) (id repo tree branch head run path : String) (s : Store)
    → holders path s ≤ 1
    → holders path (acquire_lease host now id repo tree branch head run s).0 ≤ 1
unfolding acquire_lease
holders-acquire_lease host now id repo tree branch head run path s le = ground (
  arith,
  holders-insert_lease now path
      (new_lease host now id repo (host.canonical_path tree) branch head run
        (suc (max_epoch (host.canonical_path tree) s.leases)))
      s,
)

active_on-beat :
    (now : ℕ) (id path : String) (l : Lease)
    → active_on path (beat now id l) ≡ true
    → active_on path l ≡ true
unfolding beat active_on
active_on-beat now id path l h = ground arith

active_on-released_row :
    (now : ℕ) (id reason path : String) (l : Lease)
    → active_on path (released_row now id reason l) ≡ true
    → active_on path l ≡ true
unfolding released_row active_on
active_on-released_row now id reason path l h = ground arith

pub holders-heartbeat_lease :
    (now : ℕ) (id path : String) (s : Store)
    → holders path (heartbeat_lease now id s) ≤ holders path s
unfolding heartbeat_lease
holders-heartbeat_lease now id path s =
    count-map-le (active_on path) (beat now id) s.leases (active_on-beat now id path)

pub holders-release_lease :
    (now : ℕ) (id reason path : String) (s : Store)
    → holders path (release_lease now id reason s) ≤ holders path s
unfolding release_lease
holders-release_lease now id reason path s = ground (
  arith,
  count-map-le (active_on path) (released_row now id reason) s.leases
      (active_on-released_row now id reason path),
)

-- A row on a path has an earlier epoch.
abbrev pub before : String → ℕ → Lease → Bool
before path epoch l = not (l.worktree_path == path) || ltb l.epoch epoch

max_epoch-bounds :
    (path : String) (rows : List Lease) (n : ℕ)
    → max_epoch path rows ≤ n
    → all (before path (suc n)) rows ≡ true
unfolding max_epoch
max_epoch-bounds path [] n le = refl
max_epoch-bounds path (l ∷ rows) n le = ground (arith, max_epoch-bounds path rows n)

fresh_epoch :
    (host : Host) (now : ℕ) (id repo path branch head run : String) (s : Store) (l : Lease)
    → (insert_lease now
        (new_lease host now id repo path branch head run (suc (max_epoch path s.leases)))
        s).1
      ≡ some l
    → all (before path l.epoch) s.leases ≡ true
unfolding insert_lease new_lease
fresh_epoch host now id repo path branch head run s l e =
    ground (arith, max_epoch-bounds path s.leases (max_epoch path s.leases))

-- A lease that is taken on a path without an active one has a greater epoch than every earlier
-- lease on that path.
pub epochs_grow :
    (host : Host) (now : ℕ) (id repo tree branch head run : String) (s : Store) (l : Lease)
    → active_lease (host.canonical_path tree) s ≡ none
    → (acquire_lease host now id repo tree branch head run s).1 ≡ some l
    → all (before (host.canonical_path tree) l.epoch) s.leases ≡ true
unfolding acquire_lease
epochs_grow host now id repo tree branch head run s l free e =
    ground (arith, fresh_epoch host now id repo (host.canonical_path tree) branch head run s l)

-- While a run holds the worktree, another run gets a conflict and the store stays as it is.
pub other_run_conflicts :
    (host : Host) (now : ℕ) (id repo tree branch head run : String) (s : Store) (held : Lease)
    → active_lease (host.canonical_path tree) s ≡ some held
    → (held.holder_run_id == run) ≡ false
    → acquire_lease host now id repo tree branch head run s ≡ (s, none)
unfolding acquire_lease
other_run_conflicts host now id repo tree branch head run s held h other = ground arith
