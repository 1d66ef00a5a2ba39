-- ===== src/Core/Lease.antt =====
-- core/lease.py: exclusive ownership of a worktree, decided on the row of the lease table.
-- Times are natural numbers. `canonical_path` is the operating system's view of a path, and the
-- rows already hold its result.
pub mod Ownership
use quaestor.Base.{
  ℕ, ◌-◌, String, Bool, true, false, not, ◌&&◌, ◌||◌, Option, none, some, ◌==◌, ltb, if◌then◌else◌,
  is_some,
}
use quaestor.Core.Domain.{is_terminal}
use quaestor.Core.Proc.{Liveness, alive, dead, unknown}

-- A row of the lease table (core/store.py).
pub record Lease : Type 0 where
  pub lease_id : String
  pub repo_id : String
  pub worktree_path : String
  pub expected_branch : String
  pub expected_head : String
  pub holder_run_id : String
  pub epoch : ℕ
  pub acquired_at : ℕ
  pub heartbeat_at : Option ℕ
  pub released_at : Option ℕ
  pub release_reason : String

pub data Acquisition : Type 0 where
  grant already_held_by_this_run refuse_conflict : Acquisition

pub record LeaseDecision : Type 0 where
  pub decision : Acquisition
  pub conflicting_run_id : String

unfoldable pub granted : LeaseDecision → Bool
granted d = elim d.decision [ refuse_conflict ↦ false | _ ↦ true ]

-- decide_acquire, of the requesting run and the active row on its path.
unfoldable pub decide_acquire : String → Option Lease → LeaseDecision
decide_acquire run_id none = record { decision = grant; conflicting_run_id = "" }
decide_acquire run_id (some active) =
    if active.holder_run_id == run_id
    then record { decision = already_held_by_this_run; conflicting_run_id = active.holder_run_id }
    else record { decision = refuse_conflict; conflicting_run_id = active.holder_run_id }

pub data Proof : Type 0 where
  proven stale_unproven not_held : Proof

-- `now - hb > heartbeat_stale_s`. The window is not negative, so a heartbeat in the future is
-- fresh in the source as here.
unfoldable pub heartbeat_proof : Option ℕ → ℕ → ℕ → Proof
heartbeat_proof none now heartbeat_stale = stale_unproven
heartbeat_proof (some hb) now heartbeat_stale =
    if ltb heartbeat_stale (now - hb) then stale_unproven else proven

unfoldable pub ownership_proof : Option Lease → String → ℕ → ℕ → Proof
ownership_proof none run_id now heartbeat_stale = not_held
ownership_proof (some active) run_id now heartbeat_stale =
    if not (active.holder_run_id == run_id)
    then not_held
    else if is_some active.released_at
    then not_held
    else heartbeat_proof active.heartbeat_at now heartbeat_stale

unfoldable pub liveness_permits_reclaim : Liveness → Bool
liveness_permits_reclaim dead = true
liveness_permits_reclaim _ = false

-- may_reclaim, of the active row, the state of its holder's run and the holder's liveness.
unfoldable pub may_reclaim : Option Lease → String → Liveness → Bool
unfolding liveness_permits_reclaim
may_reclaim none holder_run_state holder_liveness = false
may_reclaim (some active) holder_run_state holder_liveness =
    if not (liveness_permits_reclaim holder_liveness) then false else is_terminal holder_run_state
