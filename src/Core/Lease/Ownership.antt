-- ===== src/Core/Lease/Ownership.antt =====
-- Who may hold, prove or lose a lease.
use quaestor.Base.{
  ℕ, ◌+◌, ◌≤◌, String, ◌≡◌, ◌↔◌, ◌⊎◌, Bool, true, false, Option, none, some, arith, refl, eq_iff,
  is_some, is_false,
}
use quaestor.Core.Domain.{is_terminal}
use quaestor.Core.Proc.{LockState, lock_free, both_known, times_agree, classify_liveness}
use quaestor.Core.Proc.Evidence.{dead_iff_two_signals}
use quaestor.Core.Lease.{
  Lease, granted, decide_acquire, proven, heartbeat_proof, ownership_proof, may_reclaim,
}

-- A run is granted the lease on a path exactly when nobody holds it or it holds it already.
pub granted_iff_free_or_own :
    (run_id : String) (active : Option Lease)
    → (granted (decide_acquire run_id active) ≡ true)
      ↔ ((active ≡ none) ⊎ ((row : Lease) × (active ≡ some row) × (row.holder_run_id ≡ run_id)))
unfolding granted decide_acquire
granted_iff_free_or_own run_id none = (λ h. ground arith, λ h. ground arith)
granted_iff_free_or_own run_id (some row) = (
  λ h. ground (arith, eq_iff row.holder_run_id run_id),
  λ h. ground (arith, eq_iff row.holder_run_id run_id),
)

heartbeat_proof_iff :
    (beat : Option ℕ) (now stale : ℕ)
    → (heartbeat_proof beat now stale ≡ proven) ↔ ((hb : ℕ) × (beat ≡ some hb) × (now ≤ hb + stale))
unfolding heartbeat_proof
heartbeat_proof_iff none now stale = (λ h. ground arith, λ h. ground arith)
heartbeat_proof_iff (some hb) now stale =
    (λ h. (hb, refl, ground arith), λ h. let (b, e, fresh) = h in ground arith)

fresh_proves :
    (active : Option Lease) (row : Lease) (run_id : String) (now stale : ℕ)
    → active ≡ some row
    → row.holder_run_id ≡ run_id
    → row.released_at ≡ none
    → ((hb : ℕ) × (row.heartbeat_at ≡ some hb) × (now ≤ hb + stale))
    → ownership_proof active run_id now stale ≡ proven
unfolding ownership_proof
fresh_proves active row run_id now stale e own kept beat = rw e (
    ground (
      arith,
      eq_iff row.holder_run_id run_id,
      (heartbeat_proof_iff row.heartbeat_at now stale).1 beat,
    ))

-- Ownership is proven exactly by an unreleased row of this run whose last heartbeat is at most the
-- window ago.
pub proven_iff_fresh :
    (active : Option Lease) (run_id : String) (now heartbeat_stale : ℕ)
    → (ownership_proof active run_id now heartbeat_stale ≡ proven) ↔ (
        (row : Lease) × (active ≡ some row)
        × (row.holder_run_id ≡ run_id)
        × (row.released_at ≡ none)
        × ((hb : ℕ) × (row.heartbeat_at ≡ some hb) × (now ≤ hb + heartbeat_stale)))
unfolding ownership_proof
proven_iff_fresh none run_id now stale = (λ h. ground arith, λ h. ground arith)
proven_iff_fresh (some row) run_id now stale = (
  λ h. (
    row,
    refl,
    ground (arith, eq_iff row.holder_run_id run_id),
    ground arith,
    (heartbeat_proof_iff row.heartbeat_at now stale).0 (ground arith),
  ),
  λ h.
      let (r, e, own, kept, beat) = h in fresh_proves (some row) r run_id now stale e own kept beat,
)

-- A lease is taken from its holder on the liveness verdict only if the holder's run is terminal,
-- its lock is free, and its recorded pid is gone or belongs to another process now.
pub reclaim_needs_dead_and_terminal :
    (active : Option Lease) (state : String) (lock : LockState) (pid : Option ℕ)
    (recorded observed : Option String) (present : Option Bool)
    → may_reclaim active state (classify_liveness lock pid recorded observed present) ≡ true
    → (is_terminal state ≡ true)
      × (lock ≡ lock_free)
      × (is_some pid ≡ true)
      × ((is_false present ≡ true)
          ⊎ ((both_known recorded observed ≡ true) × (times_agree recorded observed ≡ false)))
unfolding may_reclaim
reclaim_needs_dead_and_terminal active state lock pid recorded observed present h =
    ground (arith, dead_iff_two_signals lock pid recorded observed present)
