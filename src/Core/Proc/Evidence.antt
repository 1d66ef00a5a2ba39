-- ===== src/Core/Proc/Evidence.antt =====
-- What the verdicts of classify_liveness rest on.
use quaestor.Base.{
  ℕ, String, ◌≡◌, ◌↔◌, ◌⊎◌, Bool, true, false, Option, arith, is_some, is_true, is_false,
}
use quaestor.Core.Proc.{
  alive, dead, LockState, lock_held, lock_free, lock_absent, both_known, times_agree,
  classify_liveness,
}

-- The verdict DEAD is given exactly when the lock was found free, a worker pid was recorded, and
-- either that pid is gone or it now has another creation time.
pub dead_iff_two_signals :
    (lock : LockState) (pid : Option ℕ) (recorded observed : Option String) (present : Option Bool)
    → (classify_liveness lock pid recorded observed present ≡ dead) ↔ (
        (lock ≡ lock_free)
        × (is_some pid ≡ true)
        × ((is_false present ≡ true)
            ⊎ ((both_known recorded observed ≡ true) × (times_agree recorded observed ≡ false))))
unfolding classify_liveness
dead_iff_two_signals lock pid recorded observed present = (λ h. ground arith, λ h. ground arith)

-- The verdict ALIVE is given exactly when the lock is held, or there is no lock file and the
-- recorded process is still there under its recorded creation time.
pub alive_iff_held_or_same_process :
    (lock : LockState) (pid : Option ℕ) (recorded observed : Option String) (present : Option Bool)
    → (classify_liveness lock pid recorded observed present ≡ alive) ↔ (
        (lock ≡ lock_held)
        ⊎ ((lock ≡ lock_absent)
            × (is_true present ≡ true)
            × (both_known recorded observed ≡ true)
            × (times_agree recorded observed ≡ true)))
unfolding classify_liveness
alive_iff_held_or_same_process lock pid recorded observed present =
    (λ h. ground arith, λ h. ground arith)
