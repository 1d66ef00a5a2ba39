-- ===== src/Core/Proc.antt =====
-- core/proc.py: the liveness verdict from the worker's lock and its recorded process identity.
-- The probes themselves (files, locks, processes) are the operating system's: their readings are
-- the arguments here.
pub mod Evidence
use quaestor.Base.{
  ℕ, String, Bool, true, false, not, ◌&&◌, Option, none, some, ◌==◌, if◌then◌else◌, is_true,
  is_false, is_some,
}

-- ALIVE, DEAD, UNKNOWN.
pub data Liveness : Type 0 where
  alive dead unknown : Liveness

-- The outcomes of a lock probe.
pub data LockState : Type 0 where
  lock_held lock_free lock_absent lock_unknown : LockState

-- Both creation times are there, and neither is the empty text.
abbrev pub both_known : Option String → Option String → Bool
both_known (some a) (some b) = not (a == "") && not (b == "")
both_known _ _ = false

abbrev pub times_agree : Option String → Option String → Bool
times_agree (some a) (some b) = a == b
times_agree none none = true
times_agree _ _ = false

-- The status of classify_liveness: lock, recorded pid, recorded and observed creation time, and
-- whether the pid is present (`none`: it could not be asked).
unfoldable pub classify_liveness :
    LockState → Option ℕ → Option String → Option String → Option Bool → Liveness
classify_liveness lock_held pid recorded observed present = alive
classify_liveness lock_unknown pid recorded observed present = unknown
classify_liveness lock_absent pid recorded observed present =
    if is_true present && both_known recorded observed && times_agree recorded observed
    then alive
    else unknown
classify_liveness lock_free pid recorded observed present =
    if not (is_some pid)
    then unknown
    else if is_false present
    then dead
    else if both_known recorded observed
    then (if not (times_agree recorded observed) then dead else unknown)
    else unknown
