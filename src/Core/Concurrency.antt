-- ===== src/Core/Concurrency.antt =====
-- core/concurrency.py: the ceiling on real children. A negative ceiling refuses what a ceiling of
-- 0 does, so the ceiling is a natural number. Reason texts are left out.
pub mod Limit
use quaestor.Base.{
  ℕ, String, Bool, true, false, not, Option, none, some, List, [], length, leb, strip, ◌==◌,
  if◌then◌else◌,
}

pub record ConcurrencyDecision : Type 0 where
  pub admitted : Bool
  pub active_count : ℕ
  pub limit : ℕ
  pub active_run_ids : List String

-- DEFAULT_MAX_ACTIVE_REAL_CHILDREN.
abbrev pub default_max_active : ℕ
default_max_active = 1

abbrev pub kind_text : Option String → String
kind_text none = ""
kind_text (some kind) = strip kind

-- The executor's kind, `none` if it has none. Unknown kinds count as real.
unfoldable pub is_real_executor : Option String → Bool
is_real_executor kind = if kind_text kind == "" then true else not (kind_text kind == "fake")

abbrev pub limit_of : Option ℕ → ℕ
limit_of none = default_max_active
limit_of (some n) = n

-- decide, of the ids of the active real runs, the requested executor's kind and the policy.
unfoldable pub decide : List String → Option String → Option ℕ → ConcurrencyDecision
decide active requested policy =
    let limit = limit_of policy in
    if not (is_real_executor requested)
    then record { admitted = true; active_count = 0; limit = limit; active_run_ids = [] }
    else if leb limit (length active)
    then record {
      admitted = false;
      active_count = length active;
      limit = limit;
      active_run_ids = active;
    }
    else record {
      admitted = true;
      active_count = length active;
      limit = limit;
      active_run_ids = active;
    }
