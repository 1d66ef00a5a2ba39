-- ===== src/Core/Retention.antt =====
-- core/retention.py: what may be reclaimed of a run. Reason texts are left out; the retention window
-- is not negative.
pub mod Kept
use quaestor.Base.{
  ℕ, ◌+◌, ◌-◌, String, Bool, true, false, not, ◌||◌, Option, none, some, List, [], ◌∷◌, any, elem,
  filter, length, map, ltb, eqb, contains, if◌then◌else◌,
}
use quaestor.Base.Int.{ℤ, pos, negsuc}
use quaestor.Core.Domain.{is_terminal, ambiguous_execution, evidence_invalid, owner_required}

pub data RetentionClass : Type 0 where
  active retain eligible_for_gc owner_hold : RetentionClass

-- OWNER_HOLD_STATES.
unfoldable pub owner_hold_states : List String
owner_hold_states = ambiguous_execution ∷ evidence_invalid ∷ owner_required ∷ []

-- SECURITY_HOLD_REASONS.
unfoldable pub security_hold_reasons : List String
security_hold_reasons = "SECURITY_BOUNDARY_FAIL" ∷ "CONTAINER_POLICY_REFUSED" ∷ []

pub record RetentionDecision : Type 0 where
  pub run_id : String
  pub retention_class : RetentionClass
  pub container_removable : Bool
  pub auth_volume_removable : Bool
  pub evidence_removable : Bool

-- `age_s is None or age_s < min_age_s`.
abbrev pub is_young : ℕ → Option ℤ → Bool
is_young min none = true
is_young min (some (negsuc n)) = true
is_young min (some (pos n)) = ltb n min

abbrev pub has_security_hold : String → Bool
has_security_hold reason = any (λ k. contains k reason) security_hold_reasons

-- classify; a field that the code does not pass has its default, false.
unfoldable pub classify : String → String → String → ℕ → Option ℤ → RetentionDecision
classify run_id state refusal_reason min_age age =
    if elem state owner_hold_states
    then record {
      run_id = run_id;
      retention_class = owner_hold;
      container_removable = true;
      auth_volume_removable = false;
      evidence_removable = false;
    }
    else if has_security_hold refusal_reason
    then record {
      run_id = run_id;
      retention_class = owner_hold;
      container_removable = true;
      auth_volume_removable = false;
      evidence_removable = false;
    }
    else if not (is_terminal state)
    then record {
      run_id = run_id;
      retention_class = active;
      container_removable = false;
      auth_volume_removable = false;
      evidence_removable = false;
    }
    else if is_young min_age age
    then record {
      run_id = run_id;
      retention_class = retain;
      container_removable = true;
      auth_volume_removable = false;
      evidence_removable = false;
    }
    else record {
      run_id = run_id;
      retention_class = eligible_for_gc;
      container_removable = true;
      auth_volume_removable = false;
      evidence_removable = false;
    }

-- A run as sweep reads it.
pub record RunRow : Type 0 where
  pub run_id : String
  pub execution_state : String
  pub refusal_reason : String
  pub terminal_at : Option ℕ

-- `now - terminal_at if terminal_at else None`.
unfoldable pub age_of : ℕ → Option ℕ → Option ℤ
age_of now none = none
age_of now (some t) =
    if eqb t 0
    then none
    else if ltb now t
    then some (negsuc (t - now - 1))
    else some (pos (now - t))

pub record Counts : Type 0 where
  pub active : ℕ
  pub retain : ℕ
  pub eligible_for_gc : ℕ
  pub owner_hold : ℕ

abbrev is_active_class : RetentionClass → Bool
is_active_class active = true
is_active_class _ = false

abbrev is_retain : RetentionClass → Bool
is_retain retain = true
is_retain _ = false

abbrev pub is_eligible : RetentionClass → Bool
is_eligible eligible_for_gc = true
is_eligible _ = false

abbrev is_owner_hold : RetentionClass → Bool
is_owner_hold owner_hold = true
is_owner_hold _ = false

count : (RetentionClass → Bool) → List RetentionDecision → ℕ
count p decisions = length (filter (λ d. p d.retention_class) decisions)

unfoldable pub counts_of : List RetentionDecision → Counts
unfolding count
counts_of decisions = record {
  active = count is_active_class decisions;
  retain = count is_retain decisions;
  eligible_for_gc = count is_eligible decisions;
  owner_hold = count is_owner_hold decisions;
}

pub record Report : Type 0 where
  pub inspected_count : ℕ
  pub counts : Counts
  pub decisions : List RetentionDecision

-- sweep.
unfoldable pub sweep : List RunRow → ℕ → ℕ → Report
sweep runs min_age now =
    let decisions =
      map
        (λ r.
          classify r.run_id r.execution_state r.refusal_reason min_age (age_of now r.terminal_at))
        runs in
    record {
      inspected_count = length decisions;
      counts = counts_of decisions;
      decisions = decisions;
    }
