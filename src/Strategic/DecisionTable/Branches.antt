-- ===== src/Strategic/DecisionTable/Branches.antt =====
-- The branches of the INSERT of a decision.
use quaestor.Base.{
  ◌≡◌, refl, String, Bool, true, not, none, some, List, any, ◌==◌, Bool-cases, inl, inr, ◌⊎◌,
}
use quaestor.Strategic.Decisions.{Decision}
use quaestor.Strategic.Rows.{StrategicStore}
use quaestor.Strategic.DecisionTable.{inserted, insert_decision}

-- No row has the id.
unfoldable pub new_id : String → List Decision → Bool
new_id id rows = not (any (λ r. r.decision_id == id) rows)

module _ (d : Decision) (s : StrategicStore) where
  pub insert_cases :
      (insert_decision d s ≡ none)
      ⊎ ((insert_decision d s ≡ some (inserted d s)) × (new_id d.decision_id s.decision ≡ true))
  unfolding insert_decision new_id
  insert_cases = elim (Bool-cases (any (λ r. r.decision_id == d.decision_id) s.decision)) [
    | inl old ↦ inl (rw old refl)
    | inr free ↦ inr (rw free refl, rw free refl)
  ]
