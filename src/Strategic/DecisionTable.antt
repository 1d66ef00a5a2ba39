-- ===== src/Strategic/DecisionTable.antt =====
-- The decision table of core/strategic_store.py. What core/classification.py makes of a text is an
-- argument. `none` is an exception, after which the table is as it was.
pub mod History
pub mod Branches
pub mod Kept
use quaestor.Base.{
  ℕ, String, Bool, true, false, not, ◌&&◌, ◌||◌, Option, none, some, List, [], ◌∷◌, ◌++◌, any,
  filter, find, map, ◌==◌, if◌then◌else◌,
}
use quaestor.Strategic.Decisions.{Decision, Request, superseded, replacement, retired, supersede}
use quaestor.Strategic.Rows.{StrategicStore, append_event, new_event}

-- classification.Classification, what of it the store reads.
pub record Classified : Type 0 where
  pub text : String
  pub modified : Bool

-- The row that record_decision writes; there is no column for owner_attested, and a row reads back
-- with its default.
unfoldable pub recorded_row : (String → Classified) → Decision → Decision
recorded_row classify d =
    if (classify d.question).modified
      || (classify d.rationale).modified
      || (classify d.decision).modified
    then record d {
      question = (classify d.question).text;
      rationale = (classify d.rationale).text;
      decision = (classify d.decision).text;
      owner_attested = false;
    }
    else record d { owner_attested = false }

unfoldable pub inserted : Decision → StrategicStore → StrategicStore
inserted d s =
    append_event (new_event "DECISION_RECORDED" d.created_at d.program_id d.lane_id "" d.actor_id)
      (record s { decision = s.decision ++ d ∷ [] })

-- The id is the primary key.
unfoldable pub insert_decision : Decision → StrategicStore → Option StrategicStore
unfolding inserted
insert_decision d s =
    if any (λ r. r.decision_id == d.decision_id) s.decision then none else some (inserted d s)

unfoldable pub record_decision :
    (String → Classified) → Decision → StrategicStore → Option StrategicStore
unfolding recorded_row insert_decision
record_decision classify d s = insert_decision (recorded_row classify d) s

unfoldable pub get_decision : String → StrategicStore → Option Decision
get_decision id s = find (λ d. d.decision_id == id) s.decision

-- `UPDATE decision SET status=?, superseded_by=? WHERE decision_id=?`.
unfoldable pub marked : String → String → Decision → Decision
marked id by d =
    if d.decision_id == id then record d { status = superseded; superseded_by = by } else d

unfoldable pub marked_store : ℕ → Decision → String → String → StrategicStore → StrategicStore
unfolding marked
marked_store now prev by actor_id s =
    append_event (new_event "DECISION_SUPERSEDED" now prev.program_id prev.lane_id "" actor_id)
      (record s { decision = map (marked prev.decision_id by) s.decision })

unfoldable pub insert_fresh :
    (String → Classified) → Option (Decision × Decision) → StrategicStore → Option StrategicStore
unfolding record_decision
insert_fresh classify none s = none
insert_fresh classify (some (fresh, old)) s = record_decision classify fresh s

-- The first commit of supersede_decision, of the previous decision as it was read: the INSERT of the
-- decision that replaces it. No evidence is passed on.
unfoldable pub insert_replacement :
    (String → Classified)
    → Option Bool
    → ℕ
    → String
    → Decision
    → Request
    → StrategicStore
    → Option StrategicStore
unfolding insert_fresh
insert_replacement classify key now id prev r s =
    insert_fresh classify (supersede key now id prev (record r { evidence_refs = [] })) s

-- The second commit, the UPDATE, where the first one did not raise.
unfoldable pub mark_superseded :
    ℕ → Decision → String → String → Option StrategicStore → Option StrategicStore
unfolding marked_store
mark_superseded now prev by actor_id none = none
mark_superseded now prev by actor_id (some s) = some (marked_store now prev by actor_id s)

unfoldable pub superseding :
    (String → Classified)
    → Option Bool
    → ℕ
    → String
    → Option Decision
    → Request
    → StrategicStore
    → Option StrategicStore
unfolding insert_replacement mark_superseded
superseding classify key now id none r s = none
superseding classify key now id (some prev) r s =
    mark_superseded now prev id r.actor_id (insert_replacement classify key now id prev r s)

-- supersede_decision where no other call and no crash comes between its read and its two commits; with
-- the owner channel's key, the clock and a fresh id.
unfoldable pub supersede_decision :
    (String → Classified)
    → Option Bool
    → ℕ
    → String
    → String
    → Request
    → StrategicStore
    → Option StrategicStore
unfolding superseding get_decision
supersede_decision classify key now id previous_id r s =
    superseding classify key now id (get_decision previous_id s) r s
