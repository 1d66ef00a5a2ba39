-- ===== src/Strategic/DecisionTable/History.antt =====
-- Histories of the decision table: the commits of the calls that record and supersede decisions, of any
-- processes, in any order, so that a call may stop after any of its commits.
use quaestor.Base.{ℕ, String, Bool, Option, none, some, List, [], ◌∷◌}
use quaestor.Strategic.Decisions.{Decision, Request, new_decision}
use quaestor.Strategic.Rows.{StrategicStore}
use quaestor.Strategic.DecisionTable.{
  Classified, record_decision, insert_replacement, mark_superseded,
}

pub data Command : Type 0 where
  -- A new decision: its fresh id, the program, the question, the lane, the request.
  decide : String → String → String → String → Request → Command
  -- The first commit of a supersede_decision: the fresh id, the previous decision as the call read it,
  -- the request.
  overrule : String → Decision → Request → Command
  -- Its second commit: the previous decision, the replacement's id, the actor.
  mark : Decision → String → String → Command

unfoldable pub kept_or : StrategicStore → Option StrategicStore → StrategicStore
kept_or s none = s
kept_or s (some s') = s'

unfoldable pub record_new :
    (String → Classified) → Option Decision → StrategicStore → Option StrategicStore
record_new classify none s = none
record_new classify (some d) s = record_decision classify d s

-- A reading of the clock and of the owner channel's key, and a command.
pub record Step : Type 0 where
  pub now : ℕ
  pub key : Option Bool
  pub command : Command

unfoldable pub attempt :
    (String → Classified) → ℕ → Option Bool → Command → StrategicStore → Option StrategicStore
unfolding record_new
attempt classify now key (decide id program_id question lane_id r) s =
    record_new classify (new_decision key now id program_id question lane_id r) s
attempt classify now key (overrule id prev r) s = insert_replacement classify key now id prev r s
attempt classify now key (mark prev by actor_id) s = mark_superseded now prev by actor_id (some s)

unfoldable pub run : (String → Classified) → List Step → StrategicStore → StrategicStore
unfolding kept_or attempt
run classify [] s = s
run classify (step ∷ rest) s =
    run classify rest (kept_or s (attempt classify step.now step.key step.command s))
