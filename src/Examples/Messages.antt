-- ===== src/Examples/Messages.antt =====
-- Decisions, checkpoints and messages at concrete inputs.
use quaestor.Base.{
  ℕ, String, ◌≡◌, refl, true, false, not, none, some, List, [], ◌∷◌, filter, lookup, ◌==◌,
}
use quaestor.Base.Int.{pos}
use quaestor.Strategic.Decisions.{Decision, Request}
use quaestor.Strategic.Rows.{LaneTask, StrategicStore, empty, object, array}
use quaestor.Strategic.DecisionTable.{Classified, get_decision}
use quaestor.Strategic.DecisionTable.History.{Step, overrule, mark, run}
use quaestor.Strategic.DecisionTable.Kept.{Kept, nothing_forgotten}
use quaestor.Strategic.Tasks
use quaestor.Strategic.Tasks.Checkpoints.{checkpoint_of, replayed, last_save_decides}
use quaestor.Strategic.Messages.{
  Content, Message, validate, validate_after_type, is_protocol, message_types, envelope,
}
use quaestor.Strategic.MessageTable.{
  record_message, answer_message, open_questions, is_valid, by_digest, message_row, new_or_known,
  insert_message, sanitised, stored_message, event_of, event_type_or,
}
use quaestor.Strategic.MessageTable.Once.{Command, answer, redelivered_is_recognised}
use quaestor.Strategic.MessageTable.Once
use quaestor.Strategic.MessageTable.Questions.{answer_closes}

abbrev plain : String → Classified
plain text = record { text = text; modified = false }

abbrev reason : Request
reason = record {
  decision = "yes";
  authority = "STRATEGIST";
  rationale = "measured";
  evidence_refs = [];
  actor_id = "a";
}

abbrev chosen : Decision
chosen = record {
  decision_id = "d1";
  program_id = "p";
  question = "which";
  decision = "this";
  authority = "STRATEGIST";
  rationale = "";
  evidence_refs = [];
  lane_id = "";
  status = "DECIDED";
  supersedes = "";
  superseded_by = "";
  created_at = 1;
  decided_at = 1;
  actor_id = "a";
  owner_attested = false;
}

abbrev with_chosen : StrategicStore
with_chosen = record empty { decision = chosen ∷ [] }

abbrev second_thought : List Step
second_thought =
    record { now = 2; key = none; command = overrule "d2" chosen reason }
    ∷ record { now = 3; key = none; command = mark chosen "d2" "a" }
    ∷ []

there : get_decision "d1" with_chosen ≡ some chosen
unfolding get_decision
there = refl

nothing_forgotten_example : Kept chosen (run plain second_thought with_chosen)
nothing_forgotten_example = nothing_forgotten plain second_thought chosen with_chosen there

abbrev told : LaneTask
told = record {
  lane_id = "one";
  task = "build";
  acceptance_json = some (array []);
  executor_json = some (object []);
  attempt = 0;
  checkpoint_json = some (object (("worktree_path", "w") ∷ []));
  updated_at = 1;
}

abbrev with_task : StrategicStore
with_task = record empty { lane_task = told ∷ [] }

abbrev calls : List (ℕ × Tasks.Command)
calls = (2, Tasks.save "one" (("summary", "s") ∷ []) "p" "r") ∷ (3, Tasks.bump "one" 1) ∷ []

last_save_decides_example :
    lookup "worktree_path" (checkpoint_of "one" (Tasks.run calls with_task))
    ≡ replayed "worktree_path" "one" calls (lookup "worktree_path" (checkpoint_of "one" with_task))
last_save_decides_example = last_save_decides "worktree_path" "one" calls with_task

abbrev asked : Content
asked = record {
  message_type = "CLARIFICATION_REQUEST";
  actor_id = "x";
  program_id = "p";
  lane_id = "one";
  run_id = "";
  caused_by = "";
  payload = "which?";
  detail = [];
  authority_context = [];
  protocol_version = pos 1;
}

abbrev question : Message
question = record { message_id = "m1"; content = asked; created_at = 1; answered_by = "" }

abbrev after_question : StrategicStore
after_question = stored_message question empty

question_stored :
    record_message plain (λ c. c.payload) question empty ≡ some (after_question, (true, ""))
unfolding record_message is_valid validate validate_after_type is_protocol message_types envelope
    by_digest message_row new_or_known insert_message sanitised stored_message event_of
    event_type_or
question_stored = refl

redelivered_is_recognised_example :
    record_message plain
      (λ c. c.payload)
      (record question { message_id = "m9"; created_at = 7 })
      (Once.run plain (λ c. c.payload) (answer "m1" "m2" ∷ []) after_question)
    ≡ some (Once.run plain (λ c. c.payload) (answer "m1" "m2" ∷ []) after_question, (false, "m1"))
redelivered_is_recognised_example =
    redelivered_is_recognised plain (λ c. c.payload) question
      (record question { message_id = "m9"; created_at = 7 }) empty after_question
      (answer "m1" "m2" ∷ []) question_stored refl

abbrev with_question : StrategicStore
with_question = record empty { message = question ∷ [] }

answer_closes_example :
    open_questions "one" (answer_message "m1" "m2" with_question)
    ≡ filter (λ m. not (m.message_id == "m1")) (open_questions "one" with_question)
answer_closes_example = answer_closes "m1" "m2" "one" with_question refl
