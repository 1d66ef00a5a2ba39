-- ===== src/Strategic/Messages.antt =====
-- core/messages.py: one message between a strategist and an executor, its envelope and its content.
use quaestor.Base.{
  ℕ, String, Bool, false, not, Option, none, some, List, [], ◌∷◌, elem, eqb, lookup, ◌==◌,
  if◌then◌else◌,
}
use quaestor.Base.Int.{ℤ, pos, negsuc}

unfoldable pub message_types : List String
message_types =
    "OBJECTIVE" ∷ "DIRECTIVE" ∷ "CLARIFICATION_REQUEST" ∷ "DECISION_REQUEST" ∷ "AUTHORITY_REQUEST"
    ∷ "BLOCKER" ∷ "OBSERVATION" ∷ "PLAN_REVISION" ∷ "RESULT" ∷ "REVIEW_FINDING" ∷ "OWNER_ESCALATION"
    ∷ []

unfoldable pub awaiting_types : List String
awaiting_types =
    "CLARIFICATION_REQUEST" ∷ "DECISION_REQUEST" ∷ "AUTHORITY_REQUEST" ∷ "OWNER_ESCALATION" ∷ []

unfoldable pub routes : List (String × String)
routes =
    ("OBJECTIVE", "EXECUTOR")
    ∷ ("DIRECTIVE", "EXECUTOR")
    ∷ ("CLARIFICATION_REQUEST", "STRATEGIST")
    ∷ ("DECISION_REQUEST", "STRATEGIST")
    ∷ ("PLAN_REVISION", "STRATEGIST")
    ∷ ("BLOCKER", "STRATEGIST")
    ∷ ("OBSERVATION", "STRATEGIST")
    ∷ ("RESULT", "STRATEGIST")
    ∷ ("REVIEW_FINDING", "STRATEGIST")
    ∷ ("AUTHORITY_REQUEST", "OWNER")
    ∷ ("OWNER_ESCALATION", "OWNER")
    ∷ []

-- What Message.digest is taken of; `detail` by its items, each value by its JSON text.
pub record Content : Type 0 where
  pub message_type : String
  pub actor_id : String
  pub program_id : String
  pub lane_id : String
  pub run_id : String
  pub caused_by : String
  pub payload : String
  pub detail : List (String × String)
  pub authority_context : List String
  pub protocol_version : ℤ

-- Message, and the column answered_by of its row.
pub record Message : Type 0 where
  pub message_id : String
  pub content : Content
  pub created_at : ℕ
  pub answered_by : String

unfoldable pub awaits_answer : Message → Bool
unfolding awaiting_types
awaits_answer m = elem m.content.message_type awaiting_types

unfoldable pub route_or_strategist : Option String → String
route_or_strategist none = "STRATEGIST"
route_or_strategist (some r) = r

unfoldable pub routed_to : Message → String
unfolding routes route_or_strategist
routed_to m = route_or_strategist (lookup m.content.message_type routes)

abbrev pub message_protocol_version : ℤ
message_protocol_version = pos 1

-- new_message, with the clock and a fresh id; `none` is a ValueError.
unfoldable pub new_message : ℕ → String → Content → Option Message
unfolding message_types
new_message now id c =
    if not (elem c.message_type message_types)
    then none
    else some (record {
      message_id = id;
      content = record c { protocol_version = message_protocol_version };
      created_at = now;
      answered_by = "";
    })

pub data Validation : Type 0 where
  valid unknown_message_type protocol_refused malformed : Validation

-- What validate reads of a document: its texts as `str(... or "")`, and `int(protocol_version)`,
-- `none` where that raises.
pub record Envelope : Type 0 where
  pub message_type : String
  pub protocol_version : Option ℤ
  pub actor_id : String
  pub lane_id : String

unfoldable pub is_protocol : ℤ → Bool
is_protocol (pos n) = eqb n 1
is_protocol (negsuc n) = false

unfoldable pub validate_after_type : Envelope → Option ℤ → Validation
unfolding is_protocol
validate_after_type d none = malformed
validate_after_type d (some version) =
    if not (is_protocol version)
    then protocol_refused
    else if d.actor_id == ""
    then malformed
    else if d.lane_id == ""
    then malformed
    else valid

-- validate, of a document that is `none` where it is not a mapping.
unfoldable pub validate : Option Envelope → Validation
unfolding message_types validate_after_type
validate none = malformed
validate (some d) =
    if not (elem d.message_type message_types)
    then unknown_message_type
    else validate_after_type d d.protocol_version

unfoldable pub envelope : Content → Envelope
envelope c = record {
  message_type = c.message_type;
  protocol_version = some c.protocol_version;
  actor_id = c.actor_id;
  lane_id = c.lane_id;
}
