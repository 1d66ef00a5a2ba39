-- ===== src/Strategic/MessageTable.antt =====
-- The message table of core/strategic_store.py. `classify` is what core/classification.py makes of a
-- text, and `digest` the SHA-256 of the canonical JSON of a content. `none` is a ValueError.
pub mod Once
pub mod Questions
use quaestor.Base.{
  ℕ, String, Bool, true, false, not, ◌&&◌, Option, none, some, List, [], ◌∷◌, ◌++◌, any, filter,
  find, map, leb, lookup, ◌==◌, if◌then◌else◌,
}
use quaestor.Strategic.Messages.{
  Content, Message, Validation, valid, validate, envelope, awaits_answer,
}
use quaestor.Strategic.Rows.{StrategicStore, append_event, new_event}
use quaestor.Strategic.DecisionTable.{Classified}

-- The content that is stored.
unfoldable pub sanitised : (String → Classified) → Content → Content
sanitised classify c =
    if (classify c.payload).modified then record c { payload = (classify c.payload).text } else c

unfoldable pub event_type_or : Option String → String
event_type_or none = "EXECUTOR_MESSAGE"
event_type_or (some e) = e

unfoldable pub event_of : String → String
unfolding event_type_or
event_of message_type = event_type_or (
    lookup message_type (
      ("AUTHORITY_REQUEST", "AUTHORITY_REQUESTED")
      ∷ ("CLARIFICATION_REQUEST", "CLARIFICATION_REQUESTED")
      ∷ ("BLOCKER", "BLOCKED")
      ∷ ("OWNER_ESCALATION", "OWNER_ESCALATED")
      ∷ ("REVIEW_FINDING", "REVIEW_FINDING")
      ∷ []))

-- `SELECT message_id FROM message WHERE digest=?`.
unfoldable pub by_digest : (Content → String) → String → StrategicStore → Option Message
by_digest digest d s = find (λ m. digest m.content == d) s.message

unfoldable pub stored_message : Message → StrategicStore → StrategicStore
unfolding event_of
stored_message m s =
    append_event
      (new_event (event_of m.content.message_type) m.created_at m.content.program_id
        m.content.lane_id m.content.run_id m.content.actor_id)
      (record s { message = s.message ++ m ∷ [] })

-- The INSERT, of a content that has no row; where the id is taken, it raises an IntegrityError and no
-- winner is found.
unfoldable pub insert_message : Message → StrategicStore → StrategicStore × (Bool × String)
unfolding stored_message
insert_message m s =
    if any (λ r. r.message_id == m.message_id) s.message
    then (s, (false, ""))
    else (stored_message m s, (true, ""))

unfoldable pub new_or_known :
    Option Message → Message → StrategicStore → StrategicStore × (Bool × String)
unfolding insert_message
new_or_known (some known) m s = (s, (false, known.message_id))
new_or_known none m s = insert_message m s

unfoldable pub message_row : (String → Classified) → Message → Message
unfolding sanitised
message_row classify m = record m { content = sanitised classify m.content; answered_by = "" }

unfoldable pub is_valid : Validation → Bool
is_valid valid = true
is_valid _ = false

-- record_message: the store, whether the message was stored, and the id of the row it repeats.
unfoldable pub record_message :
    (String → Classified)
    → (Content → String)
    → Message
    → StrategicStore
    → Option (StrategicStore × (Bool × String))
unfolding is_valid message_row new_or_known by_digest
record_message classify digest m s =
    if not (is_valid (validate (some (envelope m.content))))
    then none
    else some (
        new_or_known (by_digest digest (digest (message_row classify m).content) s)
          (message_row classify m) s)

unfoldable pub answered : String → String → Message → Message
answered message_id answer_id m =
    if m.message_id == message_id then record m { answered_by = answer_id } else m

unfoldable pub answer_message : String → String → StrategicStore → StrategicStore
unfolding answered
answer_message message_id answer_id s = record s {
  message = map (answered message_id answer_id) s.message;
}

-- `ORDER BY created_at`, rows of one time in the order of insertion.
unfoldable pub insert_by_time : Message → List Message → List Message
insert_by_time m [] = m ∷ []
insert_by_time m (x ∷ rest) =
    let later = insert_by_time m rest in
    if leb m.created_at x.created_at then m ∷ x ∷ rest else x ∷ later

unfoldable pub by_time : List Message → List Message
unfolding insert_by_time
by_time [] = []
by_time (m ∷ rest) = insert_by_time m (by_time rest)

unfoldable pub messages : String → StrategicStore → List Message
unfolding by_time
messages lane_id s = by_time (filter (λ m. m.content.lane_id == lane_id) s.message)

unfoldable pub is_open : Message → Bool
is_open m = awaits_answer m && m.answered_by == ""

unfoldable pub open_questions : String → StrategicStore → List Message
unfolding messages is_open
open_questions lane_id s = filter is_open (messages lane_id s)
