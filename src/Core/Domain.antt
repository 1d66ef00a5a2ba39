-- ===== src/Core/Domain.antt =====
-- core/domain.py: the execution states, the legal graph between them, and the handoff test.
-- A state is its text, as in the source, so an unknown text is a state that is neither active nor
-- terminal.
pub mod Graph
pub mod History
use quaestor.Base.{
  String, Bool, false, not, ◌&&◌, Option, none, some, List, [], ◌∷◌, ◌++◌, map, filter, elem,
  lookup, is_true,
}

abbrev pub created : String
created = "CREATED"

abbrev pub preflight : String
preflight = "PREFLIGHT"

abbrev pub leased : String
leased = "LEASED"

abbrev pub dispatched : String
dispatched = "DISPATCHED"

abbrev pub running : String
running = "RUNNING"

abbrev pub result_received : String
result_received = "RESULT_RECEIVED"

abbrev pub evidence_collected : String
evidence_collected = "EVIDENCE_COLLECTED"

abbrev pub handoff_ready : String
handoff_ready = "HANDOFF_READY"

abbrev pub handed_to_orchestrator : String
handed_to_orchestrator = "HANDED_TO_ORCHESTRATOR"

abbrev pub claude_failed : String
claude_failed = "CLAUDE_FAILED"

abbrev pub interrupted : String
interrupted = "INTERRUPTED"

abbrev pub worker_failed : String
worker_failed = "WORKER_FAILED"

abbrev pub evidence_invalid : String
evidence_invalid = "EVIDENCE_INVALID"

abbrev pub ambiguous_execution : String
ambiguous_execution = "AMBIGUOUS_EXECUTION"

abbrev pub owner_required : String
owner_required = "OWNER_REQUIRED"

abbrev pub cancelled : String
cancelled = "CANCELLED"

-- ALL_STATES.
unfoldable pub all_states : List String
all_states =
    created ∷ preflight ∷ leased ∷ dispatched ∷ running ∷ result_received ∷ evidence_collected
    ∷ handoff_ready ∷ handed_to_orchestrator ∷ "PREFLIGHT_REFUSED" ∷ "LEASE_REFUSED"
    ∷ "AUTHORITY_REFUSED" ∷ "PERMISSION_REFUSED" ∷ claude_failed ∷ interrupted ∷ worker_failed
    ∷ "RESULT_INVALID" ∷ evidence_invalid ∷ ambiguous_execution ∷ owner_required ∷ cancelled ∷ []

-- ACTIVE_STATES.
unfoldable pub active_states : List String
active_states =
    created ∷ preflight ∷ leased ∷ dispatched ∷ running ∷ result_received ∷ evidence_collected ∷ []

unfoldable pub is_active : String → Bool
is_active state = elem state active_states

-- TERMINAL_STATES: all the states that are not active.
unfoldable pub terminal_states : List String
terminal_states = filter (λ s. not (is_active s)) all_states

unfoldable pub is_terminal : String → Bool
is_terminal state = elem state terminal_states

-- _REFUSALS.
unfoldable pub refusals : List String
refusals =
    "PREFLIGHT_REFUSED" ∷ "LEASE_REFUSED" ∷ "AUTHORITY_REFUSED" ∷ "PERMISSION_REFUSED"
    ∷ owner_required ∷ cancelled ∷ worker_failed ∷ claude_failed ∷ interrupted ∷ "RESULT_INVALID"
    ∷ evidence_invalid ∷ ambiguous_execution ∷ []

-- TRANSITIONS. `setdefault` adds an empty row for each terminal state that has none; a row at the
-- end of the table that repeats a key is never found.
unfoldable pub transitions : List (String × List String)
transitions =
    ((created, preflight ∷ refusals)
      ∷ (preflight, leased ∷ dispatched ∷ refusals)
      ∷ (leased, dispatched ∷ refusals)
      ∷ (dispatched, running ∷ refusals)
      ∷ (running, result_received ∷ refusals)
      ∷ (result_received, evidence_collected ∷ refusals)
      ∷ (evidence_collected, handoff_ready ∷ refusals)
      ∷ (handoff_ready, handed_to_orchestrator ∷ [])
      ∷ (handed_to_orchestrator, [])
      ∷ [])
    ++ map (λ s. (s, [])) terminal_states

-- A source with no row and a destination that is no state are refused.
unfoldable pub can_transition : String → String → Bool
can_transition src dst = elim (lookup src transitions) [
  | none ↦ false
  | some dsts ↦ elem dst all_states && elem dst dsts
]

-- The two readings are taken as literal booleans.
unfoldable pub handoff_is_ready : Option Bool → Option Bool → Bool
handoff_is_ready result_valid evidence_ok = is_true result_valid && is_true evidence_ok
