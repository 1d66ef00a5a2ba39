-- ===== src/Core/Autonomy.antt =====
-- core/autonomy.py: what a model in the strategist's seat decides without a human.
-- A mode that is no text is given by the text that `str` makes of it. Reason texts are left out.
pub mod Policy
use quaestor.Base.{
  String, Bool, true, false, ◌||◌, Option, none, some, List, [], ◌∷◌, elem, ◌==◌, if◌then◌else◌,
}

abbrev pub safe : String
safe = "SAFE"

abbrev pub auto : String
auto = "AUTO"

abbrev pub fallback_mode : String
fallback_mode = "DEFAULT"

-- KNOWN_MODES.
unfoldable pub known_modes : List String
known_modes = safe ∷ fallback_mode ∷ auto ∷ []

pub data Disposition : Type 0 where
  apply queue_for_approval escalate_to_owner : Disposition

-- ROUTINE_KINDS.
unfoldable pub routine_kinds : List String
routine_kinds = "CLARIFICATION_REQUEST" ∷ "DECISION_REQUEST" ∷ []

-- OWNER_KINDS.
unfoldable pub owner_kinds : List String
owner_kinds = "AUTHORITY_REQUEST" ∷ "OWNER_ESCALATION" ∷ []

-- `none` stands for a value whose `__str__` raises.
unfoldable pub resolve_mode : Option String → String
resolve_mode none = fallback_mode
resolve_mode (some text) = if elem text known_modes then text else fallback_mode

abbrev pub or_empty : Option String → String
or_empty none = ""
or_empty (some s) = s

unfoldable pub disposition : Option String → Option String → Option String → Disposition
disposition mode route kind =
    let kind_text = or_empty kind in
    if or_empty route == "OWNER" || elem kind_text owner_kinds
    then escalate_to_owner
    else let resolved = resolve_mode mode in
      if resolved == auto
      then apply
      else if resolved == safe
      then (if elem kind_text routine_kinds then apply else queue_for_approval)
      else queue_for_approval
