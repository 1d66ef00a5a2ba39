-- ===== src/Relay/Effects.antt =====
-- relay/effects.py: the three gates of the relay. What the regular expressions of
-- parse_effect_request find in a turn is an argument; reason texts and the `decision` details, which
-- no code reads, are left out.
pub mod Gates
use quaestor.Base.{
  ℕ, String, Bool, true, false, not, ◌&&◌, ◌||◌, Option, none, some, List, [], ◌∷◌, is_some,
  is_empty, lookup, ◌==◌, if◌then◌else◌,
}
use quaestor.Core.OwnerChannel.{Grant, ChannelState}
use quaestor.Core.Authority.{
  repo_read, repo_write, git_commit, git_push, external_write, destructive, allowed, require,
}

-- EFFECT_CAPABILITIES.
unfoldable pub effect_capabilities : List (String × List String)
effect_capabilities =
    ("READ_ONLY", repo_read ∷ [])
    ∷ ("STANDARD_EDIT", repo_read ∷ repo_write ∷ [])
    ∷ ("GIT_COMMIT", repo_read ∷ repo_write ∷ git_commit ∷ [])
    ∷ ("GIT_PUSH", repo_read ∷ repo_write ∷ git_commit ∷ git_push ∷ [])
    ∷ ("DESTRUCTIVE", repo_read ∷ destructive ∷ [])
    ∷ ("EXTERNAL_WRITE", repo_read ∷ external_write ∷ [])
    ∷ []

pub record EffectRequest : Type 0 where
  pub effect_class : String
  pub recognised : Bool

-- `EFFECT_CAPABILITIES.get(effect_class, ())`.
unfoldable pub capabilities_of : String → List String
capabilities_of cls = elim (lookup cls effect_capabilities) [ none ↦ [] | some caps ↦ caps ]

-- What a turn holds: no effect block, a block without a field, or a block with its value in upper
-- case.
pub data Block : Type 0 where
  no_block no_field : Block
  value : String → Block

-- parse_effect_request, of what was found.
unfoldable pub parse_effect_request : Block → EffectRequest
parse_effect_request no_block = record { effect_class = "STANDARD_EDIT"; recognised = true }
parse_effect_request no_field = record { effect_class = ""; recognised = false }
parse_effect_request (value v) = record {
  effect_class = v;
  recognised = is_some (lookup v effect_capabilities);
}

pub record Gate : Type 0 where
  pub passed : Bool
  pub effect_class : String
  pub hold : String
  pub required : List String

-- What the caller supplies: the profile, the owner's grants, the clock, the channel state, and
-- whether the attestation key is present.
pub record Authority : Type 0 where
  pub profile : String
  pub owner_grants : List Grant
  pub now : ℕ
  pub channel_state : Option ChannelState
  pub key_present : Option Bool

-- _require, and whether it allows.
unfoldable pub permits : Authority → List String → Bool
permits a caps = allowed (require a.profile caps a.owner_grants a.now a.channel_state a.key_present)

unfoldable pub gate_capabilities : Authority → String → String → List String → Gate
gate_capabilities a hold cls caps =
    if permits a caps
    then record { passed = true; effect_class = cls; hold = ""; required = caps }
    else record { passed = false; effect_class = cls; hold = hold; required = caps }

abbrev start_capabilities : Bool → List String
start_capabilities can_mutate = if can_mutate then repo_read ∷ repo_write ∷ [] else repo_read ∷ []

-- gate_start.
unfoldable pub gate_start : Authority → Bool → Gate
gate_start a can_mutate =
    gate_capabilities a "PROFILE_CEILING" (if can_mutate then "STANDARD_EDIT" else "READ_ONLY")
      (start_capabilities can_mutate)

-- gate_directive.
unfoldable pub gate_directive : Authority → Block → Gate
gate_directive a block =
    let req = parse_effect_request block in
    if not req.recognised
    then record {
      passed = false;
      effect_class = req.effect_class;
      hold = "UNKNOWN_EFFECT_CLASS";
      required = [];
    }
    else gate_capabilities a "OWNER_REQUIRED" req.effect_class (capabilities_of req.effect_class)

-- A reading of the repository (relay/observe.py); a missing field is the empty text.
pub record Snapshot : Type 0 where
  pub probe_ok : Bool
  pub upstream_head : String
  pub head : String
  pub status_digest : String
  pub diff_sha256 : String

-- observed_effect_class; the empty text is a measurement that failed.
unfoldable pub observed_effect_class : Snapshot → Snapshot → String
observed_effect_class before after =
    if not (before.probe_ok && after.probe_ok)
    then ""
    else if not (before.upstream_head == after.upstream_head) && not (after.upstream_head == "")
    then "GIT_PUSH"
    else if not (before.head == after.head)
    then "GIT_COMMIT"
    else if not (before.status_digest == after.status_digest)
        || not (before.diff_sha256 == after.diff_sha256)
    then "STANDARD_EDIT"
    else "READ_ONLY"

-- gate_observation.
unfoldable pub gate_observation : Authority → Snapshot → Snapshot → Gate
gate_observation a before after =
    let cls = observed_effect_class before after in
    if cls == ""
    then record {
      passed = false;
      effect_class = "";
      hold = "OBSERVATION_UNMEASURABLE";
      required = [];
    }
    else gate_capabilities a "OBSERVED_UNGRANTED_EFFECT" cls (capabilities_of cls)
