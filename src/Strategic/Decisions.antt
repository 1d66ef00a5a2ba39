-- ===== src/Strategic/Decisions.antt =====
-- core/decisions.py: a decision, who decided it, and what replaces it.
-- Every value is the text the caller gave; `now` is the clock and `id` a fresh id. `none` is a
-- ValueError.
use quaestor.Base.{
  ℕ, String, Bool, true, false, not, ◌&&◌, ◌||◌, Option, none, some, List, [], ◌∷◌, filter, elem,
  ltb, ◌==◌, if◌then◌else◌, strip,
}
use quaestor.Core.OwnerChannel.{owner_channel_state, is_authenticated}

abbrev pub by_owner : String
by_owner = "OWNER"

unfoldable pub authorities : List String
authorities = "OWNER" ∷ "STRATEGIST" ∷ "POLICY" ∷ []

abbrev pub decided : String
decided = "DECIDED"

abbrev pub superseded : String
superseded = "SUPERSEDED"

pub record Decision : Type 0 where
  pub decision_id : String
  pub program_id : String
  pub question : String
  pub decision : String
  pub authority : String
  pub rationale : String
  pub evidence_refs : List String
  pub lane_id : String
  pub status : String
  pub supersedes : String
  pub superseded_by : String
  pub created_at : ℕ
  pub decided_at : ℕ
  pub actor_id : String
  pub owner_attested : Bool

-- Decision.live: the status is OPEN or DECIDED.
unfoldable pub is_live : Decision → Bool
is_live d = d.status == "OPEN" || d.status == decided

unfoldable pub authority_is_claimed : Decision → Bool
authority_is_claimed d = d.authority == by_owner && not d.owner_attested

-- _owner_attested, with the reading of the owner channel's key.
unfoldable pub attested : Option Bool → String → Bool
unfolding owner_channel_state
attested key authority =
    if not (authority == by_owner) then true else is_authenticated (owner_channel_state key)

unfoldable pub is_blank : String → Bool
is_blank text = strip text == ""

-- What a caller asks to have recorded.
pub record Request : Type 0 where
  pub decision : String
  pub authority : String
  pub rationale : String
  pub evidence_refs : List String
  pub actor_id : String

unfoldable pub new_decision :
    Option Bool → ℕ → String → String → String → String → Request → Option Decision
unfolding attested is_blank authorities
new_decision key now id program_id question lane_id r =
    if not (elem r.authority authorities)
    then none
    else if is_blank question
    then none
    else some (record {
      decision_id = id;
      program_id = program_id;
      question = question;
      decision = r.decision;
      authority = r.authority;
      rationale = r.rationale;
      evidence_refs = r.evidence_refs;
      lane_id = lane_id;
      status = if is_blank r.decision then "OPEN" else decided;
      supersedes = "";
      superseded_by = "";
      created_at = now;
      decided_at = if is_blank r.decision then 0 else now;
      actor_id = r.actor_id;
      owner_attested = attested key r.authority;
    })

-- The two rows of supersede. The old one is built from the fields of _to_dict_for_replace, which
-- leave owner_attested at its default.
unfoldable pub replacement : Option Bool → ℕ → String → Decision → Request → Decision
unfolding attested
replacement key now id previous r = record {
  decision_id = id;
  program_id = previous.program_id;
  question = previous.question;
  decision = r.decision;
  authority = r.authority;
  rationale = r.rationale;
  evidence_refs = r.evidence_refs;
  lane_id = previous.lane_id;
  status = decided;
  supersedes = previous.decision_id;
  superseded_by = "";
  created_at = now;
  decided_at = now;
  actor_id = r.actor_id;
  owner_attested = attested key r.authority;
}

unfoldable pub retired : String → Decision → Decision
retired id previous = record previous {
  status = superseded;
  superseded_by = id;
  owner_attested = false;
}

unfoldable pub supersede :
    Option Bool → ℕ → String → Decision → Request → Option (Decision × Decision)
unfolding replacement retired is_blank
supersede key now id previous r =
    if is_blank r.rationale
    then none
    else some (replacement key now id previous r, retired id previous)

-- live_decisions: newest first, and in the order of the rows where they are equally old.
unfoldable pub insert_newest : Decision → List Decision → List Decision
insert_newest d [] = d ∷ []
insert_newest d (e ∷ rest) =
    let later = insert_newest d rest in
    if ltb d.created_at e.created_at then e ∷ later else d ∷ e ∷ rest

unfoldable pub newest_first : List Decision → List Decision
unfolding insert_newest
newest_first [] = []
newest_first (d ∷ rest) = insert_newest d (newest_first rest)

unfoldable pub live_decisions : List Decision → List Decision
unfolding newest_first is_live
live_decisions rows = newest_first (filter is_live rows)
