-- ===== src/Core/Authority.antt =====
-- core/authority.py: the capabilities, the profiles that grant them, and the decision `require`.
-- Reason texts are left out.
pub mod Allow
use quaestor.Base.{
  ℕ, String, Bool, true, false, not, ◌&&◌, Option, none, some, List, [], ◌∷◌, ◌++◌, any, elem,
  filter, lookup, is_empty, is_some, sorted_set, if◌then◌else◌,
}
use quaestor.Core.OwnerChannel.{Grant, ChannelState, channel_in_force, gate}

abbrev pub repo_read : String
repo_read = "repo_read"

abbrev pub repo_write : String
repo_write = "repo_write"

abbrev pub git_commit : String
git_commit = "git_commit"

abbrev pub git_push : String
git_push = "git_push"

abbrev pub network_read : String
network_read = "network_read"

abbrev pub external_write : String
external_write = "external_write"

abbrev pub paid_execution : String
paid_execution = "paid_execution"

abbrev pub destructive : String
destructive = "destructive"

-- ALL_CAPABILITIES.
unfoldable pub all_capabilities : List String
all_capabilities =
    repo_read ∷ repo_write ∷ git_commit ∷ git_push ∷ network_read ∷ external_write ∷ paid_execution
    ∷ destructive ∷ []

-- OWNER_GATED.
unfoldable pub owner_gated : List String
owner_gated = git_push ∷ external_write ∷ paid_execution ∷ destructive ∷ []

-- MUTATING.
unfoldable pub mutating : List String
mutating = repo_write ∷ git_commit ∷ git_push ∷ destructive ∷ []

-- PROFILES.
unfoldable pub profiles : List (String × List String)
profiles =
    ("READ_ONLY", repo_read ∷ [])
    ∷ ("STANDARD_EDIT", repo_read ∷ repo_write ∷ [])
    ∷ ("STANDARD_EDIT_CONFINED", repo_read ∷ repo_write ∷ [])
    ∷ ("GIT_COMMIT", repo_read ∷ repo_write ∷ git_commit ∷ [])
    ∷ ("GIT_PUSH", repo_read ∷ repo_write ∷ git_commit ∷ git_push ∷ [])
    ∷ ("NETWORK_READ", repo_read ∷ network_read ∷ [])
    ∷ ("EXTERNAL_WRITE", repo_read ∷ network_read ∷ external_write ∷ [])
    ∷ ("PAID_EXECUTION", repo_read ∷ network_read ∷ paid_execution ∷ [])
    ∷ ("DESTRUCTIVE", repo_read ∷ repo_write ∷ destructive ∷ [])
    ∷ []

-- An unknown profile grants nothing.
unfoldable pub granted_capabilities : String → List String
granted_capabilities profile = elim (lookup profile profiles) [ none ↦ [] | some caps ↦ caps ]

unfoldable pub is_write_profile : String → List String → Bool
is_write_profile profile extra = any (λ c. elem c mutating) (granted_capabilities profile ++ extra)

pub data Verdict : Type 0 where
  allow owner_required authority_refused : Verdict

pub record AuthorityDecision : Type 0 where
  pub decision : Verdict
  pub profile : String
  pub granted : List String
  pub required : List String
  pub missing : List String
  pub ungranted : List String

abbrev pub allowed : AuthorityDecision → Bool
allowed d = elim d.decision [ allow ↦ true | _ ↦ false ]

decision_of :
    Verdict → String → List String → List String → List String → List String → AuthorityDecision
decision_of verdict prof grants req missing ungranted = record {
  decision = verdict;
  profile = prof;
  granted = grants;
  required = req;
  missing = missing;
  ungranted = ungranted;
}

-- require, of the profile, the required capabilities, the owner's recorded grants, the time, the
-- channel state given by the caller and the presence of the attestation key.
unfoldable pub require :
    String → List String → List Grant → ℕ → Option ChannelState → Option Bool → AuthorityDecision
unfolding decision_of
require prof required owner_grants now channel_state present =
    let req = sorted_set required in
    let grants = granted_capabilities prof in
    let held = sorted_set grants in
    let unmodelled = filter (λ c. not (elem c all_capabilities)) req in
    if not (is_empty unmodelled)
    then decision_of authority_refused prof held req unmodelled []
    else if not (is_some (lookup prof profiles))
    then decision_of authority_refused prof [] req req []
    else let missing = filter (λ c. not (elem c grants)) req in
      if not (is_empty missing)
      then decision_of owner_required prof held req missing []
      else let state = channel_in_force channel_state present in
        let blocked = gate req owner_gated owner_grants state now in
        if not (is_empty blocked)
        then decision_of owner_required prof held req [] blocked
        else decision_of allow prof held req [] []
