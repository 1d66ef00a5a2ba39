-- ===== src/Strategic/Lanes.antt =====
-- core/programs.py: the lanes of a program, what they wait for, and the program's outcome.
-- Names of states, verdicts and kinds are the source's texts, times are natural numbers. Reasons
-- for a reader are left out.
pub mod Verdict
pub mod Workspaces
pub mod Waits
use quaestor.Base.{
  ℕ, suc, String, Bool, true, false, not, ◌&&◌, ◌||◌, Option, none, some, List, [], ◌∷◌, ◌++◌, any,
  all, filter, length, is_empty, lookup, elem, map, ◌==◌, if◌then◌else◌,
}
use Prim.Native.Nat.{Ordering}
use Prim.Native.String.{compare}

abbrev pub complete : String
complete = "COMPLETE"

abbrev pub waiting_for_owner : String
waiting_for_owner = "WAITING_FOR_OWNER"

unfoldable pub lane_states : List String
lane_states =
    "PLANNED" ∷ "ACTIVE" ∷ "WAITING_FOR_STRATEGIST" ∷ "WAITING_FOR_OWNER" ∷ "WAITING_FOR_LANE"
    ∷ "WAITING_FOR_EXTERNAL_EVENT" ∷ "COMPLETE" ∷ "ABANDONED" ∷ []

unfoldable pub waiting_states : List String
waiting_states =
    "WAITING_FOR_STRATEGIST" ∷ "WAITING_FOR_OWNER" ∷ "WAITING_FOR_LANE"
    ∷ "WAITING_FOR_EXTERNAL_EVENT" ∷ []

unfoldable pub terminal_lane_states : List String
terminal_lane_states = "COMPLETE" ∷ "ABANDONED" ∷ []

unfoldable pub dependency_kinds : List String
dependency_kinds =
    "BLOCKS" ∷ "REQUIRES" ∷ "PRODUCES_FOR" ∷ "VALIDATES" ∷ "REVIEWS" ∷ "SUPERSEDES" ∷ "MERGES_AFTER"
    ∷ []

-- The verdicts of a lane and of a program.
abbrev pub pass : String
pass = "PASS"

abbrev pub fail : String
fail = "FAIL"

abbrev pub not_evaluated : String
not_evaluated = "NOT_EVALUATED"

pub data NextAuthority : Type 0 where
  next_none next_strategist next_owner next_external : NextAuthority

pub record Lane : Type 0 where
  pub lane_id : String
  pub program_id : String
  pub workflow_id : String
  pub title : String
  pub kind : String
  pub state : String
  pub verdict : String
  pub workspace_id : String
  pub writable : Bool
  pub created_at : ℕ
  pub updated_at : ℕ

unfoldable pub waiting : Lane → Bool
waiting l = elem l.state waiting_states

unfoldable pub terminal : Lane → Bool
terminal l = elem l.state terminal_lane_states

-- new_lane, with the clock and a fresh id.
unfoldable pub new_lane : ℕ → String → String → String → String → String → Bool → String → Lane
new_lane now id program_id title kind workflow_id writable workspace_id = record {
  lane_id = id;
  program_id = program_id;
  workflow_id = workflow_id;
  title = title;
  kind = kind;
  state = "PLANNED";
  verdict = not_evaluated;
  workspace_id = workspace_id;
  writable = writable;
  created_at = now;
  updated_at = now;
}

pub record Dependency : Type 0 where
  pub from_lane : String
  pub to_lane : String
  pub kind : String

-- `sorted(names)`.
unfoldable pub insert_name : String → List String → List String
insert_name s [] = s ∷ []
insert_name s (x ∷ xs) =
    let rest = insert_name s xs in elim (compare s x) [ Ordering.gt ↦ x ∷ rest | _ ↦ s ∷ x ∷ xs ]

unfoldable pub sorted : List String → List String
unfolding insert_name
sorted [] = []
sorted (x ∷ xs) = insert_name x (sorted xs)

-- A dependency whose kind gates the lane it starts from.
unfoldable pub gating : Dependency → Bool
gating d = d.kind == "REQUIRES" || d.kind == "MERGES_AFTER"

-- `upstream is None or upstream.state != LANE_COMPLETE`.
unfoldable pub unfinished : Option Lane → Bool
unfinished none = true
unfinished (some l) = not (l.state == complete)

-- `blocking.setdefault(k, []).append(v)`.
unfoldable pub append_to :
    String → String → List (String × List String) → List (String × List String)
append_to k v [] = (k, v ∷ []) ∷ []
append_to k v ((j, vs) ∷ m) =
    let rest = append_to k v m in if k == j then (j, vs ++ v ∷ []) ∷ m else (j, vs) ∷ rest

unfoldable pub blocks_now : List (String × Lane) → Dependency → Bool
unfolding gating unfinished
blocks_now lanes d = gating d && unfinished (lookup d.to_lane lanes)

-- The loop of blocking_dependencies.
unfoldable pub collect :
    List (String × Lane)
    → List Dependency
    → List (String × List String)
    → List (String × List String)
unfolding append_to blocks_now
collect lanes [] blocking = blocking
collect lanes (d ∷ deps) blocking =
    collect lanes deps
      (if blocks_now lanes d then append_to d.from_lane d.to_lane blocking else blocking)

unfoldable pub blocking_dependencies :
    List (String × Lane) → List Dependency → List (String × List String)
unfolding collect sorted
blocking_dependencies lanes deps = map (λ row. (row.0, sorted row.1)) (collect lanes deps [])

pub record Outcome : Type 0 where
  pub program_verdict : String
  pub next_authority : NextAuthority
  pub lane_count : ℕ
  pub state_counts : List (String × ℕ)
  pub waiting_lanes : List String
  pub failed_lanes : List String
  pub vacuous : Bool

-- `counts[s] = counts.get(s, 0) + 1`.
unfoldable pub count_state : String → List (String × ℕ) → List (String × ℕ)
count_state s [] = (s, 1) ∷ []
count_state s ((t, n) ∷ m) =
    let rest = count_state s m in if s == t then (t, suc n) ∷ m else (t, n) ∷ rest

unfoldable pub counts_of : List Lane → List (String × ℕ) → List (String × ℕ)
unfolding count_state
counts_of [] counts = counts
counts_of (l ∷ lanes) counts = counts_of lanes (count_state l.state counts)

unfoldable pub failed : Lane → Bool
failed l = l.verdict == fail

-- The verdict and the next authority of aggregate, by the order of its branches.
unfoldable pub verdict_of : List Lane → String × NextAuthority
unfolding waiting terminal failed
verdict_of lanes =
    if is_empty lanes
    then (not_evaluated, next_strategist)
    else if not (is_empty (filter failed lanes))
    then (fail, next_strategist)
    else if not (is_empty (filter waiting lanes))
    then (
      not_evaluated,
      if not (is_empty (filter (λ l. l.state == waiting_for_owner) (filter waiting lanes)))
          then next_owner
          else next_strategist,
    )
    else if not (is_empty (filter (λ l. not (terminal l)) lanes))
    then (not_evaluated, next_strategist)
    else if all (λ l. l.verdict == pass) lanes
    then (pass, next_none)
    else (not_evaluated, next_strategist)

unfoldable pub aggregate : List Lane → Outcome
unfolding verdict_of counts_of waiting failed
aggregate lanes = record {
  program_verdict = (verdict_of lanes).0;
  next_authority = (verdict_of lanes).1;
  lane_count = length lanes;
  state_counts = counts_of lanes [];
  waiting_lanes = map (λ l. l.lane_id) (filter waiting lanes);
  failed_lanes = map (λ l. l.lane_id) (filter failed lanes);
  vacuous = is_empty lanes;
}

pub record Conflict : Type 0 where
  pub workspace_id : String
  pub lanes : List String

-- A lane that may write its workspace now.
unfoldable pub writes : Lane → Bool
unfolding terminal
writes l = l.writable && not (l.workspace_id == "") && not (terminal l)

-- The report on a lane whose workspace the lane `first` holds.
unfoldable pub conflict : Lane → String → Conflict
unfolding sorted
conflict l first = record { workspace_id = l.workspace_id; lanes = sorted (first ∷ l.lane_id ∷ []) }

unfoldable pub conflict_or_seen :
    Lane
    → Option String
    → List (String × String)
    → List Conflict
    → List (String × String) × List Conflict
unfolding conflict
conflict_or_seen l none seen bad = (seen ++ (l.workspace_id, l.lane_id) ∷ [], bad)
conflict_or_seen l (some first) seen bad = (seen, bad ++ conflict l first ∷ [])

-- The loop of workspace_conflicts, over the writers `seen` so far, by workspace.
unfoldable pub conflicts_from : List Lane → List (String × String) → List Conflict → List Conflict
unfolding writes conflict_or_seen
conflicts_from [] seen bad = bad
conflicts_from (l ∷ lanes) seen bad =
    let next =
      if writes l then conflict_or_seen l (lookup l.workspace_id seen) seen bad else (seen, bad) in
    conflicts_from lanes next.0 next.1

unfoldable pub workspace_conflicts : List Lane → List Conflict
unfolding conflicts_from
workspace_conflicts lanes = conflicts_from lanes [] []
