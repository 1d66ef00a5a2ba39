-- ===== src/Examples/Strategic.antt =====
-- A program of two lanes, its leases, its decisions, its checkpoints and its messages.
use quaestor.Base.{
  ℕ, ◌<◌, ◌≡◌, refl, true, false, not, none, some, List, [], ◌∷◌, all, any, is_empty, ◌==◌, ◌↔◌,
  arith,
}
use quaestor.Strategic.Lanes.{
  Lane, waiting_for_owner, next_owner, failed, pass, aggregate, workspace_conflicts,
}
use quaestor.Strategic.Lanes.Verdict.{is_passed, passes_iff, asks_owner_iff}
use quaestor.Strategic.Lanes.Workspaces.{shared, conflicts_iff_shared}
use quaestor.Strategic.Rows.{LaneLease, StrategicStore, empty, lease_row}
use quaestor.Strategic.Claims.{
  Claim, claim_lane, set_lane_state_fenced, evaluate_claim, claim_written, row_of, acquisition,
  next_fence, active, own_token,
}
use quaestor.Strategic.Claims.History
use quaestor.Strategic.Claims.Fences.{returned_is_stored, superseded_fence_refused}
use quaestor.Strategic.Claims.Holders.{foreign, no_release, holder_keeps_lane}

abbrev lane_one : Lane
lane_one = record {
  lane_id = "one";
  program_id = "p";
  workflow_id = "";
  title = "";
  kind = "implementation";
  state = "COMPLETE";
  verdict = pass;
  workspace_id = "w";
  writable = true;
  created_at = 1;
  updated_at = 1;
}

abbrev writers : List Lane
writers =
    record lane_one { state = "ACTIVE" }
    ∷ record lane_one { lane_id = "two"; state = "ACTIVE" }
    ∷ []

passes_iff_example :
    ((aggregate (lane_one ∷ [])).program_verdict ≡ pass)
    ↔ ((is_empty (lane_one ∷ []) ≡ false) × (all is_passed (lane_one ∷ []) ≡ true))
passes_iff_example = passes_iff (lane_one ∷ []) refl

conflicts_iff_shared_example : is_empty (workspace_conflicts writers) ≡ not (shared writers)
conflicts_iff_shared_example = conflicts_iff_shared writers

abbrev asking : List Lane
asking =
    lane_one ∷ record lane_one { lane_id = "two"; state = waiting_for_owner; verdict = "" } ∷ []

asks_owner_iff_example :
    ((aggregate asking).next_authority ≡ next_owner)
    ↔ ((any failed asking ≡ false) × (any (λ l. l.state == waiting_for_owner) asking ≡ true))
asks_owner_iff_example = asks_owner_iff asking

abbrev first_claim : Claim
first_claim = record { actor_id = "a"; owner_token = ""; lease_s = 10 }

abbrev second_claim : Claim
second_claim = record { actor_id = "b"; owner_token = ""; lease_s = 10 }

-- The lane after a first claim that has run out.
abbrev expired : LaneLease
expired = record {
  lane_id = "one";
  owner_token = "tok_a";
  actor_id = "a";
  fence = 1;
  acquired_at = 0;
  expires_at = 10;
  released_at = 0;
}

abbrev leased : StrategicStore
leased = record empty { lane_lease = expired ∷ [] }

-- Nobody is in the middle of a release.
abbrev quiet : History.System
quiet = record { store = leased; releasing = [] }

abbrev steps : List (ℕ × History.Command)
steps =
    (5, History.claim "tok_b" "one" second_claim)
    ∷ (6, History.release "one" "tok_b")
    ∷ (7, History.finish_release "one")
    ∷ []

abbrev later : List (ℕ × History.Command)
later = (21, History.claim "tok_c" "one" first_claim) ∷ []

new_fence : 1 < (claim_lane 20 "tok_b" "one" second_claim leased).1.1.fence
unfolding claim_lane evaluate_claim claim_written row_of acquisition next_fence active lease_row
new_fence = omega arith

held : lease_row "one" leased.lane_lease ≡ some expired
unfolding lease_row
held = refl

others : all (λ step. foreign expired step.0 step.1) steps ≡ true
unfolding foreign own_token
others = refl

clear : no_release "one" quiet.releasing ≡ true
unfolding no_release
clear = refl

superseded_fence_refused_example :
    let after =
      History.run later (History.perform 20 (History.claim "tok_b" "one" second_claim) quiet) in
    set_lane_state_fenced 22 "one" "COMPLETE" 1 none "a" after.store ≡ some (after.store, false)
superseded_fence_refused_example =
    superseded_fence_refused 20 "tok_b" "one" second_claim quiet later 22 "COMPLETE" 1 none "a"
      new_fence

holder_keeps_lane_example :
    lease_row "one" (History.run steps quiet).store.lane_lease ≡ some expired
holder_keeps_lane_example = holder_keeps_lane expired steps quiet held refl clear others

returned_is_stored_example :
    lease_row "one" (claim_lane 20 "tok_b" "one" second_claim leased).0.lane_lease
    ≡ some (claim_lane 20 "tok_b" "one" second_claim leased).1.1
returned_is_stored_example = returned_is_stored 20 "tok_b" "one" second_claim leased
