-- ===== src/Strategic/Claims.antt =====
-- The lease on a lane: core/programs.py decides a claim, core/strategic_store.py writes it.
pub mod History
pub mod Branches
pub mod Fences
pub mod Holders
mod Alone
use quaestor.Base.{
  ℕ, suc, ◌+◌, String, Bool, true, false, not, ◌&&◌, ◌||◌, Option, none, some, List, [], ◌∷◌, ◌++◌,
  elem, map, ltb, eqb, is_some, ◌==◌, if◌then◌else◌,
}
use quaestor.Strategic.Lanes.{Lane, lane_states}
use quaestor.Strategic.Rows.{
  LaneLease, StrategicStore, append_event, new_event, get_lane, program_of, lease_row,
}

pub data ClaimOutcome : Type 0 where
  acquired renewed held_by_other : ClaimOutcome

-- LaneLease.active.
unfoldable pub active : LaneLease → ℕ → Bool
active l now = eqb l.released_at 0 && ltb now l.expires_at

pub record Claim : Type 0 where
  pub actor_id : String
  pub owner_token : String
  pub lease_s : ℕ

unfoldable pub next_fence : Option LaneLease → ℕ
next_fence none = 1
next_fence (some l) = suc l.fence

-- The lane of the existing row; claim_lane writes the lane it was asked for in its place.
unfoldable pub lane_of : Option LaneLease → String
lane_of none = ""
lane_of (some l) = l.lane_id

unfoldable pub acquisition : Option LaneLease → ℕ → String → Claim → LaneLease
unfolding next_fence lane_of
acquisition existing now token c = record {
  lane_id = lane_of existing;
  owner_token = token;
  actor_id = c.actor_id;
  fence = next_fence existing;
  acquired_at = now;
  expires_at = now + c.lease_s;
  released_at = 0;
}

unfoldable pub renewal : LaneLease → ℕ → Claim → LaneLease
renewal l now c = record l { expires_at = now + c.lease_s; released_at = 0 }

-- `own_token` is the caller's, not empty, and the lease's.
unfoldable pub own_token : LaneLease → Claim → Bool
own_token l c = not (c.owner_token == "") && c.owner_token == l.owner_token

-- evaluate_claim, with the clock and the fresh token.
unfoldable pub evaluate_claim : Option LaneLease → ℕ → String → Claim → ClaimOutcome × LaneLease
unfolding active acquisition renewal own_token
evaluate_claim none now token c = (acquired, acquisition none now token c)
evaluate_claim (some l) now token c =
    if active l now
    then if own_token l c then (renewed, renewal l now c) else (held_by_other, l)
    else (acquired, acquisition (some l) now token c)

-- check_fence, without its reason.
unfoldable pub check_fence : Option LaneLease → ℕ → Bool
check_fence none presented = false
check_fence (some l) presented = not (ltb presented l.fence)

-- `ON CONFLICT(lane_id) DO UPDATE ... WHERE lane_lease.fence < excluded.fence OR
-- lane_lease.owner_token = excluded.owner_token`, on the row of the lane.
unfoldable pub upsert_lease : LaneLease → List LaneLease → List LaneLease
upsert_lease l [] = l ∷ []
upsert_lease l (row ∷ rows) =
    let rest = upsert_lease l rows in
    if row.lane_id == l.lane_id
    then (if ltb row.fence l.fence || row.owner_token == l.owner_token then l else row) ∷ rows
    else row ∷ rest

-- The row that an acquired or renewed lease becomes.
unfoldable pub row_of : String → LaneLease → LaneLease
row_of lane_id l = record l { lane_id = lane_id; released_at = 0 }

unfoldable pub written : ℕ → String → Claim → LaneLease → StrategicStore → StrategicStore
unfolding upsert_lease
written now lane_id c row s =
    append_event (new_event "LANE_CLAIMED" now "" lane_id "" c.actor_id)
      (record s { lane_lease = upsert_lease row s.lane_lease })

unfoldable pub claim_written :
    ℕ
    → String
    → Claim
    → ClaimOutcome × LaneLease
    → StrategicStore
    → StrategicStore × (ClaimOutcome × LaneLease)
unfolding written row_of
claim_written now lane_id c (held_by_other, l) s = (s, (held_by_other, l))
claim_written now lane_id c (outcome, l) s =
    (written now lane_id c (row_of lane_id l) s, (outcome, row_of lane_id l))

-- claim_lane: one transaction, so one step.
unfoldable pub claim_lane :
    ℕ → String → String → Claim → StrategicStore → StrategicStore × (ClaimOutcome × LaneLease)
unfolding claim_written evaluate_claim
claim_lane now token lane_id c s =
    claim_written now lane_id c (evaluate_claim (lease_row lane_id s.lane_lease) now token c) s

unfoldable pub guard_fence : String → ℕ → StrategicStore → Bool
unfolding check_fence
guard_fence lane_id presented s = check_fence (lease_row lane_id s.lane_lease) presented

-- set_lane_state, of a state, a verdict that may be None, and an actor. `none` is a ValueError.
unfoldable pub moved_lane : ℕ → String → String → Option String → Lane → Lane
moved_lane now lane_id state none l =
    if l.lane_id == lane_id then record l { state = state; updated_at = now } else l
moved_lane now lane_id state (some verdict) l =
    if l.lane_id == lane_id
    then record l { state = state; verdict = verdict; updated_at = now }
    else l

unfoldable pub set_lane_state :
    ℕ → String → String → Option String → String → StrategicStore → Option StrategicStore
unfolding moved_lane lane_states
set_lane_state now lane_id state verdict actor_id s =
    if not (elem state lane_states)
    then none
    else some (
        append_event
          (new_event "LANE_STATE_CHANGED" now (program_of (get_lane lane_id s)) lane_id "" actor_id)
          (record s { lane = map (moved_lane now lane_id state verdict) s.lane }))

-- set_lane_state_fenced where no other call comes between its guard and its write: the store after it,
-- and whether it was done.
unfoldable pub done_or_error : Option StrategicStore → Option (StrategicStore × Bool)
done_or_error none = none
done_or_error (some s) = some (s, true)

unfoldable pub set_lane_state_fenced :
    ℕ
    → String
    → String
    → ℕ
    → Option String
    → String
    → StrategicStore
    → Option (StrategicStore × Bool)
unfolding guard_fence set_lane_state done_or_error
set_lane_state_fenced now lane_id state fence verdict actor_id s =
    if not (guard_fence lane_id fence s)
    then some (s, false)
    else done_or_error (set_lane_state now lane_id state verdict actor_id s)

unfoldable pub released_lease : ℕ → String → LaneLease → LaneLease
released_lease now lane_id l = if l.lane_id == lane_id then record l { released_at = now } else l

-- The two acquisitions of the lock in release_lane: the row, where it has the token, and the UPDATE, which
-- does not ask for the token again.
unfoldable pub owned : String → Option LaneLease → Option LaneLease
owned owner_token none = none
owned owner_token (some l) = if l.owner_token == owner_token then some l else none

unfoldable pub release_read : String → String → StrategicStore → Option LaneLease
unfolding owned
release_read lane_id owner_token s = owned owner_token (lease_row lane_id s.lane_lease)

unfoldable pub release_write : ℕ → String → LaneLease → StrategicStore → StrategicStore
unfolding released_lease
release_write now lane_id existing s =
    append_event (new_event "LANE_RELEASED" now "" lane_id "" existing.actor_id)
      (record s { lane_lease = map (released_lease now lane_id) s.lane_lease })

unfoldable pub release_found :
    ℕ → String → Option LaneLease → StrategicStore → StrategicStore × Bool
unfolding release_write
release_found now lane_id none s = (s, false)
release_found now lane_id (some existing) s = (release_write now lane_id existing s, true)

-- release_lane where no other call comes between the two: the store, and whether it released.
unfoldable pub release_lane : ℕ → String → String → StrategicStore → StrategicStore × Bool
unfolding release_read release_found
release_lane now lane_id owner_token s =
    release_found now lane_id (release_read lane_id owner_token s) s
