-- ===== src/Strategic/Claims/History.antt =====
-- Histories of the leases on lanes: the steps of claims, releases and writes of lane states, by anybody, in
-- any order. A step is one acquisition of the store's lock, so that other calls come in between the two
-- steps of a release, and between the guard of a fenced write and its write.
use quaestor.Base.{ℕ, String, Option, none, some, List, [], ◌∷◌, ◌==◌, if◌then◌else◌}
use quaestor.Strategic.Rows.{LaneLease, StrategicStore}
use quaestor.Strategic.Claims.{Claim, claim_lane, set_lane_state, release_read, release_write}

-- The store, and the releases that have read the row of their lane and not written yet: the lane and
-- the row that was read.
pub record System : Type 0 where
  pub store : StrategicStore
  pub releasing : List (String × LaneLease)

pub data Command : Type 0 where
  -- claim_lane: the fresh token, the lane, the claim.
  claim : String → String → Claim → Command
  -- The read of a release_lane: the lane, the token.
  release : String → String → Command
  -- The write of a release_lane of the lane whose read is done.
  finish_release : String → Command
  -- The write of a lane state whose guard, if it has one, let it through: the lane, the state, the
  -- verdict, the actor.
  write : String → String → Option String → String → Command

unfoldable pub after_read : String → Option LaneLease → System → System
after_read lane_id none sys = sys
after_read lane_id (some l) sys = record sys { releasing = (lane_id, l) ∷ sys.releasing }

-- The latest of the releases of a lane under way, and the others.
unfoldable pub take_release :
    String → List (String × LaneLease) → Option LaneLease × List (String × LaneLease)
take_release lane_id [] = (none, [])
take_release lane_id ((k, l) ∷ rest) =
    let later = take_release lane_id rest in
    if k == lane_id then (some l, rest) else (later.0, (k, l) ∷ later.1)

unfoldable pub after_write :
    ℕ → String → Option LaneLease × List (String × LaneLease) → System → System
unfolding release_write
after_write now lane_id (none, rest) sys = sys
after_write now lane_id (some l, rest) sys = record {
  store = release_write now lane_id l sys.store;
  releasing = rest;
}

-- The store after a call that may raise.
unfoldable pub kept_or_done : StrategicStore → Option StrategicStore → StrategicStore
kept_or_done s none = s
kept_or_done s (some s') = s'

unfoldable pub perform : ℕ → Command → System → System
unfolding after_read take_release after_write kept_or_done
perform now (claim token lane_id c) sys = record sys {
  store = (claim_lane now token lane_id c sys.store).0;
}
perform now (release lane_id token) sys =
    after_read lane_id (release_read lane_id token sys.store) sys
perform now (finish_release lane_id) sys =
    after_write now lane_id (take_release lane_id sys.releasing) sys
perform now (write lane_id state verdict actor_id) sys = record sys {
  store = kept_or_done sys.store (set_lane_state now lane_id state verdict actor_id sys.store);
}

-- A history, with the clock's reading at each step.
unfoldable pub run : List (ℕ × Command) → System → System
run [] sys = sys
run ((now, c) ∷ rest) sys = run rest (perform now c sys)
