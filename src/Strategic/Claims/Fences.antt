-- ===== src/Strategic/Claims/Fences.antt =====
-- Fences only grow, and an older one is refused.
use quaestor.Base.{
  ℕ, ◌≤◌, ◌<◌, ◌≡◌, refl, String, false, Option, none, some, List, [], ◌∷◌, map, elem, arith,
  Bool-cases, Option-cases, inl, inr,
}
use quaestor.Strategic.Lanes.{lane_states}
use quaestor.Strategic.Rows.{LaneLease, StrategicStore, lease_row}
use quaestor.Strategic.Claims.{
  Claim, written, check_fence, claim_lane, guard_fence, set_lane_state, set_lane_state_fenced,
  released_lease, release_read, release_write,
}
use quaestor.Strategic.Claims.Branches.{
  Written, fence_of, fence_of-lease_row, upsert-fence_of, claim_cases,
}
use quaestor.Strategic.Claims.History.{
  System, Command, claim, release, finish_release, write, after_read, take_release, after_write,
  kept_or_done, perform, run,
}

-- The lease that a claim returns, its own or the holder's, is the row of the lane afterwards.
pub returned_is_stored :
    (now : ℕ) (token lane_id : String) (c : Claim) (s : StrategicStore)
    → lease_row lane_id (claim_lane now token lane_id c s).0.lane_lease
      ≡ some (claim_lane now token lane_id c s).1.1
unfolding Written written
returned_is_stored now token lane_id c s = elim (claim_cases now token lane_id c s) [
  | inl (l, e, at) ↦ rw e at
  | inr (row, o, e, mine, le, at) ↦ rw e at
]

claim-fence_of :
    (now : ℕ) (token lane_id : String) (c : Claim) (k : String) (s : StrategicStore)
    → fence_of k s.lane_lease ≤ fence_of k (claim_lane now token lane_id c s).0.lane_lease
unfolding Written written
claim-fence_of now token lane_id c k s = elim (claim_cases now token lane_id c s) [
  | inl (l, e, at) ↦ rw e (omega arith)
  | inr (row, o, e, mine, le, at) ↦ rw e (upsert-fence_of row k s.lane_lease (rw mine le))
]

released-fence_of :
    (now : ℕ) (lane_id k : String) (rows : List LaneLease)
    → fence_of k (map (released_lease now lane_id) rows) ≡ fence_of k rows
unfolding fence_of released_lease
released-fence_of now lane_id k [] = refl
released-fence_of now lane_id k (row ∷ rows) = ground (arith, released-fence_of now lane_id k rows)

release_write-fence_of :
    (now : ℕ) (lane_id k : String) (l : LaneLease) (s : StrategicStore)
    → fence_of k (release_write now lane_id l s).lane_lease ≡ fence_of k s.lane_lease
unfolding release_write
release_write-fence_of now lane_id k l s = released-fence_of now lane_id k s.lane_lease

after_write-fence_of :
    (now : ℕ) (lane_id k : String) (taken : Option LaneLease × List (String × LaneLease))
    (sys : System)
    → fence_of k (after_write now lane_id taken sys).store.lane_lease
      ≡ fence_of k sys.store.lane_lease
unfolding after_write
after_write-fence_of now lane_id k (none, rest) sys = refl
after_write-fence_of now lane_id k (some l, rest) sys =
    release_write-fence_of now lane_id k l sys.store

pub store-after_read :
    (lane_id : String) (found : Option LaneLease) (sys : System)
    → (after_read lane_id found sys).store ≡ sys.store
unfolding after_read
store-after_read lane_id none sys = refl
store-after_read lane_id (some l) sys = refl

pub write-lane_lease :
    (now : ℕ) (lane_id state : String) (verdict : Option String) (actor : String)
    (s : StrategicStore)
    → (kept_or_done s (set_lane_state now lane_id state verdict actor s)).lane_lease ≡ s.lane_lease
unfolding kept_or_done set_lane_state
write-lane_lease now lane_id state verdict actor s = elim (Bool-cases (elem state lane_states)) [
  | inl known ↦ rw known refl
  | inr unknown ↦ rw unknown refl
]

perform-fence_of :
    (now : ℕ) (cmd : Command) (k : String) (sys : System)
    → fence_of k sys.store.lane_lease ≤ fence_of k (perform now cmd sys).store.lane_lease
unfolding perform
perform-fence_of now (claim token lane_id c) k sys = claim-fence_of now token lane_id c k sys.store
perform-fence_of now (release lane_id token) k sys =
    rw (store-after_read lane_id (release_read lane_id token sys.store) sys) (omega arith)
perform-fence_of now (finish_release lane_id) k sys =
    omega (arith, after_write-fence_of now lane_id k (take_release lane_id sys.releasing) sys)
perform-fence_of now (write lane_id state verdict actor) k sys =
    rw (write-lane_lease now lane_id state verdict actor sys.store) (omega arith)

run-fence_of :
    (h : List (ℕ × Command)) (k : String) (sys : System)
    → fence_of k sys.store.lane_lease ≤ fence_of k (run h sys).store.lane_lease
unfolding run
run-fence_of [] k sys = omega arith
run-fence_of ((now, cmd) ∷ rest) k sys =
    omega (arith, perform-fence_of now cmd k sys, run-fence_of rest k (perform now cmd sys))

guard-fence_of :
    (k : String) (presented : ℕ) (s : StrategicStore)
    → presented < fence_of k s.lane_lease
    → guard_fence k presented s ≡ false
unfolding guard_fence check_fence
guard-fence_of k presented s old = elim (Option-cases (lease_row k s.lane_lease)) [
  | inl free ↦ rw free refl
  | inr (l, at) ↦ rw at (ground (arith, fence_of-lease_row k s.lane_lease l at))
]

-- Once a claim on a lane has returned a lease, a fenced write that begins later with an older fence is
-- refused and changes nothing, whatever steps of claims, of releases and of writes, begun before or
-- after, come in between.
pub superseded_fence_refused :
    (now : ℕ) (token lane_id : String) (c : Claim) (sys : System) (later : List (ℕ × Command))
    (at : ℕ) (state : String) (presented : ℕ) (verdict : Option String) (actor : String)
    → presented < ((claim_lane now token lane_id c sys.store).1.1).fence
    → let after = run later (perform now (claim token lane_id c) sys) in
      set_lane_state_fenced at lane_id state presented verdict actor after.store
      ≡ some (after.store, false)
unfolding set_lane_state_fenced perform
superseded_fence_refused now token lane_id c sys later at state presented verdict actor old =
    let claimed = perform now (claim token lane_id c) sys in
    let stored = returned_is_stored now token lane_id c sys.store in
    let known =
      fence_of-lease_row lane_id claimed.store.lane_lease
        (claim_lane now token lane_id c sys.store).1.1 stored in
    rw
      (guard-fence_of lane_id presented (run later claimed).store
        (omega (arith, old, known, run-fence_of later lane_id claimed)))
      refl
