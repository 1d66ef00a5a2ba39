-- ===== src/Strategic/Claims/Alone.antt =====
-- A call that nothing interrupts is its steps in sequence.
use quaestor.Base.{ℕ, String, ◌≡◌, refl, [], ◌∷◌, eq_refl, Option-cases, inl, inr}
use quaestor.Strategic.Rows.{StrategicStore}
use quaestor.Strategic.Claims.{release_read, release_found, release_lane}
use quaestor.Strategic.Claims.History.{
  release, finish_release, after_read, take_release, after_write, perform, run,
}

-- A release between whose read and write no other step comes.
release_lane-run :
    (now : ℕ) (lane_id token : String) (s : StrategicStore)
    → (run
        ((now, release lane_id token) ∷ (now, finish_release lane_id) ∷ [])
        (record { store = s; releasing = [] })).store
      ≡ (release_lane now lane_id token s).0
unfolding run perform after_read take_release after_write release_lane release_found
release_lane-run now lane_id token s = elim (Option-cases (release_read lane_id token s)) [
  | inl refused ↦ rw refused refl
  | inr (l, own) ↦ rw (own, eq_refl lane_id) refl
]
