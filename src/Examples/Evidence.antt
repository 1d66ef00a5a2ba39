-- ===== src/Examples/Evidence.antt =====
-- A floor, a claimed assurance level, a corroborated claim and a reply at concrete inputs.
use quaestor.Base.{
  ℕ, ◌≤◌, String, Bool, Option, ◌≡◌, ◌↔◌, refl, true, false, not, ◌||◌, some, List, [], ◌∷◌, filter,
  is_empty, is_true, all, ltb,
}
use quaestor.Base.Int.{pos}
use quaestor.Evidence.Floors.{
  Python, FloorDerivation, floor_met, lt, adjudicate, revision_tree_floor,
}
use quaestor.Evidence.Floors.Met.{sound, met_iff}
use quaestor.Adapters.Assurance.{Level, managed, level_named, index, compute_assurance}
use quaestor.Adapters.Assurance.Ladder.{proven, height}
use quaestor.Adapters.Assurance.Proof.{accepted_iff_proven}
use quaestor.Relay.Corroborate.{Check, argv, exited, Project, corroborated, stated, verdict}
use quaestor.Relay.Corroborate.Measured.{passes, corroborated_iff_measured}
use quaestor.Relay.Receive.{
  Attempt, returned, probe_ok, execution, stopped, incomplete_stop, tries_of, take_turn,
}
use quaestor.Relay.Receive.Bounded.{well_ended, all_retried, reading_ends, gives_up_iff}

abbrev lower_case : Python
lower_case = record { lower = λ s. s; shown = λ s. s }

abbrev tree : FloorDerivation
tree = revision_tree_floor lower_case 10 2 "abc"

met_iff_example : (adjudicate lower_case (some tree) (some (pos 9)) "abc" ≡ floor_met) ↔ (
    (d : FloorDerivation) × (some tree ≡ some d)
    × (sound lower_case d "abc" ≡ true)
    × ((n : ℕ) × (some (pos 9) ≡ some (pos n)) × (1 ≤ n) × (lt (pos n) d.floor_value ≡ false)))
met_iff_example = met_iff lower_case (some tree) (some (pos 9)) "abc"

abbrev probes : List (String × Bool)
probes =
    ("observe_probe", true)
    ∷ ("roundtrip", true)
    ∷ ("message_id_preserved", true)
    ∷ ("cancel_works", false)
    ∷ []

managed_named : level_named "MANAGED" ≡ some managed
unfolding level_named
managed_named = refl

accepted_iff_proven_example :
    (r : Option Level × List (Level × List String)) × (compute_assurance probes "MANAGED" ≡ some r)
    × (is_empty r.1 ≡ proven probes managed)
    × ((l : Level) → proven probes l ≡ ltb (index l) (height r.0))
accepted_iff_proven_example = accepted_iff_proven probes "MANAGED" managed managed_named

abbrev project : Project
project = record {
  is_directory = true;
  shlex_split = λ s. some (s ∷ []);
  joined = λ args. "pytest";
  run = λ args. exited (pos 0);
}

abbrev checks : List Check
checks = argv ("pytest" ∷ []) ∷ []

corroborated_iff_measured_example :
    (verdict project (λ args. "['pytest']") checks true (some true) ≡ corroborated) ↔ (
      ((not (is_empty (filter (stated (λ args. "['pytest']")) checks)) || true) ≡ true)
      × (all (passes project) (filter (stated (λ args. "['pytest']")) checks) ≡ true)
      × ((not true || is_true (some true)) ≡ true))
corroborated_iff_measured_example =
    corroborated_iff_measured project (λ args. "['pytest']") checks true (some true)

-- An endpoint that never finishes a turn.
abbrev partial : ℕ → Attempt
partial attempt = record {
  receive = returned (some (record { message_id = "m"; complete = false }));
  usable = returned true;
  probe = returned probe_ok;
}

reading_ends_example :
    (well_ended (take_turn execution true (pos 2) partial).outcome ≡ true)
    × (1 ≤ (take_turn execution true (pos 2) partial).reads)
    × ((take_turn execution true (pos 2) partial).reads ≤ tries_of (pos 2))
reading_ends_example = reading_ends execution true (pos 2) partial

gives_up_iff_example :
    ((take_turn execution true (pos 2) partial).outcome
      ≡ stopped (incomplete_stop execution) "PAUSED")
    ↔ (all_retried execution true partial (tries_of (pos 2)) 1 ≡ true)
gives_up_iff_example = gives_up_iff execution true (pos 2) partial
