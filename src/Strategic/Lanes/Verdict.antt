-- ===== src/Strategic/Lanes/Verdict.antt =====
-- What the outcome of a program says of its lanes (core/programs.py, aggregate).
use quaestor.Base.{
  ◌≡◌, refl, sym, ◌↔◌, Bool, true, false, not, ◌&&◌, ◌||◌, List, [], ◌∷◌, all, any, is_empty,
  filter, arith, String, ◌==◌, eq_iff, elem, all-elem, if◌then◌else◌, not-is_empty-filter,
  any-filter, any-not, any_excluded,
}
use quaestor.Strategic.Lanes.{
  Lane, NextAuthority, next_none, next_owner, next_strategist, pass, fail, not_evaluated,
  waiting_for_owner, waiting, terminal, waiting_states, terminal_lane_states, failed, verdict_of,
  aggregate,
}

-- The branches of verdict_of by the tests on the lanes.
by_tests : Bool → Bool → Bool → Bool → Bool → Bool → String × NextAuthority
by_tests empty some_failed some_waiting owner_waits some_open all_pass =
    if empty
    then (not_evaluated, next_strategist)
    else if some_failed
    then (fail, next_strategist)
    else if some_waiting
    then (not_evaluated, if owner_waits then next_owner else next_strategist)
    else if some_open
    then (not_evaluated, next_strategist)
    else if all_pass
    then (pass, next_none)
    else (not_evaluated, next_strategist)

verdict_of-by_tests :
    (lanes : List Lane)
    → verdict_of lanes
      ≡ by_tests
          (is_empty lanes)
          (any failed lanes)
          (any waiting lanes)
          (any (λ l. waiting l && l.state == waiting_for_owner) lanes)
          (not (all terminal lanes))
          (all (λ l. l.verdict == pass) lanes)
unfolding by_tests verdict_of
verdict_of-by_tests lanes =
    rw
      (
        sym (not-is_empty-filter failed lanes),
        sym (not-is_empty-filter waiting lanes),
        sym (any-filter (λ l. l.state == waiting_for_owner) waiting lanes),
        sym (not-is_empty-filter (λ l. l.state == waiting_for_owner) (filter waiting lanes)),
        sym (any-not terminal lanes),
        sym (not-is_empty-filter (λ l. not (terminal l)) lanes),
      )
      refl

terminal_not_waiting : (l : Lane) → terminal l ≡ true → waiting l ≡ false
unfolding terminal waiting waiting_states terminal_lane_states
terminal_not_waiting l h =
    ground (arith, all-elem (λ s. not (elem s waiting_states)) l.state terminal_lane_states refl h)

pass_not_failed : (l : Lane) → (l.verdict == pass) ≡ true → failed l ≡ false
unfolding failed
pass_not_failed l h = ground (arith, all-elem (λ s. not (s == fail)) l.verdict (pass ∷ []) refl)

passed_by_tests :
    (empty f w o p a : Bool)
    → ((by_tests empty f w o p a).0 ≡ pass)
      ↔ ((empty ≡ false) × (f ≡ false) × (w ≡ false) × (p ≡ false) × (a ≡ true))
unfolding by_tests
passed_by_tests empty f w o p a =
    (λ h. ground (arith, eq_iff not_evaluated pass, eq_iff fail pass), λ h. ground arith)

asked_by_tests :
    (empty f w o p a : Bool)
    → ((by_tests empty f w o p a).1 ≡ next_owner)
      ↔ ((empty ≡ false) × (f ≡ false) × (w ≡ true) × (o ≡ true))
unfolding by_tests
asked_by_tests empty f w o p a = (λ h. ground arith, λ h. ground arith)

-- The verdict by the code's own tests; an abandoned lane is terminal.
passes_by_lanes :
    (lanes : List Lane)
    → ((aggregate lanes).program_verdict ≡ pass) ↔ (
        (is_empty lanes ≡ false)
        × (all terminal lanes ≡ true)
        × (all (λ l. l.verdict == pass) lanes ≡ true))
unfolding aggregate
passes_by_lanes lanes =
    let tests =
      passed_by_tests (is_empty lanes) (any failed lanes) (any waiting lanes)
        (any (λ l. waiting l && l.state == waiting_for_owner) lanes) (not (all terminal lanes))
        (all (λ l. l.verdict == pass) lanes) in
    rw (verdict_of-by_tests lanes) (
      λ h.
          let (some_lane, f, w, left, passed) = tests.0 h in
          (some_lane, ground (arith, left), passed),
      λ h.
          let (some_lane, closed, passed) = h in
          tests.1 (
            some_lane,
            any_excluded failed (λ l. l.verdict == pass) lanes pass_not_failed passed,
            any_excluded waiting terminal lanes terminal_not_waiting closed,
            ground (arith, closed),
            passed,
          ),
    )

-- A lane that is complete and passed.
abbrev pub is_passed : Lane → Bool
is_passed l = l.state == "COMPLETE" && l.verdict == pass

abbrev pub is_abandoned : Lane → Bool
is_abandoned l = l.state == "ABANDONED"

terminal_cases : (l : Lane) → terminal l ≡ (l.state == "COMPLETE" || is_abandoned l)
unfolding terminal terminal_lane_states
terminal_cases l = ground arith

passed_lanes :
    (lanes : List Lane)
    → any is_abandoned lanes ≡ false
    → (all terminal lanes && all (λ l. l.verdict == pass) lanes) ≡ all is_passed lanes
passed_lanes [] none_left = refl
passed_lanes (l ∷ lanes) none_left = ground (arith, none_left, terminal_cases l, passed_lanes lanes)

-- A program none of whose lanes is abandoned passes exactly when it has a lane and all lanes are
-- COMPLETE and PASS.
pub passes_iff :
    (lanes : List Lane)
    → any is_abandoned lanes ≡ false
    → ((aggregate lanes).program_verdict ≡ pass)
      ↔ ((is_empty lanes ≡ false) × (all is_passed lanes ≡ true))
passes_iff lanes none_left =
    let tests = passes_by_lanes lanes in
    let same = passed_lanes lanes none_left in
    (
      λ h.
          let (some_lane, closed, passed) = tests.0 h in
          (some_lane, ground (arith, same, closed, passed)),
      λ h.
          let (some_lane, passed) = h in
          tests.1 (some_lane, ground (arith, same, passed), ground (arith, same, passed)),
    )

owner_wait-waiting : (l : Lane) → (l.state == waiting_for_owner) ≡ true → waiting l ≡ true
unfolding waiting waiting_states
owner_wait-waiting l h = ground (arith, h)

waits_for_owner :
    (lanes : List Lane)
    → any (λ l. waiting l && l.state == waiting_for_owner) lanes
      ≡ any (λ l. l.state == waiting_for_owner) lanes
waits_for_owner [] = refl
waits_for_owner (l ∷ lanes) = ground (arith, waits_for_owner lanes, owner_wait-waiting l)

some_waiting :
    (lanes : List Lane)
    → any (λ l. l.state == waiting_for_owner) lanes ≡ true
    → (is_empty lanes ≡ false) × (any waiting lanes ≡ true)
some_waiting [] h = absurd (ground arith)
some_waiting (l ∷ lanes) h = (refl, ground (arith, some_waiting lanes, owner_wait-waiting l))

-- A program's next step is the owner's exactly when no lane has failed and some lane waits for the
-- owner.
pub asks_owner_iff :
    (lanes : List Lane)
    → ((aggregate lanes).next_authority ≡ next_owner)
      ↔ ((any failed lanes ≡ false) × (any (λ l. l.state == waiting_for_owner) lanes ≡ true))
unfolding aggregate
asks_owner_iff lanes =
    let tests =
      asked_by_tests (is_empty lanes) (any failed lanes) (any waiting lanes)
        (any (λ l. waiting l && l.state == waiting_for_owner) lanes) (not (all terminal lanes))
        (all (λ l. l.verdict == pass) lanes) in
    rw (verdict_of-by_tests lanes) (
      λ h. ground (arith, tests.0 h, waits_for_owner lanes),
      λ h. ground (arith, tests.1, h, waits_for_owner lanes, some_waiting lanes),
    )
