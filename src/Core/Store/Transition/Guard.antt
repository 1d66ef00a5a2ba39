-- ===== src/Core/Store/Transition/Guard.antt =====
-- What the guards of Store.transition keep.
use quaestor.Base.{
  ℕ, String, ◌≡◌, ◌⊎◌, refl, ◌∙◌, ap, sym, find_sound, true, false, Option, none, some, List, [],
  ◌∷◌, arith, find, ◌==◌, eq_iff, if◌then◌else◌, Bool-cases, Option-cases, inl, inr,
}
use quaestor.Core.Domain.{can_transition, is_terminal}
use quaestor.Core.Domain.Graph.{terminal_stays_terminal, rank, rank_grows}
use quaestor.Core.Store.Rows.{Store, Attempt, get_run}
use quaestor.Core.Store.Transition.{
  Refusal, moved_on, Outcome, moved, refused, moved_row, update_run, transition, expected,
}

-- A row that is found after the update of one run.
abbrev amended : String → (Attempt → Attempt) → Option Attempt → Option Attempt
amended run_id f none = none
amended run_id f (some a) = some (if a.run_id == run_id then f a else a)

find-update_run :
    (now : ℕ) (run_id to reason other : String) (l : List Attempt)
    → find (λ a. a.run_id == other) (update_run run_id (moved_row now to reason) l)
      ≡ amended run_id (moved_row now to reason) (find (λ a. a.run_id == other) l)
unfolding update_run moved_row
find-update_run now run_id to reason other [] = refl
find-update_run now run_id to reason other (a ∷ l) =
    ground (arith, find-update_run now run_id to reason other l)

-- A transition that succeeds was expected and legal, and leaves the run in the state asked for.
succeeded :
    (now : ℕ) (run_id to : String) (expect : Option String) (reason : String) (s : Store)
    (row : Attempt)
    → (transition now run_id to expect reason s).1 ≡ moved row
    → (old : Attempt) × (get_run s run_id ≡ some old)
      × (expected expect old.execution_state ≡ true)
      × (can_transition old.execution_state to ≡ true)
      × (row ≡ moved_row now to reason old)
unfolding transition
succeeded now run_id to expect reason s row h = elim (Option-cases (get_run s run_id)) [
  | inl e ↦ ground arith
  | inr (old, e) ↦ (old, e, ground arith, ground arith, ground arith)
]

get_run-transition :
    (now : ℕ) (run_id to : String) (expect : Option String) (reason other : String) (s : Store)
    (row : Attempt)
    → (transition now run_id to expect reason s).1 ≡ moved row
    → get_run (transition now run_id to expect reason s).0 other
      ≡ amended run_id (moved_row now to reason) (get_run s other)
unfolding transition get_run
get_run-transition now run_id to expect reason other s row h =
    ground (arith, find-update_run now run_id to reason other s.attempts)

-- A refused transition changes nothing at all.
pub refused_changes_nothing :
    (now : ℕ) (run_id to : String) (expect : Option String) (reason : String) (s : Store)
    (r : Refusal)
    → (transition now run_id to expect reason s).1 ≡ refused r
    → (transition now run_id to expect reason s).0 ≡ s
unfolding transition
refused_changes_nothing now run_id to expect reason s r h = ground arith

outcome-cases :
    (o : Outcome) → ((r : Refusal) × (o ≡ refused r)) ⊎ ((row : Attempt) × (o ≡ moved row))
outcome-cases (moved row) = inr (row, refl)
outcome-cases (refused r) = inl (r, refl)

-- The row that is found under an id has it.
named :
    (s : Store) (run_id : String) (a : Attempt)
    → get_run s run_id ≡ some a
    → (a.run_id == run_id) ≡ true
unfolding get_run
named s run_id a found = find_sound (λ r. r.run_id == run_id) s.attempts found

moved_state :
    (now : ℕ) (run_id to : String) (expect : Option String) (reason : String) (s : Store)
    (row : Attempt)
    → (transition now run_id to expect reason s).1 ≡ moved row
    → (a : Attempt) × (get_run (transition now run_id to expect reason s).0 run_id ≡ some a)
      × (a.execution_state ≡ to)
moved_state now run_id to expect reason s row h =
    let (old, found, exp, legal, e) = succeeded now run_id to expect reason s row h in
    let mine = named s run_id old found in
    (
      moved_row now to reason old,
      get_run-transition now run_id to expect reason run_id s row h ∙ rw (found, mine),
      unfold moved_row in refl,
    )

no_self_loop : (s t : String) → can_transition s t ≡ true → (t == s) ≡ false
no_self_loop s t legal = elim (Bool-cases (t == s)) [
  | inl e ↦
      let same : t ≡ s = (eq_iff t s).0 e in
      absurd (omega (arith, rank_grows s t legal, ap rank same))
  | inr e ↦ e
]

refused_if_elsewhere :
    (later : ℕ) (run_id src to reason : String) (s : Store) (a : Attempt)
    → get_run s run_id ≡ some a
    → (a.execution_state == src) ≡ false
    → transition later run_id to (some src) reason s ≡ (s, refused moved_on)
unfolding transition
refused_if_elsewhere later run_id src to reason s a found other = ground arith

-- Of two writers that both expect a run in the same state, only the first to get through moves it:
-- the second is refused and changes nothing.
pub second_writer_refused :
    (now later : ℕ) (run_id src to to2 reason reason2 : String) (s : Store) (row : Attempt)
    → (transition now run_id to (some src) reason s).1 ≡ moved row
    → let s' = (transition now run_id to (some src) reason s).0 in
      transition later run_id to2 (some src) reason2 s' ≡ (s', refused moved_on)
second_writer_refused now later run_id src to to2 reason reason2 s row h =
    let (old, found, exp, legal, e) = succeeded now run_id to (some src) reason s row h in
    let (a, found', at) = moved_state now run_id to (some src) reason s row h in
    let from : old.execution_state ≡ src = (eq_iff old.execution_state src).0 exp in
    refused_if_elsewhere later run_id src to2 reason2
      (transition now run_id to (some src) reason s).0 a found'
      (rw (at, ← from) (no_self_loop old.execution_state to legal))

abbrev pub IsOver : String → Store → Type 0
IsOver run_id s =
    (a : Attempt) × (get_run s run_id ≡ some a) × (is_terminal a.execution_state ≡ true)

-- A row of a run that is over stays over, whether it is the one that moved or another.
amended_over :
    (now : ℕ) (run_id to reason other : String) (o : Option Attempt) (a : Attempt)
    → o ≡ some a
    → is_terminal a.execution_state ≡ true
    → ((a.run_id == run_id) ≡ true → can_transition a.execution_state to ≡ true)
    → (b : Attempt) × (amended run_id (moved_row now to reason) o ≡ some b)
      × (is_terminal b.execution_state ≡ true)
unfolding moved_row
amended_over now run_id to reason other o a e final legal = elim (Bool-cases (a.run_id == run_id)) [
  | inl mine ↦ (
    moved_row now to reason a,
    rw (e, mine),
    terminal_stays_terminal a.execution_state to (legal mine) final,
  )
  | inr else_row ↦ (a, rw (e, else_row), final)
]

-- What is legal for the run that is asked for is legal for a row that has its id.
legal_if_same :
    (s : Store) (run_id other to : String) (a old : Attempt)
    → get_run s other ≡ some a
    → get_run s run_id ≡ some old
    → can_transition old.execution_state to ≡ true
    → (a.run_id == run_id) ≡ true
    → can_transition a.execution_state to ≡ true
legal_if_same s run_id other to a old found found_old legal mine =
    let here : a.run_id ≡ other = (eq_iff a.run_id other).0 (named s other a found) in
    let there : a.run_id ≡ run_id = (eq_iff a.run_id run_id).0 mine in
    let same : some old ≡ some a = sym found_old ∙ ap (get_run s) (sym there ∙ here) ∙ found in
    ground (arith, same, legal)

moved_IsOver :
    (now : ℕ) (run_id to : String) (expect : Option String) (reason other : String) (s : Store)
    (row : Attempt)
    → (transition now run_id to expect reason s).1 ≡ moved row
    → IsOver other s
    → IsOver other (transition now run_id to expect reason s).0
moved_IsOver now run_id to expect reason other s row h (a, found, final) =
    let (old, found_old, exp, legal, e) = succeeded now run_id to expect reason s row h in
    let (b, eb, over) =
      amended_over now run_id to reason other (get_run s other) a found final
        (λ mine. legal_if_same s run_id other to a old found found_old legal mine) in
    (b, get_run-transition now run_id to expect reason other s row h ∙ eb, over)

pub transition-IsOver :
    (now : ℕ) (run_id to : String) (expect : Option String) (reason other : String) (s : Store)
    → IsOver other s
    → IsOver other (transition now run_id to expect reason s).0
transition-IsOver now run_id to expect reason other s over =
    elim (outcome-cases (transition now run_id to expect reason s).1) [
      | inl (r, e) ↦ rw (refused_changes_nothing now run_id to expect reason s r e) over
      | inr (row, e) ↦ moved_IsOver now run_id to expect reason other s row e over
    ]
