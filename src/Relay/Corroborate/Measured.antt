-- ===== src/Relay/Corroborate/Measured.antt =====
-- What a corroborated claim rests on.
use quaestor.Base.{
  ◌≡◌, refl, ◌↔◌, String, Bool, true, false, not, ◌&&◌, ◌||◌, Option, none, some, List, [], ◌∷◌,
  map, filter, any, all, is_empty, is_true, arith, ◌==◌, Bool-cases, inl, inr,
}
use quaestor.Base.Int.{is_zero}
use quaestor.Relay.Corroborate.{
  Check, Ran, exited, Project, CheckResult, unmeasured, of_run, run_argv, command_text,
  command_argv, run_check, corroborated, state_of, stated, verdict,
}

-- The program ran, and with status 0.
pub exits_zero : Ran → Bool
exits_zero (exited status) = is_zero status
exits_zero _ = false

pub argv_exits_zero : Project → Option (List String) → Bool
argv_exits_zero p none = false
argv_exits_zero p (some args) = not (is_empty args) && exits_zero (p.run args)

-- The check has a command and a directory to run it in, and the command ran with status 0.
pub passes : Project → Check → Bool
passes p c =
    not (command_text p c == "") && (p.is_directory && argv_exits_zero p (command_argv p c))

of_run-ok :
    (r : Ran) → ((of_run r).ok ≡ exits_zero r) × (exits_zero r ≡ true → (of_run r).measured ≡ true)
unfolding of_run exits_zero unmeasured
of_run-ok (exited status) = (refl, λ h. refl)
of_run-ok Ran.not_found = (refl, λ h. absurd (ground (arith, h)))
of_run-ok Ran.timed_out = (refl, λ h. absurd (ground (arith, h)))
of_run-ok Ran.failed_to_run = (refl, λ h. absurd (ground (arith, h)))

run_argv-ok :
    (p : Project) (args : Option (List String))
    → ((run_argv p args).ok ≡ argv_exits_zero p args)
      × (argv_exits_zero p args ≡ true → (run_argv p args).measured ≡ true)
unfolding run_argv argv_exits_zero unmeasured
run_argv-ok p none = (refl, λ h. absurd (ground (arith, h)))
run_argv-ok p (some args) = elim (Bool-cases (is_empty args)) [
  | inl nothing ↦ rw nothing (refl, λ h. absurd (ground (arith, h)))
  | inr some_words ↦ rw some_words (of_run-ok (p.run args))
]

run_check-ok :
    (p : Project) (c : Check)
    → ((run_check p c).ok ≡ passes p c) × (passes p c ≡ true → (run_check p c).measured ≡ true)
unfolding run_check passes unmeasured argv_exits_zero
run_check-ok p c = elim (Bool-cases (command_text p c == "")) [
  | inl blank ↦ rw blank (refl, λ h. absurd (ground (arith, h)))
  | inr said ↦ elim (Bool-cases p.is_directory) [
    | inr nowhere ↦ rw (said, nowhere) (refl, λ h. absurd (ground (arith, h)))
    | inl there ↦ rw (said, there) (run_argv-ok p (command_argv p c))
  ]
]

checks-ok :
    (p : Project) (l : List Check)
    → (all (λ r. r.ok) (map (run_check p) l) ≡ all (passes p) l)
      × (all (passes p) l ≡ true → any (λ r. not r.measured) (map (run_check p) l) ≡ false)
checks-ok p [] = (refl, λ h. refl)
checks-ok p (c ∷ l) = (
  ground (arith, run_check-ok p c, checks-ok p l),
  λ h. ground (arith, run_check-ok p c, checks-ok p l, h),
)

is_empty-map : (p : Project) (l : List Check) → is_empty (map (run_check p) l) ≡ is_empty l
is_empty-map p [] = refl
is_empty-map p (c ∷ l) = refl

state_iff :
    (results : List CheckResult) (required : Bool) (changed : Option Bool)
    → (state_of results required changed ≡ corroborated) ↔ (
        ((not (is_empty results) || required) ≡ true)
        × (any (λ r. not r.measured) results ≡ false)
        × (all (λ r. r.ok) results ≡ true)
        × ((not required || is_true changed) ≡ true))
unfolding state_of
state_iff results required none = (λ h. ground (arith, h), λ h. ground (arith, h))
state_iff results required (some b) = (λ h. ground (arith, h), λ h. ground (arith, h))

-- A claim is corroborated exactly when a check is stated or a change of the repository is required,
-- every stated check ran in the project with status 0, and a required change was seen.
pub corroborated_iff_measured :
    (p : Project) (shown : List String → String) (checks : List Check) (required : Bool)
    (changed : Option Bool)
    → (verdict p shown checks required changed ≡ corroborated) ↔ (
        ((not (is_empty (filter (stated shown) checks)) || required) ≡ true)
        × (all (passes p) (filter (stated shown) checks) ≡ true)
        × ((not required || is_true changed) ≡ true))
unfolding verdict
corroborated_iff_measured p shown checks required changed =
    let l = filter (stated shown) checks in
    let iff = state_iff (map (run_check p) l) required changed in
    let ok = checks-ok p l in
    let same = is_empty-map p l in
    (
      λ h.
          let (asked, measured, all_ok, seen) = iff.0 h in
          (ground (arith, asked, same), ground (arith, all_ok, ok), seen),
      λ h.
          let (asked, passing, seen) = h in
          iff.1 (ground (arith, asked, same), ok.1 passing, ground (arith, passing, ok), seen),
    )
