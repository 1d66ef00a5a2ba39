-- ===== src/Relay/Corroborate.antt =====
-- relay/corroborate.py: a claim that the work is complete, measured by commands run in the project.
-- The texts kept for a reader (output, errors, reasons) and the times are left out.
pub mod Measured
use quaestor.Base.{
  ℕ, String, Bool, true, false, not, ◌&&◌, ◌||◌, Option, none, some, List, [], ◌∷◌, map, filter,
  any, all, is_empty, is_some, is_true, eqb, ◌==◌, if◌then◌else◌, strip,
}
use quaestor.Base.Int.{ℤ, is_zero}
use Prim.Native.Char.{Char, code}
use Prim.Native.String.{[], ◌∷◌}

-- A command as an operator gives it: a text or an argument list.
pub data Check : Type 0 where
  text : String → Check
  argv : List String → Check

-- What running a program in the project comes to.
pub data Ran : Type 0 where
  not_found timed_out failed_to_run : Ran
  exited : ℤ → Ran

-- What is outside: whether the project root is a directory, `shlex.split(cmd, posix=False)` (`none`
-- is a ValueError), `" ".join`, and subprocess.run.
pub record Project : Type 0 where
  pub is_directory : Bool
  pub shlex_split : String → Option (List String)
  pub joined : List String → String
  pub run : List String → Ran

pub record CheckResult : Type 0 where
  pub ok : Bool
  pub measured : Bool
  pub exit_code : Option ℤ

-- The dictionary that a check starts with.
unfoldable pub unmeasured : CheckResult
unmeasured = record { ok = false; measured = false; exit_code = none }

unfoldable pub is_quote : Char → Bool
is_quote c = eqb (code c) 39 || eqb (code c) 34

-- The text after a first character, without its last one where that is the first character again.
unfoldable pub ends_with_char : Char → String → Bool
ends_with_char c [] = false
ends_with_char c (d ∷ []) = eqb (code c) (code d)
ends_with_char c (d ∷ e ∷ rest) = ends_with_char c (e ∷ rest)

unfoldable pub without_last : String → String
without_last [] = []
without_last (d ∷ []) = []
without_last (d ∷ e ∷ rest) = d ∷ without_last (e ∷ rest)

-- The loop of _split: a token in matching quotes loses them.
unfoldable pub unquoted : String → String
unfolding is_quote ends_with_char without_last
unquoted [] = []
unquoted (c ∷ rest) = if is_quote c && ends_with_char c rest then without_last rest else c ∷ rest

unfoldable pub unquote_all : Option (List String) → Option (List String)
unfolding unquoted
unquote_all none = none
unquote_all (some tokens) = some (map unquoted tokens)

unfoldable pub split : Project → String → Option (List String)
unfolding unquote_all
split p cmd = unquote_all (p.shlex_split cmd)

unfoldable pub of_run : Ran → CheckResult
unfolding unmeasured
of_run (exited status) = record { ok = is_zero status; measured = true; exit_code = some status }
of_run _ = unmeasured

unfoldable pub run_argv : Project → Option (List String) → CheckResult
unfolding of_run unmeasured
run_argv p none = unmeasured
run_argv p (some args) = if is_empty args then unmeasured else of_run (p.run args)

-- The text and the argument list that a check comes to: a list is used without its empty words.
unfoldable pub words : List String → List String
words args = filter (λ a. not (a == "")) args

unfoldable pub command_text : Project → Check → String
unfolding words
command_text p (text s) = strip s
command_text p (argv args) = p.joined (words args)

unfoldable pub command_argv : Project → Check → Option (List String)
unfolding split words
command_argv p (text s) = split p (strip s)
command_argv p (argv args) = some (words args)

unfoldable pub run_check : Project → Check → CheckResult
unfolding command_text command_argv run_argv unmeasured
run_check p c =
    if command_text p c == ""
    then unmeasured
    else if not p.is_directory
    then unmeasured
    else run_argv p (command_argv p c)

pub data VerdictState : Type 0 where
  corroborated refuted unconfigured unmeasurable : VerdictState

-- verdict, of the results of the checks. A repo_changed that was not read is `none`.
unfoldable pub state_of : List CheckResult → Bool → Option Bool → VerdictState
state_of results required changed =
    if not (not (is_empty results) || required)
    then unconfigured
    else if any (λ r. not r.measured) results || (required && not (is_some changed))
    then unmeasurable
    else if all (λ r. r.ok) results && (not required || is_true changed)
    then corroborated
    else refuted

-- `str(c or "").strip()`, which keeps a check; `shown` is the text of a list.
unfoldable pub stated : (List String → String) → Check → Bool
stated shown (text s) = not (strip s == "")
stated shown (argv args) = not (is_empty args) && not (strip (shown args) == "")

unfoldable pub verdict :
    Project → (List String → String) → List Check → Bool → Option Bool → VerdictState
unfolding state_of stated run_check
verdict p shown checks required changed =
    state_of (map (run_check p) (filter (stated shown) checks)) required changed
