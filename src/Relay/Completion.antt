-- ===== src/Relay/Completion.antt =====
-- relay/kernel.py, claims_completion: whether a turn claims that the objective is met.
-- The methods of `str` that follow the Unicode tables are arguments.
pub mod Claim
use quaestor.Base.{
  ℕ, Bool, true, false, not, ◌&&◌, ◌||◌, Option, none, some, List, [], ◌∷◌, any, elem, map, filter,
  contains, starts_with, strip, eqb, leb, is_some, is_empty, ◌==◌, if◌then◌else◌,
}
use Prim.Native.Char.{Char, code}
use Prim.Native.String.{String, [], ◌∷◌, ◌++◌}

pub record Unicode : Type 0 where
  pub lower : String → String
  pub is_alnum : Char → Bool
  pub splitlines : String → List String

abbrev pub completion_marker : String
completion_marker = "RELAY-OBJECTIVE-COMPLETE"

-- `c in text`.
unfoldable pub has_char : Char → String → Bool
has_char c [] = false
has_char c (d ∷ rest) = eqb (code c) (code d) || has_char c rest

abbrev pub marker_decoration : String
marker_decoration = " \t\"'`*_()[]{}<>.,:;!"

abbrev pub quotes : String
quotes = "\"'`"

abbrev pub closers : String
closers = " \t\"'`*_)]}>"

unfoldable pub negations : List String
negations =
    "not" ∷ "cannot" ∷ "unable" ∷ "never" ∷ "no" ∷ "none" ∷ "nor" ∷ "neither" ∷ "without" ∷ "refuse"
    ∷ "refuses" ∷ "refused" ∷ "refusing" ∷ "decline" ∷ "declines" ∷ "declined" ∷ "declining"
    ∷ "withhold" ∷ "withholds" ∷ "withholding" ∷ "withheld" ∷ []

unfoldable pub deferrals : List String
deferrals =
    "will" ∷ "shall" ∷ "would" ∷ "gonna" ∷ "yet" ∷ "premature" ∷ "prematurely" ∷ "pending" ∷ "defer"
    ∷ "defers" ∷ "deferring" ∷ "deferred" ∷ "before" ∷ "until" ∷ "once" ∷ "unless" ∷ "after" ∷ []

unfoldable pub utterance : List String
utterance =
    "write" ∷ "writes" ∷ "writing" ∷ "wrote" ∷ "written" ∷ "say" ∷ "says" ∷ "saying" ∷ "said"
    ∷ "state" ∷ "states" ∷ "stating" ∷ "stated" ∷ "emit" ∷ "emits" ∷ "emitting" ∷ "emitted"
    ∷ "declare" ∷ "declares" ∷ "declaring" ∷ "declared" ∷ "claim" ∷ "claims" ∷ "claiming"
    ∷ "claimed" ∷ "reply" ∷ "replies" ∷ "replying" ∷ "replied" ∷ "send" ∷ "sends" ∷ "sending"
    ∷ "sent" ∷ "output" ∷ "outputs" ∷ "print" ∷ "prints" ∷ "mark" ∷ "marks" ∷ "marking" ∷ "marked"
    ∷ []

unfoldable pub distancing : List String
distancing =
    "far from" ∷ "short of" ∷ "yet to" ∷ "instead of" ∷ "rather than" ∷ "holding back" ∷ "hold back"
    ∷ "hold off" ∷ "stop short" ∷ "stops short" ∷ []

unfoldable pub has_stop : String → Bool
unfolding has_char
has_stop [] = false
has_stop (c ∷ rest) = has_char c ".;!?" || has_stop rest

-- `re.split(r"[.;!?]", prose)[-1]`.
unfoldable pub last_clause : String → String
unfolding has_stop has_char
last_clause [] = []
last_clause (c ∷ rest) =
    let later = last_clause rest in
    if has_stop rest then later else if has_char c ".;!?" then rest else c ∷ rest

-- The characters of the pattern `[a-z][a-z'_-]*`: its first, and the others.
unfoldable pub starts_word : Char → Bool
starts_word c = leb 97 (code c) && leb (code c) 122

unfoldable pub in_word : Char → Bool
unfolding starts_word has_char
in_word c = starts_word c || has_char c "'_-"

-- A run of the pattern's characters without those before its first letter.
unfoldable pub trimmed : String → String
unfolding starts_word
trimmed [] = []
trimmed (c ∷ rest) = let later = trimmed rest in if starts_word c then c ∷ rest else later

unfoldable pub add_word : String → List String → List String
unfolding trimmed
add_word run words = if trimmed run == "" then words else trimmed run ∷ words

-- The run at the start of the text, and the words after it.
unfoldable pub runs : String → String × List String
unfolding in_word add_word
runs [] = ([], [])
runs (c ∷ rest) =
    let later = runs rest in
    if in_word c then (c ∷ later.0, later.1) else ([], add_word later.0 later.1)

-- `_WORD.findall(clause)`.
unfoldable pub words : String → List String
unfolding runs add_word
words clause = add_word (runs clause).0 (runs clause).1

unfoldable pub ends_with : String → String → Bool
ends_with part [] = part == ""
ends_with part (c ∷ rest) = (c ∷ rest) == part || ends_with part rest

unfoldable pub denies : String → Bool
unfolding negations deferrals ends_with
denies word =
    elem word negations || elem word deferrals || ends_with "n't" word || ends_with "'ll" word

-- The loop over the words: a denial that is the last word, or that a verb of uttering follows.
unfoldable pub denied : List String → Bool
unfolding denies utterance
denied [] = false
denied (word ∷ rest) =
    let later = denied rest in
    if denies word then is_empty rest || any (λ w. elem w utterance) rest || later else later

unfoldable pub denies_marker : Unicode → String → Bool
unfolding last_clause words denied distancing
denies_marker py prose =
    let clause = py.lower (last_clause prose) in
    any (λ phrase. contains phrase clause) distancing || denied (words clause)

-- The text after a part that it starts with.
unfoldable pub after_part : String → String → String
after_part text [] = text
after_part [] (d ∷ part) = []
after_part (c ∷ text) (d ∷ part) = after_part text part

-- `line[:idx]` and `line[idx + len(part):]`, for `idx = line.rfind(part)`; `none` for -1.
unfoldable pub cons_first : Char → Option (String × String) → Option (String × String)
cons_first c none = none
cons_first c (some (before, after)) = some (c ∷ before, after)

unfoldable pub split_last : String → String → Option (String × String)
unfolding cons_first after_part
split_last part [] = if part == "" then some ([], []) else none
split_last part (c ∷ rest) =
    let later = split_last part rest in
    if is_some later
    then cons_first c later
    else if starts_with (c ∷ rest) part
    then some ([], after_part (c ∷ rest) part)
    else none

-- `not text.strip(chars)`.
unfoldable pub only : String → String → Bool
unfolding has_char
only chars [] = true
only chars (c ∷ rest) = has_char c chars && only chars rest

unfoldable pub first_char : String → Option Char
first_char [] = none
first_char (c ∷ rest) = some c

unfoldable pub last_char : String → Option Char
last_char [] = none
last_char (c ∷ rest) = let later = last_char rest in if is_some later then later else some c

-- The last character that is not one of a set.
unfoldable pub last_outside : String → String → Option Char
unfolding has_char
last_outside chars [] = none
last_outside chars (c ∷ rest) =
    let later = last_outside chars rest in
    if is_some later then later else if has_char c chars then none else some c

unfoldable pub glues : Unicode → Option Char → Bool
glues py none = false
glues py (some c) = py.is_alnum c || eqb (code c) 45

unfoldable pub in_chars : Option Char → String → Bool
unfolding has_char
in_chars none chars = false
in_chars (some c) chars = has_char c chars

unfoldable pub same_char : Option Char → Option Char → Bool
same_char (some c) (some d) = eqb (code c) (code d)
same_char _ _ = false

-- `prose[-1:] in _QUOTES and tail[:1] == prose[-1:] and prose.strip(_MARKER_DECORATION)`.
unfoldable pub quoted_mention : String → String → Bool
unfolding in_chars same_char last_char first_char only
quoted_mention prose tail =
    in_chars (last_char prose) quotes
    && same_char (first_char tail) (last_char prose)
    && not (only marker_decoration prose)

-- The prose that governs the marker, with the line above.
unfoldable pub governing : String → Option String → String
unfolding only in_chars last_outside
governing prose none = prose
governing prose (some above) =
    if only marker_decoration prose && not (in_chars (last_outside closers above) ".!?")
    then above ++ " " ++ prose
    else prose

unfoldable pub claimed : Unicode → Option String → Option (String × String) → Bool
unfolding only glues last_char quoted_mention governing denies_marker
claimed py above none = false
claimed py above (some (prose, tail)) =
    if not (only marker_decoration tail)
    then false
    else if glues py (last_char prose)
    then false
    else if quoted_mention prose tail
    then false
    else not (denies_marker py (governing prose above))

-- The lines that are not blank, the last one first.
unfoldable pub reversed_onto : List String → List String → List String
reversed_onto out [] = out
reversed_onto out (l ∷ lines) = reversed_onto (l ∷ out) lines

unfoldable pub lines_back : Unicode → String → List String
unfolding reversed_onto
lines_back py text =
    reversed_onto [] (filter (λ l. not (l == "")) (map strip (py.splitlines (strip text))))

unfoldable pub claimed_by : Unicode → List String → Bool
unfolding claimed split_last
claimed_by py [] = false
claimed_by py (line ∷ []) = claimed py none (split_last completion_marker line)
claimed_by py (line ∷ above ∷ rest) = claimed py (some above) (split_last completion_marker line)

unfoldable pub claims_completion : Unicode → String → Bool
unfolding lines_back claimed_by
claims_completion py text = claimed_by py (lines_back py text)
