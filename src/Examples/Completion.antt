-- ===== src/Examples/Completion.antt =====
-- A turn that claims completion.
use quaestor.Base.{◌≡◌, refl, true, false, List, [], ◌∷◌, head?, strip, starts_with, contains}
use Prim.Native.String.{String}
use quaestor.Relay.Completion.{
  Unicode, lines_back, claims_completion, reversed_onto, claimed_by, claimed, split_last,
  cons_first, after_part, only, has_char, glues, last_char, quoted_mention, in_chars, same_char,
  first_char, governing, last_outside, denies_marker, last_clause, has_stop, words, runs, in_word,
  starts_word, add_word, trimmed, denied, denies, negations, deferrals, utterance, distancing,
  ends_with,
}
use quaestor.Relay.Completion.Claim.{Says, claim-Says}

abbrev ascii : Unicode
ascii = record {
  lower = λ s. s;
  is_alnum = λ c. false;
  splitlines = λ s. "all tests pass." ∷ "RELAY-OBJECTIVE-COMPLETE" ∷ [];
}

abbrev turn : String
turn = "all tests pass.\nRELAY-OBJECTIVE-COMPLETE"

turn_claims : claims_completion ascii turn ≡ true
unfolding lines_back claims_completion reversed_onto claimed_by claimed split_last cons_first
    after_part only has_char glues last_char quoted_mention in_chars same_char first_char governing
    last_outside denies_marker last_clause has_stop words runs in_word starts_word add_word trimmed
    denied denies negations deferrals utterance distancing ends_with strip starts_with contains
turn_claims = refl

claim-Says_example :
    (line : String) × (rest : List String) × (lines_back ascii turn ≡ line ∷ rest)
    × Says ascii line (head? rest)
claim-Says_example = claim-Says ascii turn turn_claims
