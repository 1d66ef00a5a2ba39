-- ===== src/Relay/Repetition.antt =====
-- relay/state.py and relay/kernel.py: the stop for a side of the relay that repeats itself.
pub mod Looped
use quaestor.Base.{
  ℕ, zero, suc, String, Bool, true, false, ◌&&◌, ◌||◌, Option, none, some, List, [], ◌∷◌, filter,
  map, length, elem, ltb, eqb, if◌then◌else◌,
}
use quaestor.Relay.Ledger.{Message, Direction, from_orchestrator, from_execution, from_relay}

-- The query of recent_digests, for the rows of one relay.
unfoldable pub is_of : Direction → Direction → Bool
is_of from_orchestrator from_orchestrator = true
is_of from_execution from_execution = true
is_of from_relay from_relay = true
is_of _ _ = false

unfoldable pub is_newer : Message → Message → Bool
is_newer m n =
    ltb n.exchange_no m.exchange_no
    || (eqb m.exchange_no n.exchange_no && ltb n.observed_at m.observed_at)

-- `ORDER BY exchange_no DESC, observed_at DESC`, equal rows in the order of insertion.
unfoldable pub insert_newest : Message → List Message → List Message
insert_newest m [] = m ∷ []
insert_newest m (x ∷ rest) =
    let inner = insert_newest m rest in if is_newer x m then x ∷ inner else m ∷ x ∷ rest

unfoldable pub newest_first : List Message → List Message
newest_first [] = []
newest_first (m ∷ rest) = insert_newest m (newest_first rest)

-- `LIMIT n`.
unfoldable pub first_rows {ℓ} : {A : Type ℓ} → ℕ → List A → List A
first_rows zero xs = []
first_rows (suc n) [] = []
first_rows (suc n) (x ∷ xs) = x ∷ first_rows n xs

unfoldable pub recent_digests : List Message → Direction → ℕ → List String
unfolding first_rows newest_first is_of
recent_digests ledger direction n =
    map (λ m. m.content_digest)
      (first_rows n (newest_first (filter (λ m. is_of direction m.direction) ledger)))

-- `set(digests)`, by the last item of each.
unfoldable pub digest_set : List String → List String
digest_set [] = []
digest_set (x ∷ xs) = let later = digest_set xs in if elem x later then later else x ∷ later

unfoldable pub loop_stop : Direction → String
loop_stop from_orchestrator = "ORCHESTRATOR_REPEATING"
loop_stop _ = "EXECUTION_REPEATING"

-- _repetition_stop; `none` is the empty text.
unfoldable pub repetition_stop : ℕ → List Message → Direction → Option String
unfolding recent_digests digest_set loop_stop
repetition_stop repeat_limit ledger direction =
    let digests = recent_digests ledger direction (suc repeat_limit) in
    if ltb (length digests) (suc repeat_limit)
    then none
    else if eqb (length (digest_set digests)) 1
    then some (loop_stop direction)
    else none
