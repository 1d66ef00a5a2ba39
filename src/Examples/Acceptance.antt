-- ===== src/Examples/Acceptance.antt =====
-- An accepted change.
use quaestor.Base.{String, ◌≡◌, refl, true, false, some, List, [], ◌∷◌, all, any, elem, arith, ◌⊎◌}
use quaestor.Core.Review.{
  Finding, ReviewResult, EvidenceItem, independent, keys, attested, summarize, adversarial_required,
  adversarial_required_floor,
}
use quaestor.Core.Acceptance.{accept, is_adversarial, by_reviews, by_floor, decide}
use quaestor.Core.Acceptance.Basis.{Reviewed, sensitive, acceptance_rests_on}

abbrev tests : EvidenceItem
tests = record { kind = "test_results"; value = "ok"; collector = "verifier" }

abbrev refuted : Finding
refuted = record { finding_id = "f"; severity = "HIGH"; refuted = true }

abbrev review : ReviewResult
review = record {
  review_id = "rev";
  kind = "ADVERSARIAL";
  findings = refuted ∷ [];
  inspected_count = 3;
}

on_floor : elem "deployment" adversarial_required_floor ≡ true
unfolding adversarial_required_floor
on_floor = refl

evidence_attested : attested (tests ∷ []) ≡ true
unfolding attested independent
evidence_attested = refl

evidence_complete : all (λ k. elem k (keys (tests ∷ []))) ("test_results" ∷ []) ≡ true
unfolding keys independent
evidence_complete = refl

passes_floor : (matched : List String) → by_floor matched (review ∷ []) [] false ≡ accept
unfolding by_floor by_reviews is_adversarial summarize
passes_floor [] = refl
passes_floor (c ∷ matched) = refl

accepted_here :
    decide ("deployment" ∷ []) (review ∷ []) (some (tests ∷ [])) ("test_results" ∷ []) [] [] false
    ≡ accept
unfolding decide
accepted_here = ground (
  arith,
  evidence_attested,
  evidence_complete,
  passes_floor (adversarial_required ("deployment" ∷ []) []),
)

acceptance_rests_on_example :
    (attested (tests ∷ []) ≡ true)
    × (all (λ k. elem k (keys (tests ∷ []))) ("test_results" ∷ []) ≡ true)
    × ((any (sensitive []) ("deployment" ∷ []) ≡ false)
        ⊎ Reviewed (adversarial_required ("deployment" ∷ []) []) (review ∷ []) [] false)
acceptance_rests_on_example =
    acceptance_rests_on ("deployment" ∷ []) (review ∷ []) (tests ∷ []) ("test_results" ∷ []) [] []
      false accepted_here
