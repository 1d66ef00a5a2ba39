-- ===== src/Core/Acceptance.antt =====
-- core/acceptance.py: may a candidate be accepted? Counts and texts of a verdict are left out.
pub mod Basis
use quaestor.Base.{
  String, Bool, true, false, not, ◌&&◌, Option, none, some, List, [], ◌∷◌, all, elem, filter,
  is_empty, length, ltb, strip, ◌==◌, if◌then◌else◌,
}
use quaestor.Core.Review.{
  EvidenceItem, keys, attested, ReviewResult, ReviewOutcome, accepted, rejected, inconclusive,
  vacuous, summarize, adversarial_required,
}

pub record Waiver : Type 0 where
  pub change_class : String
  pub granted_by_role : String
  pub rationale : String
  pub decision_ref : String

-- Waiver.valid.
unfoldable pub valid : Waiver → Bool
valid w =
    w.granted_by_role == "OWNER" && not (strip w.rationale == "") && not (w.decision_ref == "")

pub data Reason : Type 0 where
  evidence_unattested evidence_missing : Reason
  waiver_unattested waiver_unauthorized : Reason
  review_missing review_vacuous review_not_accepted : Reason

pub data AcceptanceVerdict : Type 0 where
  accept : AcceptanceVerdict
  refuse : Reason → AcceptanceVerdict

unfoldable pub is_adversarial : ReviewResult → Bool
is_adversarial r = r.kind == "ADVERSARIAL"

unfoldable pub live : List String → Bool → Waiver → Bool
live matched owner_attestation w = valid w && elem w.change_class matched && owner_attestation

-- The branch without an adversarial review.
unfoldable pub by_waivers : List String → List Waiver → Bool → AcceptanceVerdict
by_waivers matched waivers owner_attestation =
    let bad = filter (λ w. not (valid w)) waivers in
    if not (is_empty waivers) && is_empty bad && not owner_attestation
    then refuse waiver_unattested
    else if not (is_empty bad)
    then refuse waiver_unauthorized
    else if ltb (length (filter (live matched owner_attestation) waivers)) (length matched)
    then refuse review_missing
    else accept

-- The loop over the adversarial reviews.
unfoldable pub by_reviews : List ReviewResult → AcceptanceVerdict
by_reviews [] = accept
by_reviews (r ∷ rest) =
    let later = by_reviews rest in
    elim (summarize r) [
      | accepted ↦ later
      | vacuous ↦ refuse review_vacuous
      | rejected ↦ refuse review_not_accepted
      | inconclusive ↦ refuse review_not_accepted
    ]

unfoldable pub by_floor : List String → List ReviewResult → List Waiver → Bool → AcceptanceVerdict
by_floor matched reviews waivers owner_attestation =
    let adversarial = filter is_adversarial reviews in
    if is_empty matched
    then accept
    else if is_empty adversarial
    then by_waivers matched waivers owner_attestation
    else by_reviews adversarial

-- decide, of the change's classes, the reviews, the evidence (`none` where it is no EvidenceBundle),
-- the required evidence, the waivers, the policy's `required_for` and the owner's attestation.
unfoldable pub decide :
    List String
    → List ReviewResult
    → Option (List EvidenceItem)
    → List String
    → List Waiver
    → List String
    → Bool
    → AcceptanceVerdict
decide classes reviews none required waivers extra owner_attestation = refuse evidence_unattested
decide classes reviews (some items) required waivers extra owner_attestation =
    if not (attested items)
    then refuse evidence_unattested
    else if not (all (λ k. elem k (keys items)) required)
    then refuse evidence_missing
    else by_floor (adversarial_required classes extra) reviews waivers owner_attestation
