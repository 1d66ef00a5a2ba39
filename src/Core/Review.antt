-- ===== src/Core/Review.antt =====
-- core/review_contract.py and core/evidence_ref.py: which changes need an adversarial review, what a
-- review comes to, and which evidence was collected independently. A negative count of inspected
-- things is vacuous as 0 is, so counts are natural numbers.
use quaestor.Base.{
  ℕ, String, Bool, false, not, ◌||◌, List, [], ◌∷◌, elem, filter, is_empty, map, sorted_set, eqb,
  ◌==◌, if◌then◌else◌,
}

-- ADVERSARIAL_REQUIRED_FLOOR.
unfoldable pub adversarial_required_floor : List String
adversarial_required_floor =
    "security_sensitive" ∷ "authentication" ∷ "authority_change" ∷ "sandbox_change" ∷ "deployment"
    ∷ "destructive_capability" ∷ []

-- adversarial_required, of the change's classes and the policy's `required_for`: what matched.
unfoldable pub adversarial_required : List String → List String → List String
adversarial_required change_classes extra =
    filter (λ c. elem c adversarial_required_floor || elem c extra) (sorted_set change_classes)

pub record Finding : Type 0 where
  pub finding_id : String
  pub severity : String
  pub refuted : Bool

pub record ReviewResult : Type 0 where
  pub review_id : String
  pub kind : String
  pub findings : List Finding
  pub inspected_count : ℕ

pub data ReviewOutcome : Type 0 where
  accepted rejected inconclusive vacuous : ReviewOutcome

abbrev pub survives : Finding → Bool
survives f = not f.refuted

abbrev is_blocking : Finding → Bool
is_blocking f = f.severity == "CRITICAL" || f.severity == "HIGH"

-- The outcome of summarize.
unfoldable pub summarize : ReviewResult → ReviewOutcome
summarize r =
    let surviving = filter survives r.findings in
    if eqb r.inspected_count 0
    then vacuous
    else if not (is_empty (filter is_blocking surviving))
    then rejected
    else if not (is_empty surviving)
    then inconclusive
    else accepted

pub record EvidenceItem : Type 0 where
  pub kind : String
  pub value : String
  pub collector : String

-- EvidenceItem.independent.
unfoldable pub independent : EvidenceItem → Bool
independent i = elem i.collector ("verifier" ∷ "harness" ∷ [])

-- EvidenceBundle.keys.
unfoldable pub keys : List EvidenceItem → List String
keys items = map (λ i. i.kind) (filter independent items)

-- EvidenceBundle.attested; an empty bundle has nothing independent.
unfoldable pub attested : List EvidenceItem → Bool
attested items = if is_empty items then false else not (is_empty (filter independent items))
