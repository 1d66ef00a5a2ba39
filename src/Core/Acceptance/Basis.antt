-- ===== src/Core/Acceptance/Basis.antt =====
-- What an acceptance rests on.
use quaestor.Base.{
  ◌<◌, String, ◌≡◌, refl, ◌⊎◌, inl, inr, Bool, true, false, not, ◌&&◌, ◌||◌, some, List, [], ◌∷◌,
  all, any, elem, elem-filter, elem-sorted_set, filter, is_empty, length, ltb, arith, sorted_set,
  Bool-cases, not-is_empty-filter, eq_refl,
}
use quaestor.Core.Review.{
  EvidenceItem, keys, attested, ReviewResult, accepted, survives, summarize, adversarial_required,
  adversarial_required_floor,
}
use quaestor.Core.Acceptance.{
  Waiver, accept, is_adversarial, live, by_waivers, by_reviews, by_floor, decide,
}

-- A review that inspected something and of whose findings every one was refuted.
abbrev pub is_clean : ReviewResult → Bool
is_clean r = ltb 0 r.inspected_count && not (any survives r.findings)

accepted_is_clean : (r : ReviewResult) → summarize r ≡ accepted → is_clean r ≡ true
unfolding summarize
accepted_is_clean r h = ground (arith, h, not-is_empty-filter survives r.findings)

by_reviews-clean :
    (reviews : List ReviewResult) → by_reviews reviews ≡ accept → all is_clean reviews ≡ true
unfolding by_reviews
by_reviews-clean [] h = refl
by_reviews-clean (r ∷ rest) h = ground (arith, accepted_is_clean r, by_reviews-clean rest)

some_live : (p : Waiver → Bool) (l : List Waiver) → 0 < length (filter p l) → any p l ≡ true
some_live p [] h = absurd (omega (arith, h))
some_live p (x ∷ l) h = ground (arith, some_live p l)

elem-not-empty :
    (s : String) (l : List String) → elem s l ≡ true → (is_empty l ≡ false) × (0 < length l)
elem-not-empty s [] h = absurd (ground (arith, h))
elem-not-empty s (x ∷ l) h = (refl, omega arith)

by_waivers-live :
    (matched : List String) (waivers : List Waiver) (attestation : Bool)
    → 0 < length matched
    → by_waivers matched waivers attestation ≡ accept
    → any (live matched attestation) waivers ≡ true
unfolding by_waivers
by_waivers-live matched waivers attestation some_match h =
    ground (arith, some_live (live matched attestation) waivers)

some_elem :
    (p : String → Bool) (l : List String)
    → any p l ≡ true
    → (c : String) × (elem c l ≡ true) × (p c ≡ true)
some_elem p [] h = absurd (ground (arith, h))
some_elem p (x ∷ l) h = elim (Bool-cases (p x)) [
  | inl here ↦ (x, ground (arith, eq_refl x), here)
  | inr other ↦
      let (c, there, holds) = some_elem p l (ground (arith, h, other)) in
      (c, ground (arith, there), holds)
]

-- The class is on the platform's floor or on the list of the project.
abbrev pub sensitive : List String → String → Bool
sensitive extra c = elem c adversarial_required_floor || elem c extra

sensitive_matches :
    (c : String) (classes extra : List String)
    → elem c classes ≡ true
    → sensitive extra c ≡ true
    → elem c (adversarial_required classes extra) ≡ true
unfolding adversarial_required
sensitive_matches c classes extra named listed = ground (
  arith,
  elem-filter (sensitive extra) c (sorted_set classes),
  elem-sorted_set c classes,
  named,
  listed,
)

-- What lets a change of the review floor through.
abbrev pub Reviewed : List String → List ReviewResult → List Waiver → Bool → Type 0
Reviewed matched reviews waivers attestation =
    ((is_empty (filter is_adversarial reviews) ≡ false)
      × (all is_clean (filter is_adversarial reviews) ≡ true))
    ⊎ (any (live matched attestation) waivers ≡ true)

by_floor-Reviewed :
    (c : String) (matched : List String) (reviews : List ReviewResult) (waivers : List Waiver)
    (attestation : Bool)
    → elem c matched ≡ true
    → by_floor matched reviews waivers attestation ≡ accept
    → Reviewed matched reviews waivers attestation
unfolding by_floor
by_floor-Reviewed c matched reviews waivers attestation there h =
    let (full, many) = elem-not-empty c matched there in
    elim (Bool-cases (is_empty (filter is_adversarial reviews))) [
      | inl nobody ↦
          inr (ground (arith, by_waivers-live matched waivers attestation many, nobody, full, h))
      | inr somebody ↦ inl (
        somebody,
        ground (arith, by_reviews-clean (filter is_adversarial reviews), somebody, full, h),
      )
    ]

-- An accepted change has evidence that something other than a reasoning actor collected, of every
-- kind that is required; and either none of its classes is on the platform's floor or on the list of
-- the project, or there are adversarial reviews and each inspected something and has no finding that
-- survives, or the owner's channel attests a valid waiver of a class that matched.
pub acceptance_rests_on :
    (classes : List String) (reviews : List ReviewResult) (items : List EvidenceItem)
    (required : List String) (waivers : List Waiver) (extra : List String) (attestation : Bool)
    → decide classes reviews (some items) required waivers extra attestation ≡ accept
    → (attested items ≡ true)
      × (all (λ k. elem k (keys items)) required ≡ true)
      × ((any (sensitive extra) classes ≡ false)
          ⊎ Reviewed (adversarial_required classes extra) reviews waivers attestation)
unfolding decide
acceptance_rests_on classes reviews items required waivers extra attestation h = (
  ground (arith, h),
  ground (arith, h),
  elim (Bool-cases (any (sensitive extra) classes)) [
    | inr plain ↦ inl plain
    | inl some_listed ↦
        let (c, named, listed) = some_elem (sensitive extra) classes some_listed in
        inr (
          by_floor-Reviewed c (adversarial_required classes extra) reviews waivers attestation
            (sensitive_matches c classes extra named listed) (ground (arith, h)))
  ],
)
