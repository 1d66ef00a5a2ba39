-- ===== src/Core/Actors/Ceiling.antt =====
-- What gets through the role ceiling of core/actors.py.
use quaestor.Base.{
  String, ◌≡◌, refl, Bool, true, false, not, ◌&&◌, List, [], ◌∷◌, arith, any, elem, elem-filter,
  not-is_empty-filter, all-elem, ◌==◌, eq_iff,
}
use quaestor.Core.Authority.{owner_gated, mutating}
use quaestor.Core.Actors.{
  Actor, valid, read_only_by_role, outward_capabilities, distinct, authority_ceiling,
}

elem-distinct : (c : String) (l : List String) → elem c (distinct l) ≡ elem c l
unfolding distinct
elem-distinct c [] = refl
elem-distinct c (x ∷ xs) =
    ground (arith, eq_iff c x, elem-filter (λ y. not (y == x)) c (distinct xs), elem-distinct c xs)

any_of_elem :
    (p : String → Bool) (c : String) (l : List String)
    → elem c l ≡ true
    → p c ≡ true
    → any p l ≡ true
any_of_elem p c [] m h = ground arith
any_of_elem p c (x ∷ xs) m h = ground (arith, eq_iff c x, any_of_elem p c xs)

-- The ceiling never widens a request: what it lets through was asked for, by a valid actor, and
-- from a read-only role it is no capability that reaches outside the artefact under review.
pub ceiling_narrows :
    (actor : Actor) (requested : List String) (c : String)
    → elem c (authority_ceiling actor requested) ≡ true
    → (elem c requested ≡ true)
      × (valid actor ≡ true)
      × ((read_only_by_role actor && elem c outward_capabilities) ≡ false)
unfolding authority_ceiling
ceiling_narrows actor requested c h = ground (
  arith,
  elem-distinct c requested,
  not-is_empty-filter (λ x. elem x outward_capabilities) (distinct requested),
  any_of_elem (λ x. elem x outward_capabilities) c (distinct requested),
)

gated_is_outward : (c : String) → elem c owner_gated ≡ true → elem c outward_capabilities ≡ true
unfolding owner_gated outward_capabilities mutating
gated_is_outward c h = all-elem (λ x. elem x outward_capabilities) c owner_gated refl h

-- A read-only role never gets an owner-gated capability through the ceiling.
pub reviewer_never_gated :
    (actor : Actor) (requested : List String) (c : String)
    → read_only_by_role actor ≡ true
    → elem c owner_gated ≡ true
    → elem c (authority_ceiling actor requested) ≡ false
reviewer_never_gated actor requested c ro gated =
    ground (arith, ceiling_narrows actor requested c, gated_is_outward c gated)
