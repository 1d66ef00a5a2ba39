-- ===== src/Core/Actors.antt =====
-- core/actors.py: the roles, and the ceiling that a role puts on what is requested.
-- Reason texts, the display name and the provenance, which no decision reads, are left out.
pub mod Ceiling
use quaestor.Base.{
  String, Bool, true, not, ◌&&◌, List, [], ◌∷◌, ◌++◌, elem, filter, is_empty, ◌==◌, if◌then◌else◌,
}
use quaestor.Core.Authority.{mutating, external_write, paid_execution}

-- ROLES.
unfoldable pub roles : List String
roles = "STRATEGIST" ∷ "EXECUTOR" ∷ "VERIFIER" ∷ "REVIEWER" ∷ "ADVERSARIAL_REVIEWER" ∷ "OWNER" ∷ []

-- READ_ONLY_ROLES.
unfoldable pub read_only_roles : List String
read_only_roles = "VERIFIER" ∷ "REVIEWER" ∷ "ADVERSARIAL_REVIEWER" ∷ []

-- OUTWARD_CAPABILITIES.
unfoldable pub outward_capabilities : List String
outward_capabilities = mutating ++ external_write ∷ paid_execution ∷ []

pub record Actor : Type 0 where
  pub actor_id : String
  pub role : String

unfoldable pub valid : Actor → Bool
valid a = not (a.actor_id == "") && elem a.role roles

unfoldable pub read_only_by_role : Actor → Bool
read_only_by_role a = elem a.role read_only_roles

-- `dict.fromkeys`: each name once, at its first place.
unfoldable pub distinct : List String → List String
distinct [] = []
distinct (x ∷ xs) = x ∷ filter (λ y. not (y == x)) (distinct xs)

-- The capabilities that authority_ceiling lets through.
unfoldable pub authority_ceiling : Actor → List String → List String
authority_ceiling actor requested =
    let caps = distinct requested in
    if not (valid actor)
    then []
    else if read_only_by_role actor
    then (if not (is_empty (filter (λ c. elem c outward_capabilities) caps)) then [] else caps)
    else caps
