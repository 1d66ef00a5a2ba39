-- ===== src/Core/Store/Grants/Revoked.antt =====
-- How revoking a grant moves the owner gate.
use quaestor.Base.{ℕ, String, ◌≡◌, Bool, not, ◌&&◌, ◌||◌, any, any-filter-map, arith, ◌==◌}
use quaestor.Core.OwnerChannel.{Grant, is_live}
use quaestor.Core.OwnerChannel.Gate.{decides}
use quaestor.Core.Store.Rows.{Store}
use quaestor.Core.Store.Grants.{revoked_row, revoke_owner_grant, owner_grants}

abbrev in_scope : String → Grant → Bool
in_scope scope g = g.scope == "*" || g.scope == scope

in_scope-revoked_row :
    (scope id : String) (now : ℕ) (g : Grant)
    → in_scope scope (revoked_row now id g) ≡ in_scope scope g
unfolding revoked_row
in_scope-revoked_row scope id now g = ground arith

decides-revoked_row :
    (c id : String) (now later : ℕ) (g : Grant)
    → decides c later (revoked_row now id g) ≡ (decides c later g && not (g.grant_id == id))
unfolding revoked_row is_live
decides-revoked_row c id now later g = ground arith

-- After a grant is revoked, what decides on a capability is exactly what decided before it under
-- another id.
pub revoked_never_decides :
    (c scope id : String) (now later : ℕ) (s : Store)
    → any (decides c later) (owner_grants scope (revoke_owner_grant now id s))
      ≡ any (λ g. decides c later g && not (g.grant_id == id)) (owner_grants scope s)
unfolding owner_grants revoke_owner_grant
revoked_never_decides c scope id now later s =
    any-filter-map (decides c later) (λ g. decides c later g && not (g.grant_id == id))
      (in_scope scope) (revoked_row now id) s.grants (in_scope-revoked_row scope id now)
      (decides-revoked_row c id now later)
