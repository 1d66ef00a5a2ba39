-- ===== src/Core/Store/Grants.antt =====
-- The owner_grant table of core/store.py: what the owner's channel reads.
pub mod Revoked
use quaestor.Base.{
  ℕ, String, Bool, ◌||◌, Option, none, some, List, [], ◌∷◌, ◌++◌, any, filter, map, ◌==◌,
  if◌then◌else◌,
}
use quaestor.Core.OwnerChannel.{Expiry, Grant}
use quaestor.Core.Store.Rows.{Store, log, event}

-- add_owner_grant; `none` is the IntegrityError of an id that is taken.
unfoldable pub add_owner_grant :
    ℕ → String → String → String → Expiry → String → Store → Option Store
add_owner_grant now grant_id capability scope expires_at note s =
    if any (λ g. g.grant_id == grant_id) s.grants
    then none
    else some (
        log (event now "" "" "owner.grant") (record s {
          grants =
              s.grants
              ++ (record {
                grant_id = grant_id;
                capability = capability;
                scope = scope;
                granted_at = now;
                expires_at = expires_at;
                revoked_at = none;
                note = note;
              })
                ∷ [];
        }))

unfoldable pub revoked_row : ℕ → String → Grant → Grant
revoked_row now grant_id g =
    if g.grant_id == grant_id then record g { revoked_at = some now } else g

-- revoke_owner_grant.
unfoldable pub revoke_owner_grant : ℕ → String → Store → Store
revoke_owner_grant now grant_id s =
    log (event now "" "" "owner.revoke")
      (record s { grants = map (revoked_row now grant_id) s.grants })

-- owner_grants: the rows of a scope and those of every scope.
unfoldable pub owner_grants : String → Store → List Grant
owner_grants scope s = filter (λ g. g.scope == "*" || g.scope == scope) s.grants
