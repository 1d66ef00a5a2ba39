-- ===== src/Examples/Authority.antt =====
-- Authority, the owner's channel, actors and autonomy at concrete inputs.
use quaestor.Base.{◌≡◌, refl, ◌∙◌, true, ◌&&◌, none, some, [], ◌∷◌, all, elem, lookup, is_some}
use quaestor.Core.OwnerChannel.{
  at, Grant, channel_in_force, owner_channel_state, is_live, unexpired,
}
use quaestor.Core.Authority.{
  profiles, owner_gated, allowed, require, git_push, repo_read, granted_capabilities, mutating,
  all_capabilities,
}
use quaestor.Core.Authority.Allow.{usable_under, allow_exactly}
use quaestor.Core.Actors.{
  Actor, valid, read_only_by_role, outward_capabilities, authority_ceiling, roles, read_only_roles,
  distinct,
}

abbrev push : Grant
push = record {
  grant_id = "g";
  capability = "git_push";
  scope = "*";
  granted_at = 1;
  expires_at = at 90;
  revoked_at = none;
  note = "";
}

allow_exactly_example :
    allowed (require "GIT_PUSH" (git_push ∷ []) (push ∷ []) 50 none (some true)) ≡ (
      is_some (lookup "GIT_PUSH" profiles)
      && all
          (usable_under "GIT_PUSH" (push ∷ []) 50 (channel_in_force none (some true)))
          (git_push ∷ []))
allow_exactly_example = allow_exactly "GIT_PUSH" (git_push ∷ []) (push ∷ []) 50 none (some true)

pushes :
    (is_some (lookup "GIT_PUSH" profiles)
      && all
          (usable_under "GIT_PUSH" (push ∷ []) 50 (channel_in_force none (some true)))
          (git_push ∷ []))
    ≡ true
unfolding profiles all_capabilities owner_gated granted_capabilities channel_in_force
    owner_channel_state is_live unexpired
pushes = refl

push-allowed : allowed (require "GIT_PUSH" (git_push ∷ []) (push ∷ []) 50 none (some true)) ≡ true
push-allowed = allow_exactly_example ∙ pushes

abbrev reviewer : Actor
reviewer = record { actor_id = "a"; role = "REVIEWER" }

reads : elem repo_read (authority_ceiling reviewer (repo_read ∷ [])) ≡ true
unfolding authority_ceiling valid read_only_by_role outward_capabilities roles read_only_roles
    distinct mutating
reads = refl
