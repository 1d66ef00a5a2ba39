-- ===== src/Core/OwnerChannel.antt =====
-- core/owner_channel.py: which owner-gated capabilities an owner's recorded decision opens.
-- The presence of the attestation key, which the operating system guards, is an argument.
pub mod Gate
use quaestor.Base.{
  ℕ, String, Bool, true, false, not, ◌&&◌, Option, none, some, List, [], ◌∷◌, elem, filter, map,
  is_empty, is_some, sorted_set, ltb, eqb, ◌==◌, if◌then◌else◌,
}

-- `expires_at`: none, a time, or a value that is no number.
pub data Expiry : Type 0 where
  never : Expiry
  at : ℕ → Expiry
  unreadable : Expiry

-- A row of the owner_grant table (core/store.py).
pub record Grant : Type 0 where
  pub grant_id : String
  pub capability : String
  pub scope : String
  pub granted_at : ℕ
  pub expires_at : Expiry
  pub revoked_at : Option ℕ
  pub note : String

pub data ChannelState : Type 0 where
  unavailable authenticated : ChannelState

-- owner_channel_state: a key that is absent, or whose probe raises, is UNAVAILABLE.
unfoldable pub owner_channel_state : Option Bool → ChannelState
owner_channel_state (some true) = authenticated
owner_channel_state _ = unavailable

-- `channel_state or owner_channel_state()`.
unfoldable pub channel_in_force : Option ChannelState → Option Bool → ChannelState
channel_in_force (some state) present = state
channel_in_force none present = owner_channel_state present

unfoldable pub unexpired : Expiry → ℕ → Bool
unexpired never now = true
unexpired (at t) now = if eqb now 0 then true else ltb now t
unexpired unreadable now = eqb now 0

-- A `now` of 0 means that the caller did not say what time it is.
unfoldable pub is_live : Grant → ℕ → Bool
is_live row now = if is_some row.revoked_at then false else unexpired row.expires_at now

-- The recorded claims on a capability: the ids of its live grants.
unfoldable pub claims_on : String → List Grant → ℕ → List String
claims_on capability rows now =
    filter (λ g. not (g == ""))
      (sorted_set
        (map (λ r. r.grant_id) (filter (λ r. r.capability == capability && is_live r now) rows)))

pub record OwnerDecision : Type 0 where
  pub usable : Bool
  pub channel_state : ChannelState
  pub capability : String
  pub recorded_claims : List String

abbrev pub is_authenticated : ChannelState → Bool
is_authenticated authenticated = true
is_authenticated unavailable = false

unfoldable pub evaluate : String → List Grant → ChannelState → ℕ → OwnerDecision
evaluate capability rows state now =
    let claims = claims_on capability rows now in
    if not (is_authenticated state)
    then record {
      usable = false;
      channel_state = state;
      capability = capability;
      recorded_claims = claims;
    }
    else record {
      usable = not (is_empty claims);
      channel_state = state;
      capability = capability;
      recorded_claims = claims;
    }

-- The blocked capabilities of gate: the required ones that are owner-gated and not usable.
unfoldable pub gate : List String → List String → List Grant → ChannelState → ℕ → List String
gate required owner_gated rows state now =
    filter (λ cap. not (evaluate cap rows state now).usable)
      (sorted_set (filter (λ c. elem c owner_gated) required))
