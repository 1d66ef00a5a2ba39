-- ===== src/Core/Credentials.antt =====
-- core/credential_policy.py: whether a run may start under the credentials of its environment.
-- `upper` is `str.upper` and the classifier of a provider is an argument. A PreflightDecision has its
-- decision and its reason; the detail and the record for a reader are left out.
pub mod Ceiling
use quaestor.Base.{
  Bool, true, false, not, ◌&&◌, ◌||◌, Option, none, some, List, [], ◌∷◌, all, any, filter, elem,
  is_empty, is_some, eqb, find, strip, ◌==◌, if◌then◌else◌,
}
use Prim.Native.Char.{Char, code}
use Prim.Native.String.{String, [], ◌∷◌}

unfoldable pub forbidden_exemption_shapes : List (String × String)
forbidden_exemption_shapes =
    ("API", "KEY")
    ∷ ("AUTH", "TOKEN")
    ∷ ("SECRET", "KEY")
    ∷ ("ACCESS", "KEY")
    ∷ ("BASE", "URL")
    ∷ ("API", "URL")
    ∷ ("BEARER", "TOKEN")
    ∷ []

-- `text.split("_")`.
unfoldable pub cons_part : Char → List String → List String
cons_part c [] = (c ∷ []) ∷ []
cons_part c (p ∷ parts) = (c ∷ p) ∷ parts

unfoldable pub split_parts : String → List String
unfolding cons_part
split_parts [] = [] ∷ []
split_parts (c ∷ rest) =
    let later = split_parts rest in if eqb (code c) 95 then [] ∷ later else cons_part c later

-- `tuple(parts[i:i + n]) == shape`, for some i.
unfoldable pub starts_with_pair : String × String → List String → Bool
starts_with_pair (a, b) (p ∷ q ∷ parts) = p == a && q == b
starts_with_pair shape _ = false

unfoldable pub has_pair : String × String → List String → Bool
unfolding starts_with_pair
has_pair shape [] = false
has_pair shape (p ∷ parts) = starts_with_pair shape (p ∷ parts) || has_pair shape parts

-- forbids_exemption: the shape that forbids it.
unfoldable pub forbids_exemption : (String → String) → String → Option (String × String)
unfolding forbidden_exemption_shapes split_parts has_pair
forbids_exemption upper name =
    let parts = filter (λ p. not (p == "")) (split_parts (upper name)) in
    find (λ shape. has_pair shape parts) forbidden_exemption_shapes

pub data AuthClass : Type 0 where
  subscription api_console third_party unverified logged_out : AuthClass

-- ProviderCredentialPolicy; an auth status is of a type of the provider's own.
pub record Policy {ℓ} (Status : Type ℓ) : Type ℓ where
  pub provider : String
  pub override_env : List String
  pub exemptible_env : List String
  pub classifier : Option (Status → AuthClass)

module _ {ℓ} {Status : Type ℓ} where
  -- __post_init__; `none` is a PolicyError.
  unfoldable pub new_policy : (String → String) → Policy Status → Option (Policy Status)
  unfolding forbids_exemption
  new_policy upper p =
      if strip p.provider == ""
      then none
      else if is_empty p.override_env
      then none
      else if any (λ n. is_some (forbids_exemption upper n) || not (elem n p.override_env))
          p.exemptible_env
      then none
      else some p

  -- env_overrides_present, of the environment and of the names that a broker injected.
  unfoldable pub env_overrides_present :
      (String → Option String) → Policy Status → List String → List String
  env_overrides_present env p injected =
      filter (λ n. is_some (env n) && not (elem n injected && elem n p.exemptible_env))
        p.override_env

-- The reasons to refuse.
pub data Reason : Type 0 where
  credential_override_present not_logged_in api_billed_auth third_party_provider
        auth_class_unverified :
      Reason
  no_credential_policy_configured : Reason

pub data Preflight : Type 0 where
  accept : Preflight
  refuse : Reason → Preflight

unfoldable pub of_class : AuthClass → Preflight
of_class subscription = accept
of_class logged_out = refuse not_logged_in
of_class api_console = refuse api_billed_auth
of_class third_party = refuse third_party_provider
of_class unverified = refuse auth_class_unverified

module _ {ℓ} {Status : Type ℓ} where
  unfoldable pub classified : Option (Status → AuthClass) → Status → Preflight
  unfolding of_class
  classified none status = refuse auth_class_unverified
  classified (some classify) status = of_class (classify status)

  unfoldable pub decide :
      Option (Policy Status) → (String → Option String) → Status → List String → Preflight
  unfolding env_overrides_present classified
  decide none env status injected = refuse no_credential_policy_configured
  decide (some p) env status injected =
      if not (is_empty (env_overrides_present env p injected))
      then refuse credential_override_present
      else classified p.classifier status
