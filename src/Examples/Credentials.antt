-- ===== src/Examples/Credentials.antt =====
-- A run under an API key of the provider.
use quaestor.Base.{◌≡◌, refl, true, Bool, some, [], ◌∷◌, is_some, strip}
use quaestor.Core.Credentials.{
  Policy, subscription, forbids_exemption, forbidden_exemption_shapes, split_parts, cons_part,
  has_pair, starts_with_pair, new_policy, decide, refuse, credential_override_present,
}
use quaestor.Core.Credentials.Ceiling.{api_key_refuses}

abbrev policy : Policy Bool
policy = record {
  provider = "vendor";
  override_env = "VENDOR_API_KEY" ∷ "VENDOR_OAUTH_TOKEN" ∷ [];
  exemptible_env = "VENDOR_OAUTH_TOKEN" ∷ [];
  classifier = some (λ logged_in. subscription);
}

policy_made : new_policy (λ s. s) policy ≡ some policy
unfolding new_policy forbids_exemption forbidden_exemption_shapes split_parts cons_part has_pair
    starts_with_pair strip
policy_made = refl

key_shaped : is_some (forbids_exemption (λ s. s) "VENDOR_API_KEY") ≡ true
unfolding forbids_exemption forbidden_exemption_shapes split_parts cons_part has_pair
    starts_with_pair
key_shaped = refl

api_key_refuses_example :
    decide (some policy) (λ name. some "x") true ("VENDOR_API_KEY" ∷ [])
    ≡ refuse credential_override_present
api_key_refuses_example =
    api_key_refuses (λ s. s) policy policy "VENDOR_API_KEY" (λ name. some "x") true
      ("VENDOR_API_KEY" ∷ []) policy_made key_shaped refl refl
