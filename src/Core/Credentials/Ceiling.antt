-- ===== src/Core/Credentials/Ceiling.antt =====
-- An API key is never exempted, and only a subscription is accepted.
use quaestor.Base.{
  ◌≡◌, refl, ◌↔◌, String, Bool, true, false, not, ◌&&◌, ◌||◌, Option, none, some, List, [], ◌∷◌,
  any, filter, elem, is_empty, is_some, strip, arith, ◌==◌, eq_iff, Bool-cases, inl, inr,
}
use quaestor.Core.Credentials.{
  AuthClass, subscription, Policy, forbids_exemption, new_policy, env_overrides_present, accept,
  refuse, credential_override_present, of_class, decide,
}

-- Some item of a list fails what all items pass.
elem-any-false :
    (p : String → Bool) (s : String) (l : List String)
    → any p l ≡ false
    → elem s l ≡ true
    → p s ≡ false
elem-any-false p s [] h m = absurd (ground (arith, m))
elem-any-false p s (x ∷ xs) h m = ground (arith, h, m, eq_iff s x, elem-any-false p s xs)

elem-filter-not-is_empty :
    (p : String → Bool) (s : String) (l : List String)
    → elem s l ≡ true
    → p s ≡ true
    → is_empty (filter p l) ≡ false
elem-filter-not-is_empty p s [] m h = absurd (ground (arith, m))
elem-filter-not-is_empty p s (x ∷ xs) m h =
    ground (arith, m, h, eq_iff s x, elem-filter-not-is_empty p s xs)

module _ {ℓ} {Status : Type ℓ} where
  new_policy-exemptible :
      (upper : String → String) (p q : Policy Status) (name : String)
      → new_policy upper p ≡ some q
      → is_some (forbids_exemption upper name) ≡ true
      → elem name q.exemptible_env ≡ false
  unfolding new_policy
  new_policy-exemptible upper p q name made shaped =
      let bad =
        λ (n : String). is_some (forbids_exemption upper n) || not (elem n p.override_env) in
      elim (Bool-cases (strip p.provider == "")) [
        | inl nameless ↦
            let e : Path (Option (Policy Status)) none (some q) = rw nameless at made in
            absurd (ground (arith, e))
        | inr named ↦ elim (Bool-cases (is_empty p.override_env)) [
          | inl open_policy ↦
              let e : Path (Option (Policy Status)) none (some q) =
                rw (named, open_policy) at made in
              absurd (ground (arith, e))
          | inr closed ↦ elim (Bool-cases (any bad p.exemptible_env)) [
            | inl breached ↦
                let e : Path (Option (Policy Status)) none (some q) =
                  rw (named, closed, breached) at made in
                absurd (ground (arith, e))
            | inr kept ↦
                let e : Path (Option (Policy Status)) (some p) (some q) =
                  rw (named, closed, kept) at made in
                let same : p ≡ q = ground (arith, e) in
                rw (← same) (elim (Bool-cases (elem name p.exemptible_env)) [
                  | inr absent ↦ absent
                  | inl present ↦ absurd (
                      ground (arith, elem-any-false bad name p.exemptible_env kept present, shaped))
                ])
          ]
        ]
      ]

-- A policy that could be built refuses every run in whose environment one of its override variables is
-- set whose name has the shape of an API credential or an endpoint override, whatever the run's
-- authentication is and whatever a broker says that it injected.
pub api_key_refuses {ℓ} :
    {Status : Type ℓ} (upper : String → String) (p q : Policy Status) (name : String)
    (env : String → Option String) (status : Status) (injected : List String)
    → new_policy upper p ≡ some q
    → is_some (forbids_exemption upper name) ≡ true
    → elem name q.override_env ≡ true
    → is_some (env name) ≡ true
    → decide (some q) env status injected ≡ refuse credential_override_present
unfolding decide env_overrides_present
api_key_refuses upper p q name env status injected made shaped listed set =
    let never = new_policy-exemptible upper p q name made shaped in
    let offends : is_empty (
          filter (λ n. is_some (env n) && not (elem n injected && elem n q.exemptible_env))
            q.override_env)
        ≡ false =
      elem-filter-not-is_empty
        (λ n. is_some (env n) && not (elem n injected && elem n q.exemptible_env)) name
        q.override_env listed (ground (arith, set, never)) in
    rw offends refl

of_class-accept : (c : AuthClass) → (of_class c ≡ accept) ↔ (c ≡ subscription)
unfolding of_class
of_class-accept subscription = (λ h. refl, λ h. refl)
of_class-accept AuthClass.api_console = (λ h. ground (arith, h), λ h. ground (arith, h))
of_class-accept AuthClass.third_party = (λ h. ground (arith, h), λ h. ground (arith, h))
of_class-accept AuthClass.unverified = (λ h. ground (arith, h), λ h. ground (arith, h))
of_class-accept AuthClass.logged_out = (λ h. ground (arith, h), λ h. ground (arith, h))
