-- ===== src/Core/Concurrency/Limit.antt =====
-- The census of real children under repeated admission.
use quaestor.Base.{ℕ, String, Option, List, [], ◌∷◌, if◌then◌else◌, ◌&&◌}
use quaestor.Core.Concurrency.{is_real_executor, decide}

-- What a dispatcher asks for or observes: a request to start a run, or the end of the oldest run.
pub data Happening : Type 0 where
  request : String → Option String → Happening
  finish : Happening

-- The active real runs after an admitted request, or after the end of one.
unfoldable pub census : Option ℕ → List String → List Happening → List String
census policy active [] = active
census policy active (request run kind ∷ rest) =
    census policy
      (if (decide active kind policy).admitted && is_real_executor kind
        then run ∷ active
        else active)
      rest
census policy [] (finish ∷ rest) = census policy [] rest
census policy (x ∷ active) (finish ∷ rest) = census policy active rest
