-- ===== src/Relay/Receive.antt =====
-- relay/kernel.py, RelayKernel.step: how the reply to a delivered message is read, and read again
-- while the endpoint hands back a turn that is not complete.
-- The endpoint is its answer at each attempt, counted from 1. Texts for a reader are left out.
pub mod Bounded
use quaestor.Base.{
  ℕ, zero, suc, ◌+◌, String, Bool, true, false, not, ◌&&◌, Option, none, some, List, [], ◌∷◌,
  if◌then◌else◌,
}
use quaestor.Base.Int.{ℤ, pos, negsuc}

pub data Role : Type 0 where
  orchestrator execution : Role

pub data Probe : Type 0 where
  probe_ok probe_upstream_failed probe_refused probe_unsupported : Probe

-- What a call of the endpoint comes to; `raised` is an exception.
pub data Answer {ℓ} (A : Type ℓ) : Type ℓ where
  raised : Answer A
  returned : A → Answer A

pub record Reply : Type 0 where
  pub message_id : String
  pub complete : Bool

-- The endpoint at one attempt: receive (None is `none`), `status().usable`, and probe.
pub record Attempt : Type 0 where
  pub receive : Answer (Option Reply)
  pub usable : Answer Bool
  pub probe : Answer Probe

-- _endpoint_live: a status that cannot be read is not usable.
unfoldable pub endpoint_live : Answer Bool → Bool
endpoint_live raised = false
endpoint_live (returned usable) = usable

-- _probe: a probe that raises is refused; and None where endpoints are not probed.
unfoldable pub probed : Bool → Answer Probe → Option Probe
probed false p = none
probed true raised = some probe_refused
probed true (returned p) = some p

unfoldable pub is_refused : Option Probe → Bool
is_refused (some probe_refused) = true
is_refused _ = false

unfoldable pub disconnect : Role → String
disconnect execution = "EXECUTION_DISCONNECTED"
disconnect orchestrator = "ORCHESTRATOR_DISCONNECTED"

unfoldable pub incomplete_stop : Role → String
incomplete_stop execution = "EXECUTION_INCOMPLETE"
incomplete_stop orchestrator = "ORCHESTRATOR_INCOMPLETE"

unfoldable pub unusable_stop : Role → String
unusable_stop execution = "EXECUTION_MODEL_UNUSABLE"
unusable_stop orchestrator = "ORCHESTRATOR_MODEL_UNUSABLE"

-- `max(1, int(incomplete_retry_limit) + 1)`.
unfoldable pub tries_of : ℤ → ℕ
tries_of (pos n) = suc n
tries_of (negsuc n) = 1

-- What the loop ends with: a reply; a stop, with its reason and the state of the row; or neither, where
-- the source would go on without a reply.
pub data Received : Type 0 where
  reply : Reply → Received
  stopped : String → String → Received
  no_reply : Received

pub record Result : Type 0 where
  pub outcome : Received
  -- How often the endpoint was read.
  pub reads : ℕ

-- Where an attempt leaves the loop, and `none` where the loop goes on; the last attempt is marked.
unfoldable pub after_partial : Role → Bool → Bool → Attempt → Option Received
unfolding endpoint_live probed is_refused disconnect incomplete_stop unusable_stop
after_partial role probes last a =
    if not (endpoint_live a.usable)
    then some (stopped (disconnect role) "PAUSED")
    else if is_refused (probed probes a.probe)
    then some (stopped (unusable_stop role) "PAUSED")
    else if last
    then some (stopped (incomplete_stop role) "PAUSED")
    else none

unfoldable pub after_receive :
    Role → Bool → Bool → Attempt → Answer (Option Reply) → Option Received
unfolding after_partial disconnect
after_receive role probes last a raised = some (stopped (disconnect role) "FAILED")
after_receive role probes last a (returned none) = some (stopped (disconnect role) "PAUSED")
after_receive role probes last a (returned (some r)) =
    if r.complete then some (reply r) else after_partial role probes last a

unfoldable pub is_none_left : ℕ → Bool
is_none_left zero = true
is_none_left (suc n) = false

unfoldable pub ended_or : Option Received → ℕ → Result → Result
ended_or none attempt rest = rest
ended_or (some r) attempt rest = record { outcome = r; reads = attempt }

-- The loop, with the attempts that are left and the number of the next one.
unfoldable pub receive_loop : Role → Bool → (ℕ → Attempt) → ℕ → ℕ → Result
unfolding after_receive is_none_left ended_or
receive_loop role probes endpoint zero attempt = record { outcome = no_reply; reads = attempt }
receive_loop role probes endpoint (suc left) attempt =
    let rest = receive_loop role probes endpoint left (suc attempt) in
    ended_or
      (after_receive role probes (is_none_left left) (endpoint attempt) (endpoint attempt).receive)
      attempt rest

-- The reading of a reply, of incomplete_retry_limit and probe_endpoints.
unfoldable pub take_turn : Role → Bool → ℤ → (ℕ → Attempt) → Result
unfolding receive_loop tries_of
take_turn role probes retry_limit endpoint =
    receive_loop role probes endpoint (tries_of retry_limit) 1
