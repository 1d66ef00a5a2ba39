-- ===== src/Relay/Receive/Bounded.antt =====
-- The reading of a reply ends within its bound, and never hands on a partial turn.
use quaestor.Base.{
  ℕ, zero, suc, ◌+◌, ◌≤◌, ◌≡◌, refl, ◌↔◌, inl, inr, Bool, true, false, not, ◌&&◌, Option, none,
  some, arith, eq_iff, Option-cases,
}
use quaestor.Base.Int.{ℤ, pos, negsuc}
use quaestor.Relay.Receive.{
  Role, Answer, raised, returned, Reply, Attempt, endpoint_live, probed, is_refused, disconnect,
  unusable_stop, incomplete_stop, tries_of, Received, reply, stopped, no_reply, after_partial,
  after_receive, is_none_left, ended_or, receive_loop, take_turn,
}

-- The endpoint handed back a partial turn, and is live and not refused: it is read again.
pub retried : Bool → Attempt → Answer (Option Reply) → Bool
retried probes a (returned (some r)) =
    not r.complete && (endpoint_live a.usable && not (is_refused (probed probes a.probe)))
retried probes a _ = false

-- A stop with a reason, or a complete reply.
pub well_ended : Received → Bool
well_ended (reply r) = r.complete
well_ended (stopped why state) = true
well_ended no_reply = false

go_on_iff :
    (role : Role) (probes last : Bool) (a : Attempt) (x : Answer (Option Reply))
    → (after_receive role probes last a x ≡ none) ↔ ((last ≡ false) × (retried probes a x ≡ true))
unfolding after_receive after_partial retried
go_on_iff role probes last a raised = (λ h. ground (arith, h), λ h. ground (arith, h))
go_on_iff role probes last a (returned none) = (λ h. ground (arith, h), λ h. ground (arith, h))
go_on_iff role probes last a (returned (some r)) = (λ h. ground (arith, h), λ h. ground (arith, h))

ends_well :
    (role : Role) (probes last : Bool) (a : Attempt) (x : Answer (Option Reply)) (o : Received)
    → after_receive role probes last a x ≡ some o
    → well_ended o ≡ true
unfolding after_receive after_partial well_ended
ends_well role probes last a raised o h = ground (arith, h)
ends_well role probes last a (returned none) o h = ground (arith, h)
ends_well role probes last a (returned (some r)) o h = ground (arith, h)

apart :
    (role : Role)
    → ((disconnect role ≡ incomplete_stop role) → false ≡ true)
      × ((unusable_stop role ≡ incomplete_stop role) → false ≡ true)
unfolding disconnect unusable_stop incomplete_stop
apart Role.execution = (
  λ h. ground (arith, h, eq_iff "EXECUTION_DISCONNECTED" "EXECUTION_INCOMPLETE"),
  λ h. ground (arith, h, eq_iff "EXECUTION_MODEL_UNUSABLE" "EXECUTION_INCOMPLETE"),
)
apart Role.orchestrator = (
  λ h. ground (arith, h, eq_iff "ORCHESTRATOR_DISCONNECTED" "ORCHESTRATOR_INCOMPLETE"),
  λ h. ground (arith, h, eq_iff "ORCHESTRATOR_MODEL_UNUSABLE" "ORCHESTRATOR_INCOMPLETE"),
)

-- One turn of the loop, where the attempt ends it and where it goes on.
module _ (role : Role) (probes : Bool) (endpoint : ℕ → Attempt) where
  loop_ends :
      (left attempt : ℕ) (o : Received)
      → after_receive role probes (is_none_left left) (endpoint attempt) (endpoint attempt).receive
        ≡ some o
      → receive_loop role probes endpoint (suc left) attempt
        ≡ record { outcome = o; reads = attempt }
  unfolding receive_loop ended_or
  loop_ends left attempt o e = rw e refl

  loop_goes_on :
      (left attempt : ℕ)
      → after_receive role probes (is_none_left left) (endpoint attempt) (endpoint attempt).receive
        ≡ none
      → receive_loop role probes endpoint (suc left) attempt
        ≡ receive_loop role probes endpoint left (suc attempt)
  unfolding receive_loop ended_or
  loop_goes_on left attempt e = rw e refl

  loop_bounded :
      (left attempt : ℕ)
      → (well_ended (receive_loop role probes endpoint (suc left) attempt).outcome ≡ true)
        × (attempt ≤ (receive_loop role probes endpoint (suc left) attempt).reads)
        × ((receive_loop role probes endpoint (suc left) attempt).reads ≤ left + attempt)
  unfolding is_none_left
  loop_bounded zero attempt =
      elim (Option-cases
        (after_receive role probes true (endpoint attempt) (endpoint attempt).receive)) [
          | inr (o, e) ↦ rw (loop_ends zero attempt o e) (
            ends_well role probes true (endpoint attempt) (endpoint attempt).receive o e,
            omega arith,
            omega arith,
          )
          | inl e ↦ absurd (
              ground (
                arith,
                (go_on_iff role probes true (endpoint attempt) (endpoint attempt).receive).0 e,
              ))
        ]
  loop_bounded (suc left) attempt =
      elim (Option-cases
        (after_receive role probes false (endpoint attempt) (endpoint attempt).receive)) [
          | inr (o, e) ↦ rw (loop_ends (suc left) attempt o e) (
            ends_well role probes false (endpoint attempt) (endpoint attempt).receive o e,
            omega arith,
            omega arith,
          )
          | inl e ↦
              let (ended, some_reads, bound) = loop_bounded left (suc attempt) in
              rw (loop_goes_on (suc left) attempt e)
                (ended, omega (arith, some_reads), omega (arith, bound))
        ]

  -- Each of the attempts from a number on was answered with a partial turn of a live endpoint.
  pub all_retried : ℕ → ℕ → Bool
  all_retried zero attempt = true
  all_retried (suc left) attempt =
      let rest = all_retried left (suc attempt) in
      retried probes (endpoint attempt) (endpoint attempt).receive && rest

  gives_up :
      (last : Bool) (a : Attempt) (x : Answer (Option Reply)) (o : Received)
      → after_receive role probes last a x ≡ some o
      → (o ≡ stopped (incomplete_stop role) "PAUSED")
        ↔ ((last ≡ true) × (retried probes a x ≡ true))
  unfolding after_receive after_partial retried
  gives_up last a raised o h = ground (arith, h, apart role)
  gives_up last a (returned none) o h = ground (arith, h, apart role)
  gives_up last a (returned (some r)) o h =
      (λ e. ground (arith, h, e, apart role), λ e. ground (arith, h, e))

  loop_gives_up :
      (left attempt : ℕ)
      → ((receive_loop role probes endpoint (suc left) attempt).outcome
          ≡ stopped (incomplete_stop role) "PAUSED")
        ↔ (all_retried (suc left) attempt ≡ true)
  unfolding all_retried is_none_left
  loop_gives_up zero attempt =
      elim (Option-cases
        (after_receive role probes true (endpoint attempt) (endpoint attempt).receive)) [
          | inr (o, e) ↦
              rw (loop_ends zero attempt o e)
                (ground (arith, gives_up true (endpoint attempt) (endpoint attempt).receive o e))
          | inl e ↦ absurd (
              ground (
                arith,
                (go_on_iff role probes true (endpoint attempt) (endpoint attempt).receive).0 e,
              ))
        ]
  loop_gives_up (suc left) attempt =
      elim (Option-cases
        (after_receive role probes false (endpoint attempt) (endpoint attempt).receive)) [
          | inr (o, e) ↦
              let here = gives_up false (endpoint attempt) (endpoint attempt).receive o e in
              let go_on =
                go_on_iff role probes false (endpoint attempt) (endpoint attempt).receive in
              rw (loop_ends (suc left) attempt o e)
                (λ q. ground (arith, here.0 q), λ q. ground (arith, q, go_on, e))
          | inl e ↦
              let once =
                (go_on_iff role probes false (endpoint attempt) (endpoint attempt).receive).0 e in
              let rest = loop_gives_up left (suc attempt) in
              rw (loop_goes_on (suc left) attempt e)
                (λ q. ground (arith, once, rest.0 q), λ q. rest.1 (ground (arith, q)))
        ]

tries_pos : (limit : ℤ) → (n : ℕ) × (tries_of limit ≡ suc n)
unfolding tries_of
tries_pos (pos n) = (n, refl)
tries_pos (negsuc n) = (0, refl)

-- The reading of a reply always ends, after at least one read and at most max(1, the limit + 1), with
-- a named stop or with a turn that is complete.
pub reading_ends :
    (role : Role) (probes : Bool) (retry_limit : ℤ) (endpoint : ℕ → Attempt)
    → (well_ended (take_turn role probes retry_limit endpoint).outcome ≡ true)
      × (1 ≤ (take_turn role probes retry_limit endpoint).reads)
      × ((take_turn role probes retry_limit endpoint).reads ≤ tries_of retry_limit)
unfolding take_turn
reading_ends role probes retry_limit endpoint =
    let (n, e) = tries_pos retry_limit in
    let (ended, some_reads, bound) = loop_bounded role probes endpoint n 1 in
    rw e (ended, some_reads, omega (arith, bound))

-- The relay gives an endpoint up as incomplete exactly if at every one of the attempts it handed back
-- a partial turn while it was live and its probe was not refused.
pub gives_up_iff :
    (role : Role) (probes : Bool) (retry_limit : ℤ) (endpoint : ℕ → Attempt)
    → ((take_turn role probes retry_limit endpoint).outcome
        ≡ stopped (incomplete_stop role) "PAUSED")
      ↔ (all_retried role probes endpoint (tries_of retry_limit) 1 ≡ true)
unfolding take_turn
gives_up_iff role probes retry_limit endpoint =
    let (n, e) = tries_pos retry_limit in rw e (loop_gives_up role probes endpoint n 1)
