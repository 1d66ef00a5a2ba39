-- ===== src/Relay/Delivery.antt =====
-- relay/kernel.py: handing one turn to an endpoint, and resolving what a crash left undecided.
-- The two endpoints are outside the code. What a `send` comes to, and what `holds` answers, are
-- arguments; `accepted` is the ids that the endpoints have taken, which the relay itself never sees.
-- The events of the relay's log are left out.
pub mod Once
pub mod Kept
pub mod Settled
pub mod AtMostOnce
use quaestor.Base.{
  ℕ, String, Bool, true, false, Option, none, some, List, [], ◌∷◌, head?, if◌then◌else◌,
}
use quaestor.Relay.Ledger.{
  Message, DeliveryState, confirmed_after_crash, delivered, redeliverable, unreconcilable,
  owner_held, observe, begin_delivery, complete_delivery, mark_delivery, pending_deliveries,
  undelivered,
}

-- What `send` comes to: an exception, or the death of this process, before or after the endpoint
-- took the message; a receipt that refuses it; a receipt that accepts it, with its native id.
pub data Sending : Type 0 where
  lost taken refused : Sending
  received : String → Sending

pub record World : Type 0 where
  pub ledger : List Message
  pub accepted : List String

-- _deliver, with the fresh delivery id; the second part is whether it succeeded.
unfoldable pub deliver : ℕ → String → Sending → Message → World → World × Bool
deliver now delivery_id sending m w =
    let started = begin_delivery m.message_id delivery_id w.ledger in
    elim sending [
      | lost ↦ (record w { ledger = started }, false)
      | refused ↦ (record w { ledger = started }, false)
      | taken ↦ (record { ledger = started; accepted = m.message_id ∷ w.accepted }, false)
      | received native_id ↦ (
        record {
          ledger = complete_delivery now m.message_id native_id delivered started;
          accepted = m.message_id ∷ w.accepted;
        },
        true,
      )
    ]

-- What asking an endpoint for an id comes to: it has no `holds`, or that raises, or it answers.
pub data Answer : Type 0 where
  unanswerable failed : Answer
  says : Bool → Answer

-- The rows of reconcile from one on; the second part is whether the relay goes on.
unfoldable pub reconcile_rows :
    ℕ → (String → Answer) → List Message → List Message → List Message × Bool
reconcile_rows now ask [] ledger = (ledger, true)
reconcile_rows now ask (row ∷ rest) ledger = elim (ask row.message_id) [
  | unanswerable ↦ (mark_delivery row.message_id unreconcilable ledger, false)
  | failed ↦ (mark_delivery row.message_id unreconcilable ledger, false)
  | says true ↦
      reconcile_rows now ask rest
        (complete_delivery now row.message_id row.native_id confirmed_after_crash ledger)
  | says false ↦ reconcile_rows now ask rest (mark_delivery row.message_id redeliverable ledger)
]

-- reconcile.
unfoldable pub reconcile : ℕ → (String → Answer) → List Message → List Message × Bool
reconcile now ask ledger = reconcile_rows now ask (pending_deliveries ledger) ledger

-- The delivery of step: the first turn in the queue; `none` is NO_PROGRESS.
unfoldable pub deliver_next : ℕ → String → Sending → World → Option (World × Bool)
deliver_next now delivery_id sending w = elim (head? (undelivered w.ledger)) [
  | none ↦ none
  | some m ↦ some (deliver now delivery_id sending m w)
]

-- A reply as step takes it into the ledger: a stale replay is left alone, and a directive that the
-- gate refuses is held.
unfoldable pub take_reply : Message → Bool → List Message → List Message
take_reply reply allowed ledger =
    let (after, fresh) = observe reply ledger in
    if fresh
    then (if allowed then after else mark_delivery reply.message_id owner_held after)
    else ledger

-- What the endpoints answer, at a time, of the ids that they have taken.
abbrev pub Endpoints : Type 0
Endpoints = ℕ → List String → String → Answer

-- What the relay does and what happens to it. A process that dies while it delivers is a `sent`
-- that was `lost` or `taken`; one that dies between the enqueueing of a refused directive and its
-- hold is a `replied` that was allowed.
pub data Happening : Type 0 where
  replied : Message → Bool → Happening
  sent : ℕ → String → Sending → Happening
  reconciled : ℕ → Happening

-- The world that a delivery leaves.
unfoldable pub or_stay : World → Option (World × Bool) → World
or_stay w none = w
or_stay w (some (w', ok)) = w'

unfoldable pub happen : Endpoints → Happening → World → World
unfolding or_stay
happen endpoints (replied reply allowed) w = record w { ledger = take_reply reply allowed w.ledger }
happen endpoints (sent now delivery_id sending) w =
    or_stay w (deliver_next now delivery_id sending w)
happen endpoints (reconciled now) w = record w {
  ledger = (reconcile now (endpoints now w.accepted) w.ledger).0;
}

unfoldable pub run : Endpoints → List Happening → World → World
run endpoints [] w = w
run endpoints (h ∷ rest) w = run endpoints rest (happen endpoints h w)
