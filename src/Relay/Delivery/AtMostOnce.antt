-- ===== src/Relay/Delivery/AtMostOnce.antt =====
-- Every history of deliveries keeps each turn from being taken twice.
use quaestor.Base.{
  ℕ, ◌≤◌, String, ◌≡◌, refl, Bool, true, false, none, some, List, [], ◌∷◌, head?, arith,
  Option-cases, inl, inr, if◌then◌else◌,
}
use quaestor.Relay.Ledger.{
  Message, delivering, delivered, observe, begin_delivery, complete_delivery, pending_deliveries,
  undelivered,
}
use quaestor.Relay.Ledger.Queue.{
  is_queued_id, queued-update, known-update, undelivered_is_queued, known_of_queued,
}
use quaestor.Relay.Delivery.{
  Sending, lost, taken, refused, received, World, deliver, reconcile, deliver_next, take_reply,
  Endpoints, Happening, replied, sent, reconciled, or_stay, happen, run,
}
use quaestor.Relay.Delivery.Once.{times, IsOnce, update-IsOnce, taken-IsOnce}
use quaestor.Relay.Delivery.Kept.{
  IsTruthful, begin-IsOnce, hold-IsOnce, rows-IsOnce, observe-IsOnce,
}

-- Whichever of the three ledgers two tests choose.
kept_by_tests :
    (fresh allowed : Bool) (P : List Message → Type 0) {old new held : List Message}
    → P old
    → P new
    → P held
    → P (if fresh then (if allowed then new else held) else old)
kept_by_tests true true P o n h = n
kept_by_tests true false P o n h = h
kept_by_tests false allowed P o n h = o

take_reply-IsOnce :
    (reply : Message) (allowed : Bool) (ledger : List Message) (accepted : List String) (i : String)
    → IsOnce i ledger accepted
    → IsOnce i (take_reply reply allowed ledger) accepted
unfolding take_reply
take_reply-IsOnce reply allowed ledger accepted i once =
    let seen = observe-IsOnce reply ledger accepted i once in
    let held = hold-IsOnce reply.message_id i (observe reply ledger).0 accepted seen in
    kept_by_tests (observe reply ledger).1 allowed (λ l. IsOnce i l accepted) once seen held

begun-IsOnce :
    (id delivery_id i : String) (ledger : List Message) (accepted : List String)
    → is_queued_id id ledger ≡ true
    → IsOnce i ledger accepted
    → IsOnce i (begin_delivery id delivery_id ledger) (id ∷ accepted)
unfolding begin_delivery
begun-IsOnce id delivery_id i ledger accepted ready once =
    let f = λ (m : Message). record m { delivery_state = delivering; delivery_id = delivery_id } in
    taken-IsOnce id i ledger (begin_delivery id delivery_id ledger) accepted ready
      (queued-update id i f ledger (λ m. refl) (λ m. refl)) (known-update id i f ledger (λ m. refl))
      (known_of_queued id ledger ready) once

delivered-IsOnce :
    (now : ℕ) (id delivery_id native i : String) (ledger : List Message) (accepted : List String)
    → is_queued_id id ledger ≡ true
    → IsOnce i ledger accepted
    → IsOnce i
        (complete_delivery now id native delivered (begin_delivery id delivery_id ledger))
        (id ∷ accepted)
unfolding complete_delivery
delivered-IsOnce now id delivery_id native i ledger accepted ready once =
    update-IsOnce id i
      (λ m. record m { delivery_state = delivered; delivered_at = some now; native_id = native })
      (begin_delivery id delivery_id ledger) (id ∷ accepted) (λ m. refl) (λ m. refl)
      (begun-IsOnce id delivery_id i ledger accepted ready once)

deliver-IsOnce :
    (now : ℕ) (delivery_id : String) (sending : Sending) (m : Message) (w : World) (i : String)
    → is_queued_id m.message_id w.ledger ≡ true
    → IsOnce i w.ledger w.accepted
    → let w' = (deliver now delivery_id sending m w).0 in IsOnce i w'.ledger w'.accepted
unfolding deliver
deliver-IsOnce now delivery_id lost m w i ready once =
    begin-IsOnce m.message_id delivery_id i w.ledger w.accepted once
deliver-IsOnce now delivery_id refused m w i ready once =
    begin-IsOnce m.message_id delivery_id i w.ledger w.accepted once
deliver-IsOnce now delivery_id taken m w i ready once =
    begun-IsOnce m.message_id delivery_id i w.ledger w.accepted ready once
deliver-IsOnce now delivery_id (received native) m w i ready once =
    delivered-IsOnce now m.message_id delivery_id native i w.ledger w.accepted ready once

module _ (now : ℕ) (delivery_id : String) (sending : Sending) (w : World) where
  idle :
      head? (undelivered w.ledger) ≡ none → or_stay w (deliver_next now delivery_id sending w) ≡ w
  unfolding deliver_next or_stay
  idle e = ground (arith, e)

  busy :
      (m : Message)
      → head? (undelivered w.ledger) ≡ some m
      → or_stay w (deliver_next now delivery_id sending w) ≡ (deliver now delivery_id sending m w).0
  unfolding deliver_next or_stay
  busy m e = ground (arith, e)

  deliver_next-IsOnce :
      (i : String)
      → IsOnce i w.ledger w.accepted
      → let w' = or_stay w (deliver_next now delivery_id sending w) in
        IsOnce i w'.ledger w'.accepted
  deliver_next-IsOnce i once = elim (Option-cases (head? (undelivered w.ledger))) [
    | inl e ↦ rw (idle e) once
    | inr (m, e) ↦
        rw (busy m e)
          (deliver-IsOnce now delivery_id sending m w i (undelivered_is_queued w.ledger m e) once)
  ]

happen-IsOnce :
    (endpoints : Endpoints) (h : Happening) (w : World) (i : String)
    → IsTruthful endpoints
    → IsOnce i w.ledger w.accepted
    → let w' = happen endpoints h w in IsOnce i w'.ledger w'.accepted
unfolding happen
happen-IsOnce endpoints (replied reply allowed) w i truthful once =
    take_reply-IsOnce reply allowed w.ledger w.accepted i once
happen-IsOnce endpoints (sent now delivery_id sending) w i truthful once =
    deliver_next-IsOnce now delivery_id sending w i once
happen-IsOnce endpoints (reconciled now) w i truthful once =
    unfold reconcile in
    rows-IsOnce endpoints now (pending_deliveries w.ledger) w.ledger w.accepted i truthful once

run-IsOnce :
    (endpoints : Endpoints) (history : List Happening) (w : World) (i : String)
    → IsTruthful endpoints
    → IsOnce i w.ledger w.accepted
    → let w' = run endpoints history w in IsOnce i w'.ledger w'.accepted
unfolding run
run-IsOnce endpoints [] w i truthful once = once
run-IsOnce endpoints (h ∷ rest) w i truthful once =
    run-IsOnce endpoints rest (happen endpoints h w) i truthful
      (happen-IsOnce endpoints h w i truthful once)

-- If an endpoint that answers whether it holds an id answers rightly, then in every history of
-- replies, deliveries, crashes and reconciliations from an empty ledger on, no turn is taken twice.
pub accepted_at_most_once :
    (endpoints : Endpoints) (history : List Happening) (id : String)
    → IsTruthful endpoints
    → times id (run endpoints history (record { ledger = []; accepted = [] })).accepted ≤ 1
accepted_at_most_once endpoints history id truthful =
    (run-IsOnce endpoints history (record { ledger = []; accepted = [] }) id truthful
      (omega arith, λ h. refl, λ h. refl)).0
