-- ===== src/Relay/Delivery/Kept.antt =====
-- What reconciliation and the updates of the ledger keep.
use quaestor.Base.{
  ℕ, String, ◌≡◌, ◌⊎◌, refl, sym, Bool, true, false, some, List, [], ◌∷◌, elem, arith, inl, inr,
}
use quaestor.Relay.Ledger.{
  Message, delivering, confirmed_after_crash, redeliverable, unreconcilable, owner_held, observe,
  begin_delivery, complete_delivery, mark_delivery,
}
use quaestor.Relay.Ledger.Queue.{queued-observe, known-observe}
use quaestor.Relay.Delivery.{Answer, unanswerable, failed, says, reconcile_rows, Endpoints}
use quaestor.Relay.Delivery.Once.{IsOnce, update-IsOnce, requeue-IsOnce}

-- The endpoints remember: where one answers whether it holds an id, the answer is right.
abbrev pub IsTruthful : Endpoints → Type 0
IsTruthful endpoints =
    (now : ℕ) (accepted : List String) (id : String) (b : Bool)
    → endpoints now accepted id ≡ says b
    → b ≡ elem id accepted

pub begin-IsOnce :
    (id delivery_id i : String) (ledger : List Message) (accepted : List String)
    → IsOnce i ledger accepted
    → IsOnce i (begin_delivery id delivery_id ledger) accepted
unfolding begin_delivery
begin-IsOnce id delivery_id i ledger accepted once =
    update-IsOnce id i (λ m. record m { delivery_state = delivering; delivery_id = delivery_id })
      ledger accepted (λ m. refl) (λ m. refl) once

pub confirm-IsOnce :
    (now : ℕ) (id native_id i : String) (ledger : List Message) (accepted : List String)
    → IsOnce i ledger accepted
    → IsOnce i (complete_delivery now id native_id confirmed_after_crash ledger) accepted
unfolding complete_delivery
confirm-IsOnce now id native_id i ledger accepted once =
    update-IsOnce id i
      (λ m. record m {
        delivery_state = confirmed_after_crash;
        delivered_at = some now;
        native_id = native_id;
      })
      ledger accepted (λ m. refl) (λ m. refl) once

unreconcilable-IsOnce :
    (id i : String) (ledger : List Message) (accepted : List String)
    → IsOnce i ledger accepted
    → IsOnce i (mark_delivery id unreconcilable ledger) accepted
unfolding mark_delivery
unreconcilable-IsOnce id i ledger accepted once =
    update-IsOnce id i (λ m. record m { delivery_state = unreconcilable }) ledger accepted
      (λ m. refl) (λ m. refl) once

pub hold-IsOnce :
    (id i : String) (ledger : List Message) (accepted : List String)
    → IsOnce i ledger accepted
    → IsOnce i (mark_delivery id owner_held ledger) accepted
unfolding mark_delivery
hold-IsOnce id i ledger accepted once =
    update-IsOnce id i (λ m. record m { delivery_state = owner_held }) ledger accepted (λ m. refl)
      (λ m. refl) once

redeliverable-IsOnce :
    (id i : String) (ledger : List Message) (accepted : List String)
    → elem id accepted ≡ false
    → IsOnce i ledger accepted
    → IsOnce i (mark_delivery id redeliverable ledger) accepted
unfolding mark_delivery
redeliverable-IsOnce id i ledger accepted unheld once =
    requeue-IsOnce id i (λ m. record m { delivery_state = redeliverable }) ledger accepted
      (λ m. refl) unheld once

Answer-cases : (a : Answer) → (a ≡ unanswerable) ⊎ ((a ≡ failed) ⊎ ((b : Bool) × (a ≡ says b)))
Answer-cases unanswerable = inl refl
Answer-cases failed = inr (inl refl)
Answer-cases (says b) = inr (inr (b, refl))

module _ (now : ℕ) (ask : String → Answer) (row : Message) (rest ledger : List Message) where
  rows_unanswerable :
      ask row.message_id ≡ unanswerable
      → (reconcile_rows now ask (row ∷ rest) ledger).0
        ≡ mark_delivery row.message_id unreconcilable ledger
  unfolding reconcile_rows
  rows_unanswerable e = ground (arith, e)

  rows_failed :
      ask row.message_id ≡ failed
      → (reconcile_rows now ask (row ∷ rest) ledger).0
        ≡ mark_delivery row.message_id unreconcilable ledger
  unfolding reconcile_rows
  rows_failed e = ground (arith, e)

  rows_held :
      ask row.message_id ≡ says true
      → (reconcile_rows now ask (row ∷ rest) ledger).0
        ≡ (reconcile_rows now ask rest
            (complete_delivery now row.message_id row.native_id confirmed_after_crash ledger)).0
  unfolding reconcile_rows
  rows_held e = ground (arith, e)

  rows_unheld :
      ask row.message_id ≡ says false
      → (reconcile_rows now ask (row ∷ rest) ledger).0
        ≡ (reconcile_rows now ask rest (mark_delivery row.message_id redeliverable ledger)).0
  unfolding reconcile_rows
  rows_unheld e = ground (arith, e)

pub rows-IsOnce :
    (endpoints : Endpoints) (now : ℕ) (rows ledger : List Message) (accepted : List String)
    (i : String)
    → IsTruthful endpoints
    → IsOnce i ledger accepted
    → IsOnce i (reconcile_rows now (endpoints now accepted) rows ledger).0 accepted
rows-IsOnce endpoints now [] ledger accepted i truthful once = unfold reconcile_rows in once
rows-IsOnce endpoints now (row ∷ rest) ledger accepted i truthful once =
    let ask = endpoints now accepted in
    elim (Answer-cases (ask row.message_id)) [
      | inl e ↦
          rw (rows_unanswerable now ask row rest ledger e)
            (unreconcilable-IsOnce row.message_id i ledger accepted once)
      | inr (inl e) ↦
          rw (rows_failed now ask row rest ledger e)
            (unreconcilable-IsOnce row.message_id i ledger accepted once)
      | inr (inr (true, e)) ↦ rw (rows_held now ask row rest ledger e) (
          rows-IsOnce endpoints now rest
            (complete_delivery now row.message_id row.native_id confirmed_after_crash ledger)
            accepted i truthful
            (confirm-IsOnce now row.message_id row.native_id i ledger accepted once))
      | inr (inr (false, e)) ↦ rw (rows_unheld now ask row rest ledger e) (
          rows-IsOnce endpoints now rest (mark_delivery row.message_id redeliverable ledger)
            accepted i truthful
            (redeliverable-IsOnce row.message_id i ledger accepted
              (sym (truthful now accepted row.message_id false e)) once))
    ]

pub observe-IsOnce :
    (reply : Message) (ledger : List Message) (accepted : List String) (i : String)
    → IsOnce i ledger accepted
    → IsOnce i (observe reply ledger).0 accepted
observe-IsOnce reply ledger accepted i (le, queued, unknown) = (
  le,
  λ h. ground (arith, queued-observe i reply ledger, queued, unknown, h),
  λ h. ground (arith, known-observe i reply ledger, unknown, h),
)
