-- ===== src/Relay/Delivery/Settled.antt =====
-- A reconciliation that is answered leaves nothing undecided.
use quaestor.Base.{
  ℕ, String, ◌≡◌, refl, ◌∙◌, ◌⊎◌, sym, ap, Bool, true, false, not, ◌&&◌, some, List, [], ◌∷◌, any,
  any-filter, elem, filter, map, arith, inl, inr, ◌==◌, eq_refl,
}
use quaestor.Relay.Ledger.{
  Message, is_delivering, confirmed_after_crash, redeliverable, update_message, complete_delivery,
  mark_delivery, by_exchange, pending_deliveries,
}
use quaestor.Relay.Ledger.Queue.{any-by_exchange}
use quaestor.Relay.Delivery.{Answer, says, reconcile_rows, reconcile}

abbrev delivering_row : Message → Bool
delivering_row m = is_delivering m.delivery_state

abbrev ids_of : List Message → List String
ids_of rows = map (λ m. m.message_id) rows

-- A row in the middle of its delivery whose id is not listed.
abbrev undecided : List String → List Message → Bool
undecided ids ledger = any (λ m. delivering_row m && not (elem m.message_id ids)) ledger

undecided-update :
    (id : String) (ids : List String) (f : Message → Message) (ledger : List Message)
    → ((m : Message) → (f m).message_id ≡ m.message_id)
    → ((m : Message) → delivering_row (f m) ≡ false)
    → undecided ids (update_message id f ledger) ≡ undecided (id ∷ ids) ledger
unfolding update_message
undecided-update id ids f [] kept out = refl
undecided-update id ids f (m ∷ ledger) kept out =
    ground (arith, kept m, out m, undecided-update id ids f ledger kept out)

undecided-confirmed :
    (now : ℕ) (id native : String) (ids : List String) (ledger : List Message)
    → undecided ids (complete_delivery now id native confirmed_after_crash ledger)
      ≡ undecided (id ∷ ids) ledger
unfolding complete_delivery
undecided-confirmed now id native ids ledger =
    undecided-update id ids
      (λ m. record m {
        delivery_state = confirmed_after_crash;
        delivered_at = some now;
        native_id = native;
      })
      ledger (λ m. refl) (λ m. refl)

undecided-redeliverable :
    (id : String) (ids : List String) (ledger : List Message)
    → undecided ids (mark_delivery id redeliverable ledger) ≡ undecided (id ∷ ids) ledger
unfolding mark_delivery
undecided-redeliverable id ids ledger =
    undecided-update id ids (λ m. record m { delivery_state = redeliverable }) ledger (λ m. refl)
      (λ m. refl)

-- The order in which ids are listed does not matter.
undecided-same :
    (ids other : List String) (ledger : List Message)
    → ((s : String) → elem s ids ≡ elem s other)
    → undecided ids ledger ≡ undecided other ledger
undecided-same ids other [] same = refl
undecided-same ids other (m ∷ ledger) same =
    ground (arith, same m.message_id, undecided-same ids other ledger same)

abbrev Answered : (String → Answer) → Type 0
Answered ask = (id : String) → (b : Bool) × (ask id ≡ says b)

module _ (now : ℕ) (ask : String → Answer) (row : Message) (rest ledger : List Message) where
  row_held :
      ask row.message_id ≡ says true
      → reconcile_rows now ask (row ∷ rest) ledger
        ≡ reconcile_rows now ask rest
            (complete_delivery now row.message_id row.native_id confirmed_after_crash ledger)
  unfolding reconcile_rows
  row_held e = ground (arith, e)

  row_unheld :
      ask row.message_id ≡ says false
      → reconcile_rows now ask (row ∷ rest) ledger
        ≡ reconcile_rows now ask rest (mark_delivery row.message_id redeliverable ledger)
  unfolding reconcile_rows
  row_unheld e = ground (arith, e)

says-cases : (a : Answer) (b : Bool) → a ≡ says b → (a ≡ says true) ⊎ (a ≡ says false)
says-cases a true e = inl e
says-cases a false e = inr e

answer-cases :
    (ask : String → Answer) (id : String)
    → Answered ask
    → (ask id ≡ says true) ⊎ (ask id ≡ says false)
answer-cases ask id answered = says-cases (ask id) (answered id).0 (answered id).1

-- What the rows of a reconciliation leave.
abbrev Settles : (String → Answer) → ℕ → List Message → List Message → Type 0
Settles ask now rows ledger =
    ((reconcile_rows now ask rows ledger).1 ≡ true)
    × (undecided [] (reconcile_rows now ask rows ledger).0 ≡ undecided (ids_of rows) ledger)

rows_settle :
    (now : ℕ) (ask : String → Answer) (rows ledger : List Message)
    → Answered ask
    → Settles ask now rows ledger
rows_settle now ask [] ledger answered = unfold reconcile_rows in (refl, refl)
rows_settle now ask (row ∷ rest) ledger answered = elim (answer-cases ask row.message_id answered) [
  | inl e ↦
      let confirmed =
        complete_delivery now row.message_id row.native_id confirmed_after_crash ledger in
      let (on, left) = rows_settle now ask rest confirmed answered in
      let same = row_held now ask row rest ledger e in
      (
        ap (λ r. r.1) same ∙ on,
        ap (λ r. undecided [] r.0) same
            ∙ left
            ∙ undecided-confirmed now row.message_id row.native_id (ids_of rest) ledger,
      )
  | inr e ↦
      let again = mark_delivery row.message_id redeliverable ledger in
      let (on, left) = rows_settle now ask rest again answered in
      let same = row_unheld now ask row rest ledger e in
      (
        ap (λ r. r.1) same ∙ on,
        ap (λ r. undecided [] r.0) same
            ∙ left
            ∙ undecided-redeliverable row.message_id (ids_of rest) ledger,
      )
]

-- Whatever has a property in a part of a list has it in the list.
within :
    (p : Message → Bool) (l whole : List Message)
    → ((q : Message → Bool) → any q l ≡ true → any q whole ≡ true)
    → any (λ m. p m && not (any (λ x. p x && m.message_id == x.message_id) whole)) l ≡ false
within p [] whole inside = refl
within p (m ∷ l) whole inside = ground (
  arith,
  eq_refl m.message_id,
  inside (λ x. p x && m.message_id == x.message_id),
  within p l whole (λ q h. inside q (ground (arith, h))),
)

elem-ids_of :
    (s : String) (rows : List Message) → elem s (ids_of rows) ≡ any (λ x. s == x.message_id) rows
elem-ids_of s [] = refl
elem-ids_of s (m ∷ rows) = ground (arith, elem-ids_of s rows)

all_listed :
    (ledger l : List Message)
    → undecided (ids_of (pending_deliveries ledger)) l
      ≡ any
          (λ m.
            delivering_row m
            && not (any (λ x. delivering_row x && m.message_id == x.message_id) ledger))
          l
unfolding pending_deliveries
all_listed ledger [] = refl
all_listed ledger (m ∷ l) = ground (
  arith,
  elem-ids_of m.message_id (by_exchange (filter delivering_row ledger)),
  any-by_exchange (λ x. m.message_id == x.message_id) (filter delivering_row ledger),
  any-filter (λ x. m.message_id == x.message_id) delivering_row ledger,
  all_listed ledger l,
)

undecided-nothing : (ledger : List Message) → undecided [] ledger ≡ any delivering_row ledger
undecided-nothing [] = refl
undecided-nothing (m ∷ ledger) = ground (arith, undecided-nothing ledger)

-- When the endpoints answer for every id, a reconciliation lets the relay go on and leaves no turn
-- in the middle of its delivery.
pub reconcile_settles :
    (now : ℕ) (ask : String → Answer) (ledger : List Message)
    → ((id : String) → (b : Bool) × (ask id ≡ says b))
    → ((reconcile now ask ledger).1 ≡ true)
      × (any (λ m. is_delivering m.delivery_state) (reconcile now ask ledger).0 ≡ false)
unfolding reconcile
reconcile_settles now ask ledger answered =
    let (on, left) = rows_settle now ask (pending_deliveries ledger) ledger answered in
    (
      on,
      sym (undecided-nothing (reconcile_rows now ask (pending_deliveries ledger) ledger).0)
          ∙ left
          ∙ all_listed ledger ledger
          ∙ within delivering_row ledger ledger (λ q h. h),
    )
