-- ===== src/Relay/Ledger.antt =====
-- relay/state.py: the delivery ledger of one relay, the rows of relay_message in the order of
-- insertion. The provenance, a JSON text that nothing reads back, is left out.
pub mod Queue
use quaestor.Base.{
  ℕ, String, Bool, true, false, ◌&&◌, ◌||◌, Option, none, some, List, [], ◌∷◌, ◌++◌, any, filter,
  find, length, map, leb, ltb, ◌==◌, if◌then◌else◌,
}

-- The delivery ledger states.
pub data DeliveryState : Type 0 where
  observed delivering delivered redeliverable confirmed_after_crash unreconcilable owner_held :
      DeliveryState

-- FROM_ORCHESTRATOR, FROM_EXECUTION, FROM_RELAY (relay/contracts.py).
pub data Direction : Type 0 where
  from_orchestrator from_execution from_relay : Direction

pub record Message : Type 0 where
  pub message_id : String
  pub direction : Direction
  pub content_digest : String
  pub chars : ℕ
  pub observed_at : ℕ
  pub delivered_at : Option ℕ
  pub delivery_state : DeliveryState
  pub delivery_id : String
  pub native_id : String
  pub exchange_no : ℕ
  pub causal_parent : String
  pub text : String

abbrev pub is_delivering : DeliveryState → Bool
is_delivering delivering = true
is_delivering _ = false

-- `delivery_state IN (OBSERVED, REDELIVERABLE)`.
abbrev pub is_queued : DeliveryState → Bool
is_queued observed = true
is_queued redeliverable = true
is_queued _ = false

-- `delivery_state IN (DELIVERED, CONFIRMED_AFTER_CRASH)`.
abbrev pub is_delivered : DeliveryState → Bool
is_delivered delivered = true
is_delivered confirmed_after_crash = true
is_delivered _ = false

-- seen.
unfoldable pub seen : List Message → String → Option Message
seen ledger id = find (λ m. m.message_id == id) ledger

-- The row that the INSERT writes.
unfoldable pub observed_row : Message → Message
observed_row msg = record msg {
  delivered_at = none;
  delivery_state = observed;
  delivery_id = "";
  native_id = "";
}

-- observe: `INSERT OR IGNORE`, and whether the turn was new.
unfoldable pub observe : Message → List Message → List Message × Bool
observe msg ledger =
    if any (λ m. m.message_id == msg.message_id) ledger
    then (ledger, false)
    else (ledger ++ observed_row msg ∷ [], true)

-- `UPDATE relay_message SET ... WHERE message_id=?`.
unfoldable pub update_message : String → (Message → Message) → List Message → List Message
update_message id f ledger = map (λ m. if m.message_id == id then f m else m) ledger

unfoldable pub begin_delivery : String → String → List Message → List Message
begin_delivery id delivery_id ledger =
    update_message id (λ m. record m { delivery_state = delivering; delivery_id = delivery_id })
      ledger

unfoldable pub complete_delivery : ℕ → String → String → DeliveryState → List Message → List Message
complete_delivery now id native_id state ledger =
    update_message id
      (λ m. record m { delivery_state = state; delivered_at = some now; native_id = native_id })
      ledger

unfoldable pub mark_delivery : String → DeliveryState → List Message → List Message
mark_delivery id state ledger = update_message id (λ m. record m { delivery_state = state }) ledger

-- `ORDER BY exchange_no`, rows of one exchange in the order of insertion.
unfoldable pub insert_by_exchange : Message → List Message → List Message
insert_by_exchange m [] = m ∷ []
insert_by_exchange m (x ∷ rest) =
    let inner = insert_by_exchange m rest in
    if leb m.exchange_no x.exchange_no then m ∷ x ∷ rest else x ∷ inner

unfoldable pub by_exchange : List Message → List Message
by_exchange [] = []
by_exchange (m ∷ rest) = insert_by_exchange m (by_exchange rest)

-- pending_deliveries: what a crash left in the middle of a delivery.
unfoldable pub pending_deliveries : List Message → List Message
pending_deliveries ledger = by_exchange (filter (λ m. is_delivering m.delivery_state) ledger)

unfoldable pub undelivered : List Message → List Message
undelivered ledger = by_exchange (filter (λ m. is_queued m.delivery_state) ledger)

unfoldable pub delivered_ids : List Message → List String
delivered_ids ledger = map (λ m. m.message_id) (filter (λ m. is_delivered m.delivery_state) ledger)

pub record Counts : Type 0 where
  pub observed : ℕ
  pub delivered : ℕ

unfoldable pub counts : List Message → Counts
counts ledger = record {
  observed = length ledger;
  delivered = length (filter (λ m. is_delivered m.delivery_state) ledger);
}
