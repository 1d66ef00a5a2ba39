-- ===== src/Relay/Ledger/Queue.antt =====
-- What is in the delivery queue.
use quaestor.Base.{
  String, ◌≡◌, refl, Bool, true, false, not, ◌&&◌, ◌||◌, Bool-cases, inl, inr, some, List, [], ◌∷◌,
  any, any-append, any-filter, filter, head?, arith, ◌==◌, eq_iff, eq_refl,
}
use quaestor.Relay.Ledger.{
  Message, is_queued, observe, update_message, observed_row, insert_by_exchange, by_exchange,
  undelivered,
}

any-insert_by_exchange :
    (p : Message → Bool) (m : Message) (l : List Message)
    → any p (insert_by_exchange m l) ≡ (p m || any p l)
unfolding insert_by_exchange
any-insert_by_exchange p m [] = refl
any-insert_by_exchange p m (x ∷ l) = ground (arith, any-insert_by_exchange p m l)

pub any-by_exchange : (p : Message → Bool) (l : List Message) → any p (by_exchange l) ≡ any p l
unfolding by_exchange
any-by_exchange p [] = refl
any-by_exchange p (m ∷ l) =
    ground (arith, any-insert_by_exchange p m (by_exchange l), any-by_exchange p l)

-- A queued row with an id.
abbrev pub queued_as : String → Message → Bool
queued_as id m = is_queued m.delivery_state && m.message_id == id

abbrev pub is_queued_id : String → List Message → Bool
is_queued_id id ledger = any (queued_as id) ledger

any_head :
    (p : Message → Bool) (l : List Message) (m : Message)
    → head? l ≡ some m
    → p m ≡ true
    → any p l ≡ true
any_head p [] m h e = ground arith
any_head p (x ∷ l) m h e = ground arith

-- What the kernel takes from the queue is queued.
pub undelivered_is_queued :
    (ledger : List Message) (m : Message)
    → head? (undelivered ledger) ≡ some m
    → is_queued_id m.message_id ledger ≡ true
unfolding undelivered
undelivered_is_queued ledger m h =
    let q = λ (x : Message). x.message_id == m.message_id in
    let p = λ (x : Message). is_queued x.delivery_state in
    ground (
      arith,
      any_head q (by_exchange (filter p ledger)) m h (eq_refl m.message_id),
      any-by_exchange q (filter p ledger),
      any-filter q p ledger,
    )

-- After an update that takes the rows of an id out of the queue or puts them in it.
pub queued-update :
    (id i : String) (f : Message → Message) (ledger : List Message)
    → ((m : Message) → (f m).message_id ≡ m.message_id)
    → ((m : Message) → is_queued (f m).delivery_state ≡ false)
    → is_queued_id i (update_message id f ledger) ≡ (is_queued_id i ledger && not (i == id))
unfolding update_message
queued-update id i f [] kept out = refl
queued-update id i f (m ∷ ledger) kept out = ground (
  arith,
  kept m,
  out m,
  eq_iff m.message_id id,
  eq_iff m.message_id i,
  eq_iff i id,
  queued-update id i f ledger kept out,
)

pub queued-update_other :
    (id i : String) (f : Message → Message) (ledger : List Message)
    → ((m : Message) → (f m).message_id ≡ m.message_id)
    → (i == id) ≡ false
    → is_queued_id i (update_message id f ledger) ≡ is_queued_id i ledger
unfolding update_message
queued-update_other id i f [] kept other = refl
queued-update_other id i f (m ∷ ledger) kept other = ground (
  arith,
  kept m,
  eq_iff m.message_id id,
  eq_iff m.message_id i,
  queued-update_other id i f ledger kept other,
)

abbrev pub is_known : String → List Message → Bool
is_known id ledger = any (λ m. m.message_id == id) ledger

pub known-update :
    (id i : String) (f : Message → Message) (ledger : List Message)
    → ((m : Message) → (f m).message_id ≡ m.message_id)
    → is_known i (update_message id f ledger) ≡ is_known i ledger
unfolding update_message
known-update id i f [] kept = refl
known-update id i f (m ∷ ledger) kept = ground (arith, kept m, known-update id i f ledger kept)

-- A turn that is observed is queued when it is new, and nothing else changes.
pub queued-observe :
    (i : String) (msg : Message) (ledger : List Message)
    → is_queued_id i (observe msg ledger).0
      ≡ (is_queued_id i ledger || (i == msg.message_id) && not (is_known i ledger))
unfolding observe observed_row
queued-observe i msg ledger = elim (Bool-cases (i == msg.message_id)) [
  | inl mine ↦
      let at : i ≡ msg.message_id = (eq_iff i msg.message_id).0 mine in
      rw at (
        ground (
          arith,
          any-append (queued_as msg.message_id) ledger (observed_row msg ∷ []),
          eq_refl msg.message_id,
        ))
  | inr other ↦ ground (
    arith,
    any-append (queued_as i) ledger (observed_row msg ∷ []),
    eq_iff msg.message_id i,
    eq_iff i msg.message_id,
    other,
  )
]

pub known-observe :
    (i : String) (msg : Message) (ledger : List Message)
    → is_known i (observe msg ledger).0 ≡ (is_known i ledger || i == msg.message_id)
unfolding observe observed_row
known-observe i msg ledger = elim (Bool-cases (i == msg.message_id)) [
  | inl mine ↦
      let at : i ≡ msg.message_id = (eq_iff i msg.message_id).0 mine in
      rw at (
        ground (
          arith,
          any-append (λ m. m.message_id == msg.message_id) ledger (observed_row msg ∷ []),
          eq_refl msg.message_id,
        ))
  | inr other ↦ ground (
    arith,
    any-append (λ m. m.message_id == i) ledger (observed_row msg ∷ []),
    eq_iff msg.message_id i,
    eq_iff i msg.message_id,
    other,
  )
]

pub known_of_queued :
    (id : String) (ledger : List Message)
    → is_queued_id id ledger ≡ true
    → is_known id ledger ≡ true
known_of_queued id [] h = ground (arith, h)
known_of_queued id (m ∷ ledger) h = ground (arith, known_of_queued id ledger, h)
