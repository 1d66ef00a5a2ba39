-- ===== src/Relay/Delivery/Once.antt =====
-- No endpoint accepts a turn twice, through crashes, refusals, reconciliations and replays.
use quaestor.Base.{
  ℕ, ◌≤◌, String, ◌≡◌, refl, true, false, not, ◌&&◌, List, [], ◌∷◌, elem, filter, length, arith,
  Bool-cases, inl, inr, ◌==◌, eq_iff,
}
use quaestor.Relay.Ledger.{Message, is_queued, update_message}
use quaestor.Relay.Ledger.Queue.{
  is_queued_id, is_known, queued-update, queued-update_other, known-update,
}

-- How many times the endpoints have taken an id.
abbrev pub times : String → List String → ℕ
times id accepted = length (filter (λ x. x == id) accepted)

times-unheld :
    (id : String) (accepted : List String) → elem id accepted ≡ false → times id accepted ≡ 0
times-unheld id [] h = refl
times-unheld id (x ∷ accepted) h =
    ground (arith, eq_iff x id, eq_iff id x, times-unheld id accepted)

-- An id is taken at most once, and not yet while it is in the queue or unknown to the ledger.
abbrev pub IsOnce : String → List Message → List String → Type 0
IsOnce i ledger accepted =
    (times i accepted ≤ 1)
    × (is_queued_id i ledger ≡ true → times i accepted ≡ 0)
    × (is_known i ledger ≡ false → times i accepted ≡ 0)

-- An update that takes the rows of an id out of the queue keeps the invariant.
pub update-IsOnce :
    (id i : String) (f : Message → Message) (ledger : List Message) (accepted : List String)
    → ((m : Message) → (f m).message_id ≡ m.message_id)
    → ((m : Message) → is_queued (f m).delivery_state ≡ false)
    → IsOnce i ledger accepted
    → IsOnce i (update_message id f ledger) accepted
update-IsOnce id i f ledger accepted kept out (le, queued, unknown) = (
  le,
  λ h. ground (arith, queued-update id i f ledger kept out, queued, h),
  λ h. ground (arith, known-update id i f ledger kept, unknown, h),
)

-- Putting an id that no endpoint has taken back into the queue keeps it too.
pub requeue-IsOnce :
    (id i : String) (f : Message → Message) (ledger : List Message) (accepted : List String)
    → ((m : Message) → (f m).message_id ≡ m.message_id)
    → elem id accepted ≡ false
    → IsOnce i ledger accepted
    → IsOnce i (update_message id f ledger) accepted
requeue-IsOnce id i f ledger accepted kept unheld (le, queued, unknown) = (
  le,
  λ h. elim (Bool-cases (i == id)) [
    | inl mine ↦ let at : i ≡ id = (eq_iff i id).0 mine in times-unheld i accepted (rw at unheld)
    | inr other ↦ ground (arith, queued-update_other id i f ledger kept other, queued, h)
  ],
  λ h. ground (arith, known-update id i f ledger kept, unknown, h),
)

-- A turn out of the queue that is taken once more than never.
pub taken-IsOnce :
    (id i : String) (before after : List Message) (accepted : List String)
    → is_queued_id id before ≡ true
    → is_queued_id i after ≡ (is_queued_id i before && not (i == id))
    → is_known i after ≡ is_known i before
    → is_known id before ≡ true
    → IsOnce i before accepted
    → IsOnce i after (id ∷ accepted)
taken-IsOnce id i before after accepted ready left same known (le, queued, unknown) =
    elim (Bool-cases (i == id)) [
      | inl mine ↦
          let at : i ≡ id = (eq_iff i id).0 mine in
          let zero_times : times i accepted ≡ 0 = queued (rw at ready) in
          let known_i : is_known i before ≡ true = rw at known in
          (
            ground (arith, zero_times),
            λ h. ground (arith, left, mine, h),
            λ h. ground (arith, same, known_i, h),
          )
      | inr other ↦ (
        ground (arith, eq_iff id i, eq_iff i id, other, le),
        λ h. ground (arith, eq_iff id i, eq_iff i id, other, left, queued, h),
        λ h. ground (arith, eq_iff id i, eq_iff i id, other, same, unknown, h),
      )
    ]
