-- ===== src/Relay/Repetition/Looped.antt =====
-- A side is stopped exactly when its last turns are one turn.
use quaestor.Base.{
  ℕ, zero, suc, String, ◌≡◌, refl, ap, ◌∙◌, ◌↔◌, true, some, List, [], ◌∷◌, filter, map, length,
  elem, ltb, arith, eq_iff, eq_refl, Bool-cases, inl, inr, ◌≤◌,
}
use quaestor.Relay.Ledger.{Message, Direction}
use quaestor.Relay.Repetition.{
  first_rows, recent_digests, newest_first, is_of, digest_set, loop_stop, repetition_stop,
}

-- A list of n copies of one text.
unfoldable pub copies : ℕ → String → List String
copies zero d = []
copies (suc n) d = d ∷ copies n d

length-first_rows {ℓ} : {A : Type ℓ} (n : ℕ) (xs : List A) → length (first_rows n xs) ≤ n
unfolding first_rows
length-first_rows zero xs = ground arith
length-first_rows (suc n) [] = ground arith
length-first_rows (suc n) (x ∷ xs) = ground (arith, length-first_rows n xs)

length-map {ℓ} : {A : Type ℓ} (f : A → String) (xs : List A) → length (map f xs) ≡ length xs
length-map f [] = refl
length-map f (x ∷ xs) = ground (arith, length-map f xs)

length-copies : (n : ℕ) (d : String) → length (copies n d) ≡ n
unfolding copies
length-copies zero d = refl
length-copies (suc n) d = ground (arith, length-copies n d)

digest_set-empty : (xs : List String) → digest_set xs ≡ [] → xs ≡ []
unfolding digest_set
digest_set-empty [] h = refl
digest_set-empty (x ∷ xs) h = elim (Bool-cases (elem x (digest_set xs))) [
  | inl known ↦ ground (arith, h, known)
  | inr fresh ↦ ground (arith, h, fresh)
]

elem-single : (x d : String) → elem x (d ∷ []) ≡ true → x ≡ d
elem-single x d h = ground (arith, h, eq_iff x d)

digest_set-single :
    (xs : List String) (d : String) → digest_set xs ≡ d ∷ [] → xs ≡ copies (length xs) d
unfolding digest_set copies
digest_set-single [] d h = absurd (ground (arith, h))
digest_set-single (x ∷ xs) d h = elim (Bool-cases (elem x (digest_set xs))) [
  | inl known ↦
      let later : digest_set xs ≡ d ∷ [] = ground (arith, h, known) in
      let same : x ≡ d = elem-single x d (rw later at known) in
      ap (λ l. x ∷ l) (digest_set-single xs d later) ∙ ap (λ y. y ∷ copies (length xs) d) same
  | inr fresh ↦
      let made : x ∷ digest_set xs ≡ d ∷ [] = ground (arith, h, fresh) in
      let same : x ≡ d = ground (arith, made) in
      let last : xs ≡ [] = digest_set-empty xs (ground (arith, made)) in
      rw last (ap (λ y. y ∷ []) same)
]

digest_set-copies : (n : ℕ) (d : String) → digest_set (copies (suc n) d) ≡ d ∷ []
unfolding digest_set copies
digest_set-copies zero d = ground (arith, eq_refl d)
digest_set-copies (suc n) d = ground (arith, eq_refl d, digest_set-copies n d)

one-only : (xs : List String) → length xs ≡ 1 → (d : String) × (xs ≡ d ∷ [])
one-only [] h = absurd (ground (arith, h))
one-only (d ∷ []) h = (d, refl)
one-only (d ∷ e ∷ xs) h = absurd (ground (arith, h))

recent_digests-short :
    (ledger : List Message) (direction : Direction) (n : ℕ)
    → length (recent_digests ledger direction n) ≤ n
unfolding recent_digests
recent_digests-short ledger direction n =
    let rows = newest_first (filter (λ m. is_of direction m.direction) ledger) in
    ground (arith, length-map (λ m. m.content_digest) (first_rows n rows), length-first_rows n rows)

stopped_repeats :
    (repeat_limit : ℕ) (ledger : List Message) (direction : Direction)
    → repetition_stop repeat_limit ledger direction ≡ some (loop_stop direction)
    → (d : String) × (recent_digests ledger direction (suc repeat_limit)
        ≡ copies (suc repeat_limit) d)
unfolding repetition_stop
stopped_repeats k ledger direction h =
    let digests = recent_digests ledger direction (suc k) in
    let full : length digests ≡ suc k = elim (Bool-cases (ltb (length digests) (suc k))) [
      | inl few ↦ absurd (ground (arith, h, few))
      | inr enough ↦ ground (arith, enough, recent_digests-short ledger direction (suc k))
    ] in
    let single : length (digest_set digests) ≡ 1 = ground (arith, h, full) in
    let (d, one) = one-only (digest_set digests) single in
    (d, digest_set-single digests d one ∙ ap (λ n. copies n d) full)

repeats_stopped :
    (repeat_limit : ℕ) (ledger : List Message) (direction : Direction) (d : String)
    → recent_digests ledger direction (suc repeat_limit) ≡ copies (suc repeat_limit) d
    → repetition_stop repeat_limit ledger direction ≡ some (loop_stop direction)
unfolding repetition_stop
repeats_stopped k ledger direction d h =
    let single = digest_set-copies k d in rw h (rw single (ground (arith, length-copies (suc k) d)))

-- A side of the relay is stopped as repeating itself exactly when it has taken more turns than the
-- limit and its latest turns, one more than the limit, all have one digest.
pub stopped_iff_repeats :
    (repeat_limit : ℕ) (ledger : List Message) (direction : Direction)
    → (repetition_stop repeat_limit ledger direction ≡ some (loop_stop direction)) ↔ (
        (d : String) × (recent_digests ledger direction (suc repeat_limit)
          ≡ copies (suc repeat_limit) d))
stopped_iff_repeats k ledger direction =
    (stopped_repeats k ledger direction, λ h. repeats_stopped k ledger direction h.0 h.1)
