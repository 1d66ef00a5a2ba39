-- ===== src/Strategic/MessageTable/Once.antt =====
-- A message is stored once, however often it is delivered.
use quaestor.Base.{
  ◌≡◌, refl, ap, ◌∙◌, String, Bool, true, false, Option, none, some, List, [], ◌∷◌, ◌++◌, any, find,
  find-append-none, map, arith, ◌==◌, eq_refl, Bool-cases, Option-cases, inl, inr,
}
use quaestor.Strategic.Messages.{Content, Message, validate, envelope}
use quaestor.Strategic.Rows.{StrategicStore}
use quaestor.Strategic.DecisionTable.{Classified}
use quaestor.Strategic.MessageTable.{
  sanitised, by_digest, stored_message, insert_message, new_or_known, message_row, is_valid,
  record_message, answered, answer_message,
}

pub data Command : Type 0 where
  deliver : Message → Command
  answer : String → String → Command

-- The store after a call that may raise.
unfoldable pub after : StrategicStore → Option (StrategicStore × (Bool × String)) → StrategicStore
after s none = s
after s (some (s', r)) = s'

unfoldable pub perform :
    (String → Classified) → (Content → String) → Command → StrategicStore → StrategicStore
unfolding after
perform classify digest (deliver m) s = after s (record_message classify digest m s)
perform classify digest (answer id answer_id) s = answer_message id answer_id s

unfoldable pub run :
    (String → Classified) → (Content → String) → List Command → StrategicStore → StrategicStore
unfolding perform
run classify digest [] s = s
run classify digest (c ∷ rest) s = run classify digest rest (perform classify digest c s)

-- The id of the row that has a digest.
pub id_of : Option Message → Option String
id_of none = none
id_of (some m) = some m.message_id

answered-content :
    (id answer_id : String) (m : Message) → (answered id answer_id m).content ≡ m.content
unfolding answered
answered-content id answer_id m = ground arith

answered-message_id :
    (id answer_id : String) (m : Message) → (answered id answer_id m).message_id ≡ m.message_id
unfolding answered
answered-message_id id answer_id m = ground arith

find-answered :
    (digest : Content → String) (d id answer_id : String) (rows : List Message)
    → id_of (find (λ m. digest m.content == d) (map (answered id answer_id) rows))
      ≡ id_of (find (λ m. digest m.content == d) rows)
unfolding answered id_of
find-answered digest d id answer_id [] = refl
find-answered digest d id answer_id (m ∷ rows) =
    rw (answered-content id answer_id m) (elim (Bool-cases (digest m.content == d)) [
      | inl here ↦ rw here (ap some (answered-message_id id answer_id m))
      | inr later ↦ rw later (find-answered digest d id answer_id rows)
    ])

id_of-append :
    (p : Message → Bool) (xs ys : List Message) (k : String)
    → id_of (find p xs) ≡ some k
    → id_of (find p (xs ++ ys)) ≡ some k
unfolding id_of
id_of-append p [] ys k h = absurd (ground (arith, h))
id_of-append p (x ∷ xs) ys k h = elim (Bool-cases (p x)) [
  | inl here ↦ rw here (rw here at h)
  | inr later ↦ rw later (id_of-append p xs ys k (rw later at h))
]

-- An insertion leaves the row that a digest has.
kept :
    (digest : Content → String) (found : Option Message) (m : Message) (s : StrategicStore)
    (d k : String)
    → id_of (by_digest digest d s) ≡ some k
    → id_of (by_digest digest d (new_or_known found m s).0) ≡ some k
unfolding new_or_known insert_message stored_message by_digest
kept digest (some known) m s d k at = at
kept digest none m s d k at =
    elim (Bool-cases (any (λ r. r.message_id == m.message_id) s.message)) [
      | inl taken ↦ rw taken at
      | inr free ↦ rw free (id_of-append (λ r. digest r.content == d) s.message (m ∷ []) k at)
    ]

refused_not_stored :
    (s' : StrategicStore)
    → Path (Option (StrategicStore × (Bool × String))) none (some (s', (true, "")))
    → false ≡ true
refused_not_stored s' h = ground (arith, h)

-- A row that was inserted has its digest's first id.
inserted_id :
    (digest : Content → String) (found : Option Message) (m : Message) (s s' : StrategicStore)
    → by_digest digest (digest m.content) s ≡ found
    → Path
        (Option (StrategicStore × (Bool × String)))
        (some (new_or_known found m s))
        (some (s', (true, "")))
    → id_of (by_digest digest (digest m.content) s') ≡ some m.message_id
unfolding new_or_known insert_message stored_message by_digest id_of
inserted_id digest (some known) m s s' at done = absurd (ground (arith, done))
inserted_id digest none m s s' at done =
    elim (Bool-cases (any (λ r. r.message_id == m.message_id) s.message)) [
      | inl taken ↦
          let e : Path (Option (StrategicStore × (Bool × String))) (some (s, (false, "")))
              (some (s', (true, ""))) =
            rw taken at done in
          absurd (ground (arith, e))
      | inr free ↦
          let e : Path (Option (StrategicStore × (Bool × String)))
              (some (stored_message m s, (true, ""))) (some (s', (true, ""))) =
            rw free at done in
          let same : stored_message m s ≡ s' = ground (arith, e) in
          rw (← same) (
            ap id_of (
              find-append-none (λ r. digest r.content == digest m.content) s.message m at
                (eq_refl (digest m.content))))
    ]

module _ (classify : String → Classified) (digest : Content → String) where
  deliver_keeps :
      (m : Message) (s : StrategicStore) (d k : String)
      → id_of (by_digest digest d s) ≡ some k
      → id_of (by_digest digest d (after s (record_message classify digest m s))) ≡ some k
  unfolding record_message after
  deliver_keeps m s d k at = elim (Bool-cases (is_valid (validate (some (envelope m.content))))) [
    | inr bad ↦ rw bad at
    | inl ok ↦ rw ok (
        kept digest (by_digest digest (digest (message_row classify m).content) s)
          (message_row classify m) s d k at)
  ]

  perform_keeps :
      (c : Command) (s : StrategicStore) (d k : String)
      → id_of (by_digest digest d s) ≡ some k
      → id_of (by_digest digest d (perform classify digest c s)) ≡ some k
  unfolding perform answer_message by_digest
  perform_keeps (deliver m) s d k at = deliver_keeps m s d k at
  perform_keeps (answer id answer_id) s d k at = find-answered digest d id answer_id s.message ∙ at

  run_keeps :
      (h : List Command) (s : StrategicStore) (d k : String)
      → id_of (by_digest digest d s) ≡ some k
      → id_of (by_digest digest d (run classify digest h s)) ≡ some k
  unfolding run
  run_keeps [] s d k at = at
  run_keeps (c ∷ rest) s d k at =
      run_keeps rest (perform classify digest c s) d k (perform_keeps c s d k at)

  -- Where a digest is known, a message with it is not stored.
  known_refused :
      (m : Message) (s : StrategicStore) (k : String)
      → is_valid (validate (some (envelope m.content))) ≡ true
      → id_of (by_digest digest (digest (sanitised classify m.content)) s) ≡ some k
      → record_message classify digest m s ≡ some (s, (false, k))
  unfolding record_message message_row new_or_known id_of
  known_refused m s k ok at =
      elim (Option-cases (by_digest digest (digest (sanitised classify m.content)) s)) [
        | inl missing ↦
            let e : Path (Option String) none (some k) = rw missing at at in
            absurd (ground (arith, e))
        | inr (row, there) ↦
            let e : Path (Option String) (some row.message_id) (some k) = rw there at at in
            let same : row.message_id ≡ k = ground (arith, e) in
            rw (ok, there) (ap (λ x. some (s, (false, x))) same)
      ]

  stored_cases :
      (m : Message) (s s' : StrategicStore)
      → record_message classify digest m s ≡ some (s', (true, ""))
      → (is_valid (validate (some (envelope m.content))) ≡ true)
        × (id_of (by_digest digest (digest (sanitised classify m.content)) s') ≡ some m.message_id)
  unfolding record_message
  stored_cases m s s' done = elim (Bool-cases (is_valid (validate (some (envelope m.content))))) [
    | inr bad ↦ absurd (ground (arith, refused_not_stored s' (rw bad at done)))
    | inl ok ↦ (
      ok,
      inserted_id digest (by_digest digest (digest (message_row classify m).content) s)
          (message_row classify m) s s' refl (rw ok at done),
    )
  ]

-- Once a message is stored, a message with the same content is not stored again, whatever messages
-- and answers came in between: the store stays as it is, and the id that is returned is the first one.
pub redelivered_is_recognised :
    (classify : String → Classified) (digest : Content → String) (m again : Message)
    (s s' : StrategicStore) (h : List Command)
    → record_message classify digest m s ≡ some (s', (true, ""))
    → again.content ≡ m.content
    → record_message classify digest again (run classify digest h s')
      ≡ some (run classify digest h s', (false, m.message_id))
redelivered_is_recognised classify digest m again s s' h done same =
    let (ok, there) = stored_cases classify digest m s s' done in
    known_refused classify digest again (run classify digest h s') m.message_id (rw same ok) (
      rw same
        (run_keeps classify digest h s' (digest (sanitised classify m.content)) m.message_id there))
