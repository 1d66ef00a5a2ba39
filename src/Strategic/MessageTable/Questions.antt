-- ===== src/Strategic/MessageTable/Questions.antt =====
-- What an answer does to the open questions of a lane.
use quaestor.Base.{
  ◌≡◌, refl, ap, ◌∙◌, String, true, false, not, List, [], ◌∷◌, filter, map, leb, arith, ◌==◌,
  Bool-cases, inl, inr,
}
use quaestor.Strategic.Messages.{Message}
use quaestor.Strategic.Rows.{StrategicStore}
use quaestor.Strategic.MessageTable.{
  answered, answer_message, insert_by_time, by_time, messages, is_open, open_questions,
}

module _ (id answer_id : String) where
  answered_kept :
      (m : Message)
      → ((answered id answer_id m).content ≡ m.content)
        × ((answered id answer_id m).created_at ≡ m.created_at)
  unfolding answered
  answered_kept m = (ground arith, ground arith)

  lane-answered :
      (lane_id : String) (rows : List Message)
      → filter (λ m. m.content.lane_id == lane_id) (map (answered id answer_id) rows)
        ≡ map (answered id answer_id) (filter (λ m. m.content.lane_id == lane_id) rows)
  lane-answered lane_id [] = refl
  lane-answered lane_id (m ∷ rows) =
      let same = ap (λ c. c.lane_id == lane_id) (answered_kept m).0 in
      elim (Bool-cases (m.content.lane_id == lane_id)) [
        | inl mine ↦
            rw (same ∙ mine, mine) (ap (◌∷◌ (answered id answer_id m)) (lane-answered lane_id rows))
        | inr other ↦ rw (same ∙ other, other) (lane-answered lane_id rows)
      ]

  insert-answered :
      (m : Message) (rows : List Message)
      → insert_by_time (answered id answer_id m) (map (answered id answer_id) rows)
        ≡ map (answered id answer_id) (insert_by_time m rows)
  unfolding insert_by_time
  insert-answered m [] = refl
  insert-answered m (x ∷ rows) =
      let same : leb (answered id answer_id m).created_at (answered id answer_id x).created_at
          ≡ leb m.created_at x.created_at =
        ground (arith, answered_kept m, answered_kept x) in
      elim (Bool-cases (leb m.created_at x.created_at)) [
        | inl first ↦ rw (same ∙ first, first) refl
        | inr later ↦
            rw (same ∙ later, later) (ap (◌∷◌ (answered id answer_id x)) (insert-answered m rows))
      ]

  by_time-answered :
      (rows : List Message)
      → by_time (map (answered id answer_id) rows) ≡ map (answered id answer_id) (by_time rows)
  unfolding by_time
  by_time-answered [] = refl
  by_time-answered (m ∷ rows) = rw (by_time-answered rows) (insert-answered m (by_time rows))

  now_closed :
      (m : Message)
      → (m.message_id == id) ≡ true
      → (answer_id == "") ≡ false
      → is_open (answered id answer_id m) ≡ false
  unfolding is_open answered
  now_closed m mine said = rw mine (ground (arith, said))

  untouched : (m : Message) → (m.message_id == id) ≡ false → answered id answer_id m ≡ m
  unfolding answered
  untouched m other = rw other refl

  open-answered :
      (rows : List Message)
      → (answer_id == "") ≡ false
      → filter is_open (map (answered id answer_id) rows)
        ≡ filter (λ m. not (m.message_id == id)) (filter is_open rows)
  open-answered [] said = refl
  open-answered (m ∷ rows) said = elim (Bool-cases (m.message_id == id)) [
    | inl mine ↦
        let closed : is_open (answered id answer_id m) ≡ false = now_closed m mine said in
        elim (Bool-cases (is_open m)) [
          | inl asked ↦ rw (closed, asked, mine) (open-answered rows said)
          | inr quiet ↦ rw (closed, quiet) (open-answered rows said)
        ]
    | inr other ↦ rw (untouched m other) (elim (Bool-cases (is_open m)) [
      | inl asked ↦ rw (asked, other) (ap (◌∷◌ m) (open-answered rows said))
      | inr quiet ↦ rw quiet (open-answered rows said)
    ])
  ]

-- An answer that is not empty closes the questions with its id, on every lane, and leaves the others
-- open in their order.
pub answer_closes :
    (id answer_id lane_id : String) (s : StrategicStore)
    → (answer_id == "") ≡ false
    → open_questions lane_id (answer_message id answer_id s)
      ≡ filter (λ m. not (m.message_id == id)) (open_questions lane_id s)
unfolding open_questions messages answer_message
answer_closes id answer_id lane_id s said = rw (lane-answered id answer_id lane_id s.message) (
    rw (by_time-answered id answer_id (filter (λ m. m.content.lane_id == lane_id) s.message)) (
      open-answered id answer_id (by_time (filter (λ m. m.content.lane_id == lane_id) s.message))
        said))
