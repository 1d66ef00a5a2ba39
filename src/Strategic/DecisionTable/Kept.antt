-- ===== src/Strategic/DecisionTable/Kept.antt =====
-- What the table keeps of a decision, whatever is decided later.
use quaestor.Base.{
  ℕ, ◌≡◌, refl, ◌∙◌, String, Bool, false, Option, some, List, [], ◌∷◌, find, map, find-append, none,
  arith, ◌==◌, Bool-cases, inl, inr, ◌⊎◌,
}
use quaestor.Strategic.Decisions.{Decision, is_live, new_decision, supersede}
use quaestor.Strategic.Rows.{StrategicStore}
use quaestor.Strategic.DecisionTable.{
  Classified, recorded_row, inserted, marked_store, record_decision, get_decision, marked,
  mark_superseded, insert_fresh, insert_replacement,
}
use quaestor.Strategic.DecisionTable.Branches.{insert_cases}
use quaestor.Strategic.DecisionTable.History.{
  Command, decide, overrule, mark, Step, kept_or, record_new, attempt, run,
}

-- A decision without its status and its successor, the two columns an UPDATE writes.
pub content : Decision → Decision
content d = record d { status = ""; superseded_by = "" }

-- The table has the decision `d`, with its content, and not in force if `d` is not.
pub Kept : Decision → StrategicStore → Type 0
Kept d s =
    (e : Decision) × (get_decision d.decision_id s ≡ some e)
    × (content e ≡ content d)
    × (is_live d ≡ false → is_live e ≡ false)

find-marked :
    (k id by : String) (rows : List Decision) (d : Decision)
    → find (λ r. r.decision_id == k) rows ≡ some d
    → find (λ r. r.decision_id == k) (map (marked id by) rows) ≡ some (marked id by d)
unfolding marked
find-marked k id by [] d h = absurd (ground arith)
find-marked k id by (r ∷ rows) d h = ground (arith, find-marked k id by rows d)

marked-content : (id by : String) (d : Decision) → content (marked id by d) ≡ content d
unfolding content marked
marked-content id by d = ground arith

marked-is_live :
    (id by : String) (d : Decision) → is_live d ≡ false → is_live (marked id by d) ≡ false
unfolding is_live marked
marked-is_live id by d h = elim (Bool-cases (d.decision_id == id)) [
  | inl mine ↦ rw mine refl
  | inr other ↦ rw other h
]

-- An INSERT leaves the rows that are there.
recorded_keeps :
    (classify : String → Classified) (fresh : Decision) (k : String) (s : StrategicStore)
    (d : Decision)
    → get_decision k s ≡ some d
    → get_decision k (kept_or s (record_decision classify fresh s)) ≡ some d
unfolding get_decision kept_or record_decision inserted
recorded_keeps classify fresh k s d at = elim (insert_cases (recorded_row classify fresh) s) [
  | inl e ↦ rw e at
  | inr (e, free) ↦
      rw e (find-append (λ d. d.decision_id == k) s.decision (recorded_row classify fresh ∷ []) at)
]

new_row :
    (classify : String → Classified) (minted : Option Decision) (k : String) (s : StrategicStore)
    (d : Decision)
    → get_decision k s ≡ some d
    → get_decision k (kept_or s (record_new classify minted s)) ≡ some d
unfolding record_new kept_or
new_row classify none k s d at = at
new_row classify (some fresh) k s d at = recorded_keeps classify fresh k s d at

fresh_row :
    (classify : String → Classified) (pair : Option (Decision × Decision)) (k : String)
    (s : StrategicStore) (d : Decision)
    → get_decision k s ≡ some d
    → get_decision k (kept_or s (insert_fresh classify pair s)) ≡ some d
unfolding insert_fresh kept_or
fresh_row classify none k s d at = at
fresh_row classify (some (fresh, old)) k s d at = recorded_keeps classify fresh k s d at

-- The row of a decision after one step.
attempt_row :
    (classify : String → Classified) (now : ℕ) (key : Option Bool) (cmd : Command) (k : String)
    (s : StrategicStore) (d : Decision)
    → get_decision k s ≡ some d
    → (get_decision k (kept_or s (attempt classify now key cmd s)) ≡ some d)
      ⊎ ((id : String) × (by : String) × (get_decision k
              (kept_or s (attempt classify now key cmd s))
            ≡ some (marked id by d)))
unfolding attempt insert_replacement get_decision mark_superseded marked_store kept_or
attempt_row classify now key (decide id program_id question lane_id r) k s d at =
    inl (new_row classify (new_decision key now id program_id question lane_id r) k s d at)
attempt_row classify now key (overrule id prev r) k s d at =
    inl (fresh_row classify (supersede key now id prev (record r { evidence_refs = [] })) k s d at)
attempt_row classify now key (mark prev by actor_id) k s d at =
    inr (prev.decision_id, by, find-marked k prev.decision_id by s.decision d at)

stays_from :
    (classify : String → Classified) (h : List Step) (d e : Decision) (s : StrategicStore)
    → get_decision d.decision_id s ≡ some e
    → content e ≡ content d
    → (is_live d ≡ false → is_live e ≡ false)
    → Kept d (run classify h s)
unfolding run Kept
stays_from classify [] d e s at same over = (e, at, same, over)
stays_from classify (step ∷ rest) d e s at same over =
    elim (attempt_row classify step.now step.key step.command d.decision_id s e at) [
      | inl there ↦
          stays_from classify rest d e
            (kept_or s (attempt classify step.now step.key step.command s)) there same over
      | inr (id, by, there) ↦
          stays_from classify rest d (marked id by e)
            (kept_or s (attempt classify step.now step.key step.command s)) there
            (marked-content id by e ∙ same) (λ h. marked-is_live id by e (over h))
    ]

-- However the commits that record and supersede decisions follow one another, a decision in the table
-- stays there with its question, answer, authority, rationale and evidence, and one that is not in force never is again.
pub nothing_forgotten :
    (classify : String → Classified) (h : List Step) (d : Decision) (s : StrategicStore)
    → get_decision d.decision_id s ≡ some d
    → Kept d (run classify h s)
nothing_forgotten classify h d s at = stays_from classify h d d s at refl (λ over. over)
