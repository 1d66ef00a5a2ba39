-- ===== src/Strategic/Lanes/Workspaces.antt =====
-- Which writers share a workspace (core/programs.py, workspace_conflicts).
use quaestor.Base.{
  ◌≡◌, refl, ◌∙◌, String, Bool, true, false, not, ◌&&◌, ◌||◌, none, List, [], ◌∷◌, ◌++◌, any,
  is_empty, is_some, lookup, arith, ◌==◌, Bool-cases, Option-cases, inl, inr, ◌⊎◌,
}
use quaestor.Strategic.Lanes.{
  Lane, Conflict, conflict, terminal, terminal_lane_states, writes, conflict_or_seen,
  conflicts_from, workspace_conflicts,
}

-- A lane that may write, has a workspace, and is neither complete nor abandoned.
pub writer : Lane → Bool
writer l =
    l.writable
    && not (l.workspace_id == "")
    && not (l.state == "COMPLETE" || l.state == "ABANDONED")

writes-writer : (l : Lane) → writes l ≡ writer l
unfolding writes terminal terminal_lane_states writer
writes-writer l = ground arith

-- Some two of the lanes write one workspace.
pub shared : List Lane → Bool
shared [] = false
shared (l ∷ lanes) =
    writer l && any (λ m. writer m && m.workspace_id == l.workspace_id) lanes || shared lanes

is_some-lookup-append :
    (k j v : String) (m : List (String × String))
    → is_some (lookup k (m ++ (j, v) ∷ [])) ≡ (is_some (lookup k m) || k == j)
is_some-lookup-append k j v [] = ground arith
is_some-lookup-append k j v ((i, w) ∷ m) = ground (arith, is_some-lookup-append k j v m)

is_empty-snoc : (xs : List Conflict) (c : Conflict) → is_empty (xs ++ c ∷ []) ≡ false
is_empty-snoc [] c = refl
is_empty-snoc (x ∷ xs) c = refl

-- A writer of `lanes` whose workspace is `seen` already.
taken : List (String × String) → List Lane → Bool
taken seen lanes = any (λ m. writer m && is_some (lookup m.workspace_id seen)) lanes

none_taken : (lanes : List Lane) → taken [] lanes ≡ false
unfolding taken
none_taken [] = refl
none_taken (l ∷ lanes) = ground (arith, none_taken lanes)

taken-append :
    (k v : String) (seen : List (String × String)) (lanes : List Lane)
    → taken (seen ++ (k, v) ∷ []) lanes
      ≡ (taken seen lanes || any (λ m. writer m && m.workspace_id == k) lanes)
unfolding taken
taken-append k v seen [] = refl
taken-append k v seen (l ∷ lanes) =
    ground (arith, is_some-lookup-append l.workspace_id k v seen, taken-append k v seen lanes)

from_cases :
    (l : Lane) (lanes : List Lane) (seen : List (String × String)) (bad : List Conflict)
    → (conflicts_from (l ∷ lanes) seen bad ≡ conflicts_from lanes seen bad) × (writer l ≡ false)
      ⊎ ((conflicts_from (l ∷ lanes) seen bad
            ≡ conflicts_from lanes (seen ++ (l.workspace_id, l.lane_id) ∷ []) bad)
          × (writer l ≡ true)
          × (lookup l.workspace_id seen ≡ none))
      ⊎ ((c : Conflict) × (conflicts_from (l ∷ lanes) seen bad
            ≡ conflicts_from lanes seen (bad ++ c ∷ []))
          × (writer l ≡ true)
          × (is_some (lookup l.workspace_id seen) ≡ true))
unfolding conflicts_from conflict_or_seen
from_cases l lanes seen bad = elim (Bool-cases (writer l)) [
  | inr e ↦ inl (rw (writes-writer l ∙ e) refl, e)
  | inl e ↦ elim (Option-cases (lookup l.workspace_id seen)) [
    | inl missing ↦ inr (inl (rw (writes-writer l ∙ e, missing) refl, e, missing))
    | inr (first, found) ↦
        inr (inr (conflict l first, rw (writes-writer l ∙ e, found) refl, e, rw found refl))
  ]
]

conflicts_from-lem :
    (lanes : List Lane) (seen : List (String × String)) (bad : List Conflict)
    → is_empty (conflicts_from lanes seen bad)
      ≡ (is_empty bad && not (shared lanes) && not (taken seen lanes))
unfolding conflicts_from shared taken
conflicts_from-lem [] seen bad = ground arith
conflicts_from-lem (l ∷ lanes) seen bad = elim (from_cases l lanes seen bad) [
  | inl (e, idle) ↦ rw (e, idle) (conflicts_from-lem lanes seen bad)
  | inr (inl (e, busy, fresh)) ↦ rw e (
      ground (
        arith,
        busy,
        fresh,
        conflicts_from-lem lanes (seen ++ (l.workspace_id, l.lane_id) ∷ []) bad,
        taken-append l.workspace_id l.lane_id seen lanes,
      ))
  | inr (inr (c, e, busy, held)) ↦ rw e (
      ground
        (arith, busy, held, conflicts_from-lem lanes seen (bad ++ c ∷ []), is_empty-snoc bad c))
]

-- A conflict is reported exactly when two of the lanes that are writable, not terminal and have a
-- workspace share it.
pub conflicts_iff_shared :
    (lanes : List Lane) → is_empty (workspace_conflicts lanes) ≡ not (shared lanes)
unfolding workspace_conflicts
conflicts_iff_shared lanes = ground (arith, conflicts_from-lem lanes [] [], none_taken lanes)
