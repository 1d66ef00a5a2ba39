-- ===== src/Core/Domain/Graph.antt =====
-- The transition graph of core/domain.py, edge by edge.
use quaestor.Base.{
  ℕ, ◌<◌, String, ◌≡◌, refl, Bool, true, false, not, ◌||◌, arith, all, lookup, lookup_checked,
  all-elem, Option-cases, inl, inr, ◌==◌, eq_iff, ltb, ltb→lt, if◌then◌else◌, elem-filter,
}
use quaestor.Core.Domain.{
  created, preflight, leased, dispatched, running, result_received, evidence_collected,
  handoff_ready, all_states, active_states, is_active, terminal_states, is_terminal, refusals,
  transitions, can_transition,
}

-- A test on edges, made at every row of the table.
unfoldable pub edges_pass : (String → String → Bool) → Bool
edges_pass p = all (λ row. all (p row.0) row.1) transitions

-- What holds of every edge in the table holds of every legal transition.
pub edge_checked :
    (p : String → String → Bool) (src dst : String)
    → edges_pass p ≡ true
    → can_transition src dst ≡ true
    → p src dst ≡ true
unfolding can_transition edges_pass
edge_checked p src dst h legal = elim (Option-cases (lookup src transitions)) [
  | inl e ↦ ground arith
  | inr (dsts, e) ↦
      all-elem (p src) dst dsts (lookup_checked (λ s ds. all (p s) ds) src transitions h e)
        (ground arith)
]

-- A legal transition from a terminal state leads to a terminal state.
pub terminal_stays_terminal :
    (src dst : String)
    → can_transition src dst ≡ true
    → is_terminal src ≡ true
    → is_terminal dst ≡ true
terminal_stays_terminal src dst legal final = ground (
  arith,
  edge_checked (λ s d. not (is_terminal s) || is_terminal d) src dst
      (unfold edges_pass transitions refusals is_terminal terminal_states all_states is_active
          active_states in
        refl)
      legal,
)

-- No state is both active and terminal.
pub active-not-terminal : (s : String) → is_active s ≡ true → is_terminal s ≡ false
unfolding is_terminal terminal_states
active-not-terminal s h = ground (arith, elem-filter (λ t. not (is_active t)) s all_states)

-- Position along the graph: eight for the states that no edge leaves.
unfoldable pub rank : String → ℕ
rank s =
    if s == created
    then 0
    else if s == preflight
    then 1
    else if s == leased
    then 2
    else if s == dispatched
    then 3
    else if s == running
    then 4
    else if s == result_received
    then 5
    else if s == evidence_collected
    then 6
    else if s == handoff_ready
    then 7
    else 8

pub rank_grows : (src dst : String) → can_transition src dst ≡ true → rank src < rank dst
rank_grows src dst legal = ltb→lt _ _ (
    edge_checked (λ s d. ltb (rank s) (rank d)) src dst
      (unfold edges_pass transitions refusals terminal_states all_states is_active active_states
          rank in
        refl)
      legal)

pub rank-le-eight : (s : String) → rank s < 9
unfolding rank
rank-le-eight s = ground arith

-- A legal move into `HANDOFF_READY` starts in `EVIDENCE_COLLECTED`.
pub handoff_needs_evidence :
    (src : String) → can_transition src handoff_ready ≡ true → src ≡ evidence_collected
handoff_needs_evidence src legal = ground (
  arith,
  eq_iff src evidence_collected,
  edge_checked (λ s d. not (d == handoff_ready) || s == evidence_collected) src handoff_ready
      (unfold edges_pass transitions refusals terminal_states all_states is_active active_states in
        refl)
      legal,
)
