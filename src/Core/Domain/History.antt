-- ===== src/Core/Domain/History.antt =====
-- Histories of a run: the states it moves through by legal transitions of core/domain.py.
use quaestor.Base.{
  ◌+◌, ◌≤◌, ◌<◌, String, ◌≡◌, refl, sym, ap, Bool, true, false, not, ◌&&◌, ◌||◌, List, [], ◌∷◌,
  arith, length, elem, ◌==◌, eq_iff, ltb, eqb, ltb→lt, and_true, Bool-cases, inl, inr,
}
use quaestor.Core.Domain.{
  created, dispatched, running, result_received, evidence_collected, handoff_ready, all_states,
  active_states, is_active, terminal_states, refusals, transitions, can_transition,
}
use quaestor.Core.Domain.Graph.{edges_pass, edge_checked, rank, rank_grows, rank-le-eight}

-- The states that a run in `s` goes on to, in their order, each by a legal transition.
abbrev pub is_history : String → List String → Bool
is_history s [] = true
is_history s (t ∷ ts) = can_transition s t && is_history t ts

-- The state in which a history ends.
abbrev pub last : String → List String → String
last s [] = s
last s (t ∷ ts) = last t ts

rank-add-length-lt :
    (s : String) (ts : List String) → is_history s ts ≡ true → rank s + length ts < 9
rank-add-length-lt s [] h = omega (arith, rank-le-eight s)
rank-add-length-lt s (t ∷ ts) h =
    let (legal, rest) = and_true (can_transition s t) (is_history t ts) h in
    omega (arith, rank_grows s t legal, rank-add-length-lt t ts rest)

-- A run makes at most eight state transitions, whatever state it starts in.
pub history_bounded : (s : String) (ts : List String) → is_history s ts ≡ true → length ts ≤ 8
history_bounded s ts h = omega (arith, rank-add-length-lt s ts h)

-- No edge jumps over `m`, but to a state that no edge leaves.
abbrev no_jump : String → String → String → Bool
no_jump m s d = not (ltb (rank s) (rank m)) || ltb (rank d) (rank m) || d == m || eqb (rank d) 8

stuck_at_end : (d : String) (ts : List String) → rank d ≡ 8 → is_history d ts ≡ true → last d ts ≡ d
stuck_at_end d [] e h = refl
stuck_at_end d (t ∷ ts) e h =
    let (legal, rest) = and_true (can_transition d t) (is_history t ts) h in
    absurd (omega (arith, rank_grows d t legal, rank-le-eight t))

-- A state at or past `m` from which the history still moves on is `m` itself.
meets :
    (m t : String) (ts : List String)
    → (ltb (rank t) (rank m) || t == m || eqb (rank t) 8) ≡ true
    → ltb (rank t) (rank m) ≡ false
    → rank (last t ts) < 8
    → is_history t ts ≡ true
    → (m == t) ≡ true
meets m t ts ok high ends h = elim (Bool-cases (t == m)) [
  | inl same ↦ (eq_iff m t).1 (sym ((eq_iff t m).0 same))
  | inr other ↦
      let final : rank t ≡ 8 = ground arith in
      absurd (omega (arith, ap rank (stuck_at_end t ts final h)))
]

passes_through :
    (m s : String) (ts : List String)
    → edges_pass (no_jump m) ≡ true
    → rank s < rank m
    → rank m ≤ rank (last s ts)
    → rank (last s ts) < 8
    → is_history s ts ≡ true
    → elem m ts ≡ true
passes_through m s [] check before after ends h = absurd (omega arith)
passes_through m s (t ∷ ts) check before after ends h =
    let (legal, rest) = and_true (can_transition s t) (is_history t ts) h in
    let jump = edge_checked (no_jump m) s t check legal in
    elim (Bool-cases (ltb (rank t) (rank m))) [
      | inl low ↦ ground (arith, passes_through m t ts check (ltb→lt _ _ low) after ends rest)
      | inr high ↦ ground (arith, meets m t ts (ground arith) high ends rest)
    ]

-- A run that gets from `CREATED` to `HANDOFF_READY` by legal transitions has been dispatched, has
-- run, has had its result received and its evidence collected.
pub handoff_passes_through :
    (ts : List String)
    → is_history created ts ≡ true
    → last created ts ≡ handoff_ready
    → (elem dispatched ts ≡ true)
      × (elem running ts ≡ true)
      × (elem result_received ts ≡ true)
      × (elem evidence_collected ts ≡ true)
unfolding edges_pass transitions refusals terminal_states all_states is_active active_states rank
handoff_passes_through ts h e = (
  passes_through dispatched created ts refl (omega arith) (rw e (omega arith)) (rw e (omega arith))
      h,
  passes_through running created ts refl (omega arith) (rw e (omega arith)) (rw e (omega arith)) h,
  passes_through result_received created ts refl (omega arith) (rw e (omega arith))
      (rw e (omega arith)) h,
  passes_through evidence_collected created ts refl (omega arith) (rw e (omega arith))
      (rw e (omega arith)) h,
)
