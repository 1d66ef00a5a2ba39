-- ===== src/Strategic/Claims/Branches.antt =====
-- What a claim on a lane does on each of its branches.
use quaestor.Base.{
  ℕ, ◌≤◌, ◌≡◌, refl, String, true, false, ◌||◌, none, some, List, [], ◌∷◌, ltb, arith, ◌==◌, eq_iff,
  eq_refl, Bool-cases, Option-cases, inl, inr, ◌⊎◌, if◌then◌else◌,
}
use quaestor.Strategic.Rows.{LaneLease, StrategicStore, lease_row}
use quaestor.Strategic.Claims.{
  Claim, ClaimOutcome, acquired, renewed, held_by_other, active, acquisition, renewal, next_fence,
  own_token, row_of, written, evaluate_claim, upsert_lease, claim_written, claim_lane,
}

unfoldable pub fence_of : String → List LaneLease → ℕ
fence_of k [] = 0
fence_of k (row ∷ rows) = let rest = fence_of k rows in if row.lane_id == k then row.fence else rest

pub fence_of-lease_row :
    (k : String) (rows : List LaneLease) (l : LaneLease)
    → lease_row k rows ≡ some l
    → (fence_of k rows ≡ l.fence) × (l.lane_id ≡ k)
unfolding fence_of lease_row
fence_of-lease_row k [] l h = absurd (ground arith)
fence_of-lease_row k (row ∷ rows) l h =
    ground (arith, eq_iff row.lane_id k, fence_of-lease_row k rows l)

no_row-fence_of :
    (k : String) (rows : List LaneLease) → lease_row k rows ≡ none → fence_of k rows ≡ 0
unfolding fence_of lease_row
no_row-fence_of k [] h = refl
no_row-fence_of k (row ∷ rows) h = ground (arith, no_row-fence_of k rows)

-- The upsert writes where its guard holds.
upsert-lease_row :
    (l : LaneLease) (rows : List LaneLease)
    → ((row : LaneLease)
        → lease_row l.lane_id rows ≡ some row
        → (ltb row.fence l.fence || row.owner_token == l.owner_token) ≡ true)
    → lease_row l.lane_id (upsert_lease l rows) ≡ some l
unfolding lease_row upsert_lease
upsert-lease_row l [] ok = ground (arith, eq_refl l.lane_id)
upsert-lease_row l (row ∷ rows) ok = elim (Bool-cases (row.lane_id == l.lane_id)) [
  | inl e ↦ ground (arith, e, ok row, eq_refl l.lane_id)
  | inr e ↦ ground (arith, e, upsert-lease_row l rows (λ r h. ok r (rw e h)))
]

pub upsert-fence_of :
    (l : LaneLease) (k : String) (rows : List LaneLease)
    → fence_of l.lane_id rows ≤ l.fence
    → fence_of k rows ≤ fence_of k (upsert_lease l rows)
unfolding fence_of upsert_lease
upsert-fence_of l k [] le = ground arith
upsert-fence_of l k (row ∷ rows) le = ground (
  arith,
  eq_iff row.lane_id l.lane_id,
  eq_iff l.lane_id k,
  eq_iff row.lane_id k,
  upsert-fence_of l k rows,
)

-- What a claim does, on each of its branches.
module _ (now : ℕ) (token lane_id : String) (c : Claim) (s : StrategicStore) where
  pub held_claim :
      (l : LaneLease)
      → lease_row lane_id s.lane_lease ≡ some l
      → active l now ≡ true
      → own_token l c ≡ false
      → claim_lane now token lane_id c s ≡ (s, (held_by_other, l))
  unfolding claim_lane evaluate_claim claim_written
  held_claim l at live foreign = rw (at, live, foreign) refl

  renewed_claim :
      (l : LaneLease)
      → lease_row lane_id s.lane_lease ≡ some l
      → active l now ≡ true
      → own_token l c ≡ true
      → claim_lane now token lane_id c s ≡ (
        written now lane_id c (row_of lane_id (renewal l now c)) s,
        (renewed, row_of lane_id (renewal l now c)),
      )
  unfolding claim_lane evaluate_claim claim_written
  renewed_claim l at live own = rw (at, live, own) refl

  expired_claim :
      (l : LaneLease)
      → lease_row lane_id s.lane_lease ≡ some l
      → active l now ≡ false
      → claim_lane now token lane_id c s ≡ (
        written now lane_id c (row_of lane_id (acquisition (some l) now token c)) s,
        (acquired, row_of lane_id (acquisition (some l) now token c)),
      )
  unfolding claim_lane evaluate_claim claim_written
  expired_claim l at over = rw (at, over) refl

  first_claim :
      lease_row lane_id s.lane_lease ≡ none
      → claim_lane now token lane_id c s ≡ (
        written now lane_id c (row_of lane_id (acquisition none now token c)) s,
        (acquired, row_of lane_id (acquisition none now token c)),
      )
  unfolding claim_lane evaluate_claim claim_written
  first_claim free = rw free refl

  -- A claim changes nothing or writes the row that it returns, whose fence is not lower.
  unfoldable pub Written : Type 0
  Written =
      (row : LaneLease) × (o : ClaimOutcome) × (claim_lane now token lane_id c s
        ≡ (written now lane_id c row s, (o, row)))
      × (row.lane_id ≡ lane_id)
      × (fence_of lane_id s.lane_lease ≤ row.fence)
      × (lease_row lane_id (upsert_lease row s.lane_lease) ≡ some row)

  pub claim_cases :
      ((l : LaneLease) × (claim_lane now token lane_id c s ≡ (s, (held_by_other, l)))
        × (lease_row lane_id s.lane_lease ≡ some l))
      ⊎ Written
  unfolding Written row_of acquisition renewal next_fence
  claim_cases = elim (Option-cases (lease_row lane_id s.lane_lease)) [
    | inl free ↦ inr (
      row_of lane_id (acquisition none now token c),
      acquired,
      first_claim free,
      refl,
      rw (no_row-fence_of lane_id s.lane_lease free) (omega arith),
      upsert-lease_row (row_of lane_id (acquisition none now token c)) s.lane_lease
          (λ r h. absurd (ground (arith, h, free))),
    )
    | inr (l, at) ↦ elim (Bool-cases (active l now)) [
      | inr over ↦ inr (
        row_of lane_id (acquisition (some l) now token c),
        acquired,
        expired_claim l at over,
        refl,
        ground (arith, fence_of-lease_row lane_id s.lane_lease l at),
        upsert-lease_row (row_of lane_id (acquisition (some l) now token c)) s.lane_lease
            (λ r h. ground (arith, h, at)),
      )
      | inl live ↦ elim (Bool-cases (own_token l c)) [
        | inl own ↦ inr (
          row_of lane_id (renewal l now c),
          renewed,
          renewed_claim l at live own,
          refl,
          ground (arith, fence_of-lease_row lane_id s.lane_lease l at),
          upsert-lease_row (row_of lane_id (renewal l now c)) s.lane_lease
              (λ r h. ground (arith, h, at, eq_refl l.owner_token)),
        )
        | inr foreign ↦ inl (l, held_claim l at live foreign, at)
      ]
    ]
  ]
