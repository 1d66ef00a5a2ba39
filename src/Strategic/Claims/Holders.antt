-- ===== src/Strategic/Claims/Holders.antt =====
-- Nobody takes a lane from a holder whose lease runs.
use quaestor.Base.{
  ℕ, ◌≡◌, refl, ◌∙◌, String, Bool, true, false, not, ◌&&◌, Option, none, some, List, [], ◌∷◌, map,
  ltb, all, and_true, arith, ◌==◌, eq_iff, Bool-cases, inl, inr,
}
use quaestor.Strategic.Rows.{LaneLease, StrategicStore, lease_row}
use quaestor.Strategic.Claims.{
  Claim, active, own_token, upsert_lease, written, claim_lane, released_lease, owned, release_read,
  release_write,
}
use quaestor.Strategic.Claims.History.{
  System, Command, claim, release, finish_release, write, after_read, take_release, after_write,
  perform, run,
}
use quaestor.Strategic.Claims.Branches.{Written, claim_cases, held_claim}
use quaestor.Strategic.Claims.Fences.{write-lane_lease, store-after_read}

-- A step that is before `l` expires, where it is a claim, and does not present its token for its lane.
unfoldable pub foreign : LaneLease → ℕ → Command → Bool
foreign l now (claim token lane_id c) =
    ltb now l.expires_at && not (lane_id == l.lane_id && c.owner_token == l.owner_token)
foreign l now (release lane_id token) = not (lane_id == l.lane_id && token == l.owner_token)
foreign l now (finish_release lane_id) = true
foreign l now (write lane_id state verdict actor) = true

-- No release of the lane is between its read and its write.
unfoldable pub no_release : String → List (String × LaneLease) → Bool
no_release k [] = true
no_release k ((lane_id, l) ∷ rest) = not (lane_id == k) && no_release k rest

upsert_elsewhere :
    (k : String) (l : LaneLease) (rows : List LaneLease)
    → (l.lane_id == k) ≡ false
    → lease_row k (upsert_lease l rows) ≡ lease_row k rows
unfolding lease_row upsert_lease
upsert_elsewhere k l [] h = ground (arith, h)
upsert_elsewhere k l (row ∷ rows) h =
    ground (arith, h, eq_iff row.lane_id l.lane_id, upsert_elsewhere k l rows)

released_elsewhere :
    (now : ℕ) (lane_id k : String) (rows : List LaneLease)
    → (lane_id == k) ≡ false
    → lease_row k (map (released_lease now lane_id) rows) ≡ lease_row k rows
unfolding lease_row released_lease
released_elsewhere now lane_id k [] h = refl
released_elsewhere now lane_id k (row ∷ rows) h =
    ground (arith, h, eq_iff row.lane_id lane_id, released_elsewhere now lane_id k rows)

module _ (l : LaneLease) where
  claim_keeps :
      (now : ℕ) (token lane_id : String) (c : Claim) (s : StrategicStore)
      → lease_row l.lane_id s.lane_lease ≡ some l
      → l.released_at ≡ 0
      → foreign l now (claim token lane_id c) ≡ true
      → lease_row l.lane_id (claim_lane now token lane_id c s).0.lane_lease ≡ some l
  unfolding foreign Written written active own_token
  claim_keeps now token lane_id c s at held h = elim (Bool-cases (lane_id == l.lane_id)) [
    | inl same ↦
        let live : active l now ≡ true = ground (arith, h, held) in
        let others : own_token l c ≡ false = ground (arith, h, same) in
        let mine : lease_row lane_id s.lane_lease ≡ some l =
          rw ((eq_iff lane_id l.lane_id).0 same) at in
        rw (held_claim now token lane_id c s l mine live others) at
    | inr other ↦ elim (claim_cases now token lane_id c s) [
      | inl (row, e, there) ↦ rw e at
      | inr (row, o, e, mine, le, stored) ↦
          rw e (upsert_elsewhere l.lane_id row s.lane_lease (rw mine other) ∙ at)
    ]
  ]

  foreign-release :
      (now : ℕ) (lane_id token : String)
      → (lane_id == l.lane_id) ≡ true
      → foreign l now (release lane_id token) ≡ true
      → (l.owner_token == token) ≡ false
  unfolding foreign
  foreign-release now lane_id token same h =
      ground (arith, h, same, eq_iff l.owner_token token, eq_iff token l.owner_token)

  release_read-none :
      (lane_id token : String) (s : StrategicStore)
      → lease_row l.lane_id s.lane_lease ≡ some l
      → (lane_id == l.lane_id) ≡ true
      → (l.owner_token == token) ≡ false
      → release_read lane_id token s ≡ none
  unfolding release_read owned
  release_read-none lane_id token s at same others =
      let mine : lease_row lane_id s.lane_lease ≡ some l =
        rw ((eq_iff lane_id l.lane_id).0 same) at in
      rw (mine, others) refl

  after_read-no_release :
      (lane_id : String) (found : Option LaneLease) (sys : System)
      → no_release l.lane_id sys.releasing ≡ true
      → ((lane_id == l.lane_id) ≡ true → found ≡ none)
      → no_release l.lane_id (after_read lane_id found sys).releasing ≡ true
  unfolding after_read no_release
  after_read-no_release lane_id none sys free mine = free
  after_read-no_release lane_id (some row) sys free mine =
      elim (Bool-cases (lane_id == l.lane_id)) [
        | inl same ↦ absurd (ground (arith, mine same))
        | inr other ↦ rw (other, free) refl
      ]

  -- What the write of a release takes and leaves.
  take_release-no_release :
      (lane_id : String) (rows : List (String × LaneLease))
      → no_release l.lane_id rows ≡ true
      → (no_release l.lane_id (take_release lane_id rows).1 ≡ true)
        × ((lane_id == l.lane_id) ≡ true → (take_release lane_id rows).0 ≡ none)
  unfolding take_release no_release
  take_release-no_release lane_id [] free = (refl, λ same. refl)
  take_release-no_release lane_id ((k, row) ∷ rows) free =
      let (left, taken) = take_release-no_release lane_id rows (ground (arith, free)) in
      elim (Bool-cases (k == lane_id)) [
        | inl here ↦ (
          rw here (ground (arith, free)),
          λ same. absurd (
              ground (
                arith,
                free,
                same,
                here,
                eq_iff k lane_id,
                eq_iff lane_id l.lane_id,
                eq_iff k l.lane_id,
              )),
        )
        | inr other ↦ (rw other (ground (arith, free, left)), λ same. rw other (taken same))
      ]

  -- The row of the lease, and no release of its lane under way.
  unfoldable Guarded : System → Type 0
  Guarded sys =
      (lease_row l.lane_id sys.store.lane_lease ≡ some l)
      × (no_release l.lane_id sys.releasing ≡ true)

  after_write-Guarded :
      (now : ℕ) (lane_id : String) (taken : Option LaneLease × List (String × LaneLease))
      (sys : System)
      → Guarded sys
      → no_release l.lane_id taken.1 ≡ true
      → ((lane_id == l.lane_id) ≡ true → taken.0 ≡ none)
      → Guarded (after_write now lane_id taken sys)
  unfolding after_write release_write Guarded
  after_write-Guarded now lane_id (none, rest) sys kept free mine = kept
  after_write-Guarded now lane_id (some row, rest) sys (at, clear) free mine =
      elim (Bool-cases (lane_id == l.lane_id)) [
        | inl same ↦ absurd (ground (arith, mine same))
        | inr other ↦
            (released_elsewhere now lane_id l.lane_id sys.store.lane_lease other ∙ at, free)
      ]

  perform-Guarded :
      (now : ℕ) (cmd : Command) (sys : System)
      → Guarded sys
      → l.released_at ≡ 0
      → foreign l now cmd ≡ true
      → Guarded (perform now cmd sys)
  unfolding perform Guarded
  perform-Guarded now (claim token lane_id c) sys (at, clear) held h =
      (claim_keeps now token lane_id c sys.store at held h, clear)
  perform-Guarded now (release lane_id token) sys (at, clear) held h =
      let found = release_read lane_id token sys.store in
      (
        rw (store-after_read lane_id found sys) at,
        after_read-no_release lane_id found sys clear (λ same.
            release_read-none lane_id token sys.store at same
              (foreign-release now lane_id token same h)),
      )
  perform-Guarded now (finish_release lane_id) sys (at, clear) held h =
      let (left, taken) = take_release-no_release lane_id sys.releasing clear in
      after_write-Guarded now lane_id (take_release lane_id sys.releasing) sys (at, clear) left
        taken
  perform-Guarded now (write lane_id state verdict actor) sys (at, clear) held h =
      (rw (write-lane_lease now lane_id state verdict actor sys.store) at, clear)

-- While a lease that is not released has not expired, no steps of claims and releases that do not
-- present its token on its lane, and of writes of lane states, change the row of the lane, if no
-- release of the lane has read its row already and not written yet.
pub holder_keeps_lane :
    (l : LaneLease) (history : List (ℕ × Command)) (sys : System)
    → lease_row l.lane_id sys.store.lane_lease ≡ some l
    → l.released_at ≡ 0
    → no_release l.lane_id sys.releasing ≡ true
    → all (λ step. foreign l step.0 step.1) history ≡ true
    → lease_row l.lane_id (run history sys).store.lane_lease ≡ some l
unfolding run Guarded
holder_keeps_lane l [] sys at held clear h = at
holder_keeps_lane l ((now, cmd) ∷ rest) sys at held clear h =
    let (one, others) =
      and_true (foreign l now cmd) (all (λ step. foreign l step.0 step.1) rest) h in
    let (at', clear') = perform-Guarded l now cmd sys (at, clear) held one in
    holder_keeps_lane l rest (perform now cmd sys) at' held clear' others
