-- ===== src/Core/OwnerChannel/Gate.antt =====
-- What opens the owner gate.
use quaestor.Base.{
  ℕ, ◌≤◌, ◌<◌, String, ◌≡◌, Bool, true, not, ◌&&◌, List, [], ◌∷◌, arith, any, elem, filter, map,
  is_empty, sorted_set, elem-sorted_set, elem-filter, not-is_empty-filter, any-sorted_set,
  any-map-filter, ◌∙◌, ◌==◌,
}
use quaestor.Core.OwnerChannel.{
  Grant, ChannelState, unexpired, is_live, claims_on, is_authenticated, evaluate, gate,
}

-- A grant that decides: live, on the capability, and with an id.
abbrev pub decides : String → ℕ → Grant → Bool
decides cap now r = (r.capability == cap && is_live r now) && not (r.grant_id == "")

has_claims :
    (cap : String) (rows : List Grant) (now : ℕ)
    → not (is_empty (claims_on cap rows now)) ≡ any (decides cap now) rows
unfolding claims_on
has_claims cap rows now =
    let q = λ (r : Grant). r.capability == cap && is_live r now in
    let nonempty = λ (g : String). not (g == "") in
    let ids = map (λ (r : Grant). r.grant_id) (filter q rows) in
    not-is_empty-filter nonempty (sorted_set ids)
    ∙ any-sorted_set nonempty ids
    ∙ any-map-filter nonempty (λ r. r.grant_id) q rows

-- A capability can be used exactly when the channel is authenticated and some live grant with an
-- id names it.
pub usable_iff :
    (cap : String) (rows : List Grant) (state : ChannelState) (now : ℕ)
    → (evaluate cap rows state now).usable ≡ (is_authenticated state && any (decides cap now) rows)
unfolding evaluate
usable_iff cap rows state now = ground (arith, has_claims cap rows now)

-- A required capability is blocked exactly when it is owner-gated and cannot be used.
pub blocked_iff :
    (cap : String) (required gated : List String) (rows : List Grant) (state : ChannelState)
    (now : ℕ)
    → elem cap (gate required gated rows state now) ≡ (
        elem cap required
        && elem cap gated
        && not (is_authenticated state && any (decides cap now) rows))
unfolding gate
blocked_iff cap required gated rows state now = ground (
  arith,
  elem-filter (λ c. not (evaluate c rows state now).usable) cap
      (sorted_set (filter (λ c. elem c gated) required)),
  elem-sorted_set cap (filter (λ c. elem c gated) required),
  elem-filter (λ c. elem c gated) cap required,
  usable_iff cap rows state now,
)

-- A grant that decides at a time decides at every earlier time that is stated.
pub decides_earlier :
    (cap : String) (t now : ℕ) (r : Grant)
    → 0 < t
    → t ≤ now
    → decides cap now r ≡ true
    → decides cap t r ≡ true
unfolding is_live unexpired
decides_earlier cap t now r pos before h = ground arith

pub any-decides_earlier :
    (cap : String) (t now : ℕ) (rows : List Grant)
    → 0 < t
    → t ≤ now
    → any (decides cap now) rows ≡ true
    → any (decides cap t) rows ≡ true
any-decides_earlier cap t now [] pos before h = h
any-decides_earlier cap t now (r ∷ rows) pos before h =
    ground
      (arith, decides_earlier cap t now r pos before, any-decides_earlier cap t now rows pos before)
