-- ===== src/Core/Authority/Allow.antt =====
-- What an ALLOW of core/authority.py rests on.
use quaestor.Base.{
  ℕ, ◌≤◌, ◌<◌, String, ◌≡◌, ◌∙◌, ap, sym, refl, Bool, true, not, ◌&&◌, ◌||◌, Option, List, [], ◌∷◌,
  ◌++◌, arith, any, all, elem, filter, lookup, is_empty, is_some, sorted_set, any-append,
  any-filter, not-is_empty-filter, any-sorted_set, all_weaken, and_true,
}
use quaestor.Core.OwnerChannel.{
  Grant, ChannelState, channel_in_force, is_authenticated, evaluate, gate,
}
use quaestor.Core.OwnerChannel.Gate.{decides, usable_iff, any-decides_earlier}
use quaestor.Core.Authority.{
  all_capabilities, owner_gated, profiles, granted_capabilities, allowed, require,
}

-- What one required capability needs: to be modelled, to be granted by the profile and, where it
-- is owner-gated, an authenticated channel with a live grant for it.
abbrev pub usable_under : String → List Grant → ℕ → ChannelState → String → Bool
usable_under prof rows now state c =
    elem c all_capabilities
    && elem c (granted_capabilities prof)
    && (not (elem c owner_gated) || is_authenticated state && any (decides c now) rows)

-- `any` is the negation of `all` of the negated test.
all-not : (p : String → Bool) (l : List String) → not (any (λ c. not (p c)) l) ≡ all p l
all-not p [] = refl
all-not p (x ∷ xs) = ground (arith, all-not p xs)

all-sorted_set : (p : String → Bool) (l : List String) → all p (sorted_set l) ≡ all p l
all-sorted_set p l =
    sym (all-not p (sorted_set l)) ∙ ap not (any-sorted_set (λ c. not (p c)) l) ∙ all-not p l

none_fails :
    (p : String → Bool) (l : List String)
    → is_empty (filter (λ c. not (p c)) (sorted_set l)) ≡ all p l
none_fails p l = ground (
  arith,
  not-is_empty-filter (λ c. not (p c)) (sorted_set l),
  any-sorted_set (λ c. not (p c)) l,
  all-not p l,
)

gated_usable :
    (l gated : List String) (rows : List Grant) (state : ChannelState) (now : ℕ)
    → not (any (λ c. elem c gated && not (evaluate c rows state now).usable) l)
      ≡ all (λ c. not (elem c gated) || is_authenticated state && any (decides c now) rows) l
gated_usable [] gated rows state now = refl
gated_usable (x ∷ xs) gated rows state now =
    ground (arith, usable_iff x rows state now, gated_usable xs gated rows state now)

none_blocked :
    (l gated : List String) (rows : List Grant) (state : ChannelState) (now : ℕ)
    → is_empty (gate (sorted_set l) gated rows state now)
      ≡ all (λ c. not (elem c gated) || is_authenticated state && any (decides c now) rows) l
unfolding gate
none_blocked l gated rows state now =
    let fails = λ (c : String). not (evaluate c rows state now).usable in
    let in_gate = λ (c : String). elem c gated in
    ground (
      arith,
      not-is_empty-filter fails (sorted_set (filter in_gate (sorted_set l))),
      any-sorted_set fails (filter in_gate (sorted_set l)),
      any-filter fails in_gate (sorted_set l),
      any-sorted_set (λ c. in_gate c && fails c) l,
      gated_usable l gated rows state now,
    )

all-and :
    (p q r : String → Bool) (l : List String)
    → all (λ c. p c && q c && r c) l ≡ (all p l && all q l && all r l)
all-and p q r [] = refl
all-and p q r (x ∷ xs) = ground (arith, all-and p q r xs)

-- `require` allows exactly when the profile is known and every required capability is modelled, is
-- granted by the profile and, where it is owner-gated, is named by a live grant under an
-- authenticated owner channel.
pub allow_exactly :
    (prof : String) (required : List String) (rows : List Grant) (now : ℕ)
    (channel : Option ChannelState) (present : Option Bool)
    → allowed (require prof required rows now channel present) ≡ (
        is_some (lookup prof profiles)
        && all (usable_under prof rows now (channel_in_force channel present)) required)
unfolding require
allow_exactly prof required rows now channel present =
    let state = channel_in_force channel present in
    let modelled = λ (c : String). elem c all_capabilities in
    let grants = λ (c : String). elem c (granted_capabilities prof) in
    let open_gate = λ (c : String).
      not (elem c owner_gated) || is_authenticated state && any (decides c now) rows in
    ground (
      arith,
      none_fails modelled required,
      none_fails grants required,
      none_blocked required owner_gated rows state now,
      all-and modelled grants open_gate required,
    )

still_usable :
    (prof : String) (rows more : List Grant) (t now : ℕ) (state : ChannelState) (c : String)
    → 0 < t
    → t ≤ now
    → usable_under prof rows now state c ≡ true
    → usable_under prof (rows ++ more) t state c ≡ true
still_usable prof rows more t now state c pos before h =
    ground (arith, any-append (decides c t) rows more, any-decides_earlier c t now rows pos before)

-- Time only takes authority away and more grants only add to it: what is allowed at a time is
-- allowed at every earlier stated time and with any further grants in the ledger.
pub allow_monotone :
    (prof : String) (required : List String) (rows more : List Grant) (t now : ℕ)
    (channel : Option ChannelState) (present : Option Bool)
    → 0 < t
    → t ≤ now
    → allowed (require prof required rows now channel present) ≡ true
    → allowed (require prof required (rows ++ more) t channel present) ≡ true
allow_monotone prof required rows more t now channel present pos before h =
    let state = channel_in_force channel present in
    let (known, usable) =
      and_true (is_some (lookup prof profiles)) (all (usable_under prof rows now state) required)
        (sym (allow_exactly prof required rows now channel present) ∙ h) in
    let still =
      all_weaken (usable_under prof rows now state) (usable_under prof (rows ++ more) t state)
        required (λ c u. still_usable prof rows more t now state c pos before u) usable in
    rw (allow_exactly, known, still)
