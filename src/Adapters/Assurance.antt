-- ===== src/Adapters/Assurance.antt =====
-- adapters/assurance.py: the assurance level that passed probes prove, against the claimed one.
-- The texts of the refusals are left out; a refusal is the level and the probes it misses.
pub mod Ladder
pub mod Proof
use quaestor.Base.{
  ℕ, suc, String, Bool, true, false, not, ◌&&◌, Option, none, some, List, [], ◌∷◌, ◌++◌, filter,
  is_empty, elem, ltb, eqb, lookup, ◌==◌, if◌then◌else◌,
}

pub data Level : Type 0 where
  observed dialogue managed governed confined : Level

-- ASSURANCE_LEVELS, from low to high, and the index of a level in it.
unfoldable pub assurance_levels : List Level
assurance_levels = observed ∷ dialogue ∷ managed ∷ governed ∷ confined ∷ []

unfoldable pub index : Level → ℕ
index observed = 0
index dialogue = 1
index managed = 2
index governed = 3
index confined = 4

unfoldable pub level_named : String → Option Level
level_named s = lookup s (
    ("OBSERVED", observed)
    ∷ ("DIALOGUE", dialogue)
    ∷ ("MANAGED", managed)
    ∷ ("GOVERNED", governed)
    ∷ ("CONFINED", confined)
    ∷ [])

unfoldable pub level_new_probes : Level → List String
level_new_probes observed = "observe_probe" ∷ []
level_new_probes dialogue = "roundtrip" ∷ "message_id_preserved" ∷ []
level_new_probes managed = "cancel_works" ∷ "lifecycle" ∷ []
level_new_probes governed = "workspace_containment" ∷ "readonly_holds" ∷ []
level_new_probes confined = "container_validation" ∷ []

-- `if probe not in out: out.append(probe)`, for each probe.
unfoldable pub add_probes : List String → List String → List String
add_probes out [] = out
add_probes out (p ∷ probes) = add_probes (if elem p out then out else out ++ p ∷ []) probes

unfoldable pub collect_until : Level → List Level → List String → List String
unfolding add_probes level_new_probes index
collect_until level [] out = out
collect_until level (l ∷ levels) out =
    let next = add_probes out (level_new_probes l) in
    let rest = collect_until level levels next in if eqb (index l) (index level) then next else rest

unfoldable pub required_for : Level → List String
unfolding collect_until assurance_levels
required_for level = collect_until level assurance_levels []

-- `passed.get(p)`, of a probe that may be missing.
unfoldable pub holds : Option Bool → Bool
holds none = false
holds (some ok) = ok

unfoldable pub passed : List (String × Bool) → String → Bool
unfolding holds
passed probes p = holds (lookup p probes)

unfoldable pub missing : List (String × Bool) → Level → List String
unfolding passed required_for
missing probes level = filter (λ p. not (passed probes p)) (required_for level)

-- The variables of the loop of compute_assurance; `next` is computed_idx + 1.
pub record Climb : Type 0 where
  pub computed : Option Level
  pub next : ℕ
  pub missing_by_level : List (Level × List String)

-- One turn of the loop; a level whose inferior failed is not computed.
unfoldable pub climb_step : List (String × Bool) → ℕ → Level → Climb → Climb
unfolding missing
climb_step probes idx level c =
    if is_empty (missing probes level) && eqb idx c.next
    then record c { computed = some level; next = suc idx }
    else if not (is_empty (missing probes level))
    then record c { missing_by_level = c.missing_by_level ++ (level, missing probes level) ∷ [] }
    else c

unfoldable pub climb : List (String × Bool) → List Level → ℕ → Climb → Climb
unfolding climb_step
climb probes [] idx c = c
climb probes (level ∷ levels) idx c = climb probes levels (suc idx) (climb_step probes idx level c)

unfoldable pub missing_of : Level → List (Level × List String) → List String
unfolding index
missing_of level [] = []
missing_of level ((l, m) ∷ rows) =
    let rest = missing_of level rows in if eqb (index level) (index l) then m else rest

unfoldable pub refused : Climb → Level → List Level → List (Level × List String)
unfolding missing_of index
refused c claimed [] = []
refused c claimed (level ∷ levels) =
    let rest = refused c claimed levels in
    let gap = missing_of level c.missing_by_level in
    if ltb (index level) c.next
    then rest
    else if ltb (index claimed) (index level)
    then []
    else if is_empty gap
    then rest
    else (level, gap) ∷ rest

unfoldable pub bottom : Climb
bottom = record { computed = none; next = 0; missing_by_level = [] }

unfoldable pub climbed : List (String × Bool) → Climb
unfolding climb assurance_levels bottom
climbed probes = climb probes assurance_levels 0 bottom

unfoldable pub compared :
    List (String × Bool) → Option Level → Option (Option Level × List (Level × List String))
unfolding climbed refused assurance_levels
compared probes none = none
compared probes (some claimed) =
    some ((climbed probes).computed, refused (climbed probes) claimed assurance_levels)

-- compute_assurance; `none` is a ValueError.
unfoldable pub compute_assurance :
    List (String × Bool) → String → Option (Option Level × List (Level × List String))
unfolding compared level_named
compute_assurance probes claimed = compared probes (level_named claimed)
