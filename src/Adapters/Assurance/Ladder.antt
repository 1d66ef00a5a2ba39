-- ===== src/Adapters/Assurance/Ladder.antt =====
-- The climb of compute_assurance, by the number of levels that are proven.
use quaestor.Base.{
  ℕ, suc, ◌≡◌, refl, String, Bool, true, false, not, Option, none, some, List, [], ◌∷◌, ◌++◌, ap,
  ◌∙◌, is_empty, all, is_empty-filter-not, ltb, eqb, arith,
}
use mathlib.Core.List.{append-nil, append_assoc}
use quaestor.Adapters.Assurance.{
  Level, Climb, observed, dialogue, managed, governed, confined, assurance_levels, index,
  required_for, passed, missing, climb_step, bottom, climb, climbed,
}

-- Every probe the level needs has passed.
pub proven : List (String × Bool) → Level → Bool
proven probes level = all (passed probes) (required_for level)

pub is_empty-missing :
    (probes : List (String × Bool)) (level : Level)
    → is_empty (missing probes level) ≡ proven probes level
unfolding missing proven
is_empty-missing probes level = is_empty-filter-not (passed probes) (required_for level)

-- The number of levels at the bottom of the ladder that are proven.
unfoldable pub height : Option Level → ℕ
unfolding index
height none = 0
height (some l) = suc (index l)

pub proven_below :
    (probes : List (String × Bool))
    → (proven probes confined ≡ true → proven probes governed ≡ true)
      × (proven probes governed ≡ true → proven probes managed ≡ true)
      × (proven probes managed ≡ true → proven probes dialogue ≡ true)
      × (proven probes dialogue ≡ true → proven probes observed ≡ true)
unfolding proven required_for
proven_below probes =
    (λ h. ground (arith, h), λ h. ground (arith, h), λ h. ground (arith, h), λ h. ground (arith, h))

eqb_refl : (n : ℕ) → eqb n n ≡ true
eqb_refl n = ground arith

-- Exactly the levels below the n-th are proven.
unfoldable pub Rungs : List (String × Bool) → ℕ → Type 0
Rungs probes n = (l : Level) → is_empty (missing probes l) ≡ ltb (index l) n

-- The rows of the table of the missing probes.
unfoldable pub rows : List (String × Bool) → List Level → List (Level × List String)
rows probes [] = []
rows probes (l ∷ levels) = (l, missing probes l) ∷ rows probes levels

step_up :
    (probes : List (String × Bool)) (level : Level) (idx : ℕ) (o : Option Level)
    → is_empty (missing probes level) ≡ true
    → climb_step probes idx level (record { computed = o; next = idx; missing_by_level = [] })
      ≡ record { computed = some level; next = suc idx; missing_by_level = [] }
unfolding climb_step
step_up probes level idx o h = rw (h, eqb_refl idx) refl

step_gap :
    (probes : List (String × Bool)) (level : Level) (idx : ℕ) (c : Climb)
    → is_empty (missing probes level) ≡ false
    → climb_step probes idx level c
      ≡ record c { missing_by_level = c.missing_by_level ++ (level, missing probes level) ∷ [] }
unfolding climb_step
step_gap probes level idx c h = rw h refl

climb_up :
    (probes : List (String × Bool)) (level : Level) (levels : List Level) (idx : ℕ)
    (o : Option Level)
    → is_empty (missing probes level) ≡ true
    → climb probes (level ∷ levels) idx (record { computed = o; next = idx; missing_by_level = [] })
      ≡ climb probes levels
          (suc idx)
          (record { computed = some level; next = suc idx; missing_by_level = [] })
unfolding climb
climb_up probes level levels idx o h =
    ap (climb probes levels (suc idx)) (step_up probes level idx o h)

climb_gaps :
    (probes : List (String × Bool)) (levels : List Level) (idx : ℕ) (c : Climb)
    → all (λ l. not (is_empty (missing probes l))) levels ≡ true
    → climb probes levels idx c
      ≡ record c { missing_by_level = c.missing_by_level ++ rows probes levels }
unfolding climb rows
climb_gaps probes [] idx c h = rw (append-nil c.missing_by_level) refl
climb_gaps probes (l ∷ levels) idx c h =
    ap (climb probes levels (suc idx)) (step_gap probes l idx c (ground (arith, h)))
    ∙ climb_gaps probes levels (suc idx)
        (record c { missing_by_level = c.missing_by_level ++ (l, missing probes l) ∷ [] })
        (ground (arith, h))
    ∙ rw (append_assoc c.missing_by_level ((l, missing probes l) ∷ []) (rows probes levels)) refl

pub climbed_0 :
    (probes : List (String × Bool))
    → Rungs probes 0
    → climbed probes ≡ record {
      computed = none;
      next = 0;
      missing_by_level = rows probes (observed ∷ dialogue ∷ managed ∷ governed ∷ confined ∷ []);
    }
unfolding Rungs climbed assurance_levels bottom index
climbed_0 probes r =
    climb_gaps probes (observed ∷ dialogue ∷ managed ∷ governed ∷ confined ∷ []) 0
      (record { computed = none; next = 0; missing_by_level = [] })
      (ground (arith, r observed, r dialogue, r managed, r governed, r confined))

pub climbed_1 :
    (probes : List (String × Bool))
    → Rungs probes 1
    → climbed probes ≡ record {
      computed = some observed;
      next = 1;
      missing_by_level = rows probes (dialogue ∷ managed ∷ governed ∷ confined ∷ []);
    }
unfolding Rungs climbed assurance_levels bottom index
climbed_1 probes r =
    climb_up probes observed (dialogue ∷ managed ∷ governed ∷ confined ∷ []) 0 none (r observed)
    ∙ climb_gaps probes (dialogue ∷ managed ∷ governed ∷ confined ∷ []) 1
        (record { computed = some observed; next = 1; missing_by_level = [] })
        (ground (arith, r dialogue, r managed, r governed, r confined))

pub climbed_2 :
    (probes : List (String × Bool))
    → Rungs probes 2
    → climbed probes ≡ record {
      computed = some dialogue;
      next = 2;
      missing_by_level = rows probes (managed ∷ governed ∷ confined ∷ []);
    }
unfolding Rungs climbed assurance_levels bottom index
climbed_2 probes r =
    climb_up probes observed (dialogue ∷ managed ∷ governed ∷ confined ∷ []) 0 none (r observed)
    ∙ climb_up probes dialogue (managed ∷ governed ∷ confined ∷ []) 1 (some observed) (r dialogue)
    ∙ climb_gaps probes (managed ∷ governed ∷ confined ∷ []) 2
        (record { computed = some dialogue; next = 2; missing_by_level = [] })
        (ground (arith, r managed, r governed, r confined))

pub climbed_3 :
    (probes : List (String × Bool))
    → Rungs probes 3
    → climbed probes ≡ record {
      computed = some managed;
      next = 3;
      missing_by_level = rows probes (governed ∷ confined ∷ []);
    }
unfolding Rungs climbed assurance_levels bottom index
climbed_3 probes r =
    climb_up probes observed (dialogue ∷ managed ∷ governed ∷ confined ∷ []) 0 none (r observed)
    ∙ climb_up probes dialogue (managed ∷ governed ∷ confined ∷ []) 1 (some observed) (r dialogue)
    ∙ climb_up probes managed (governed ∷ confined ∷ []) 2 (some dialogue) (r managed)
    ∙ climb_gaps probes (governed ∷ confined ∷ []) 3
        (record { computed = some managed; next = 3; missing_by_level = [] })
        (ground (arith, r governed, r confined))

pub climbed_4 :
    (probes : List (String × Bool))
    → Rungs probes 4
    → climbed probes ≡ record {
      computed = some governed;
      next = 4;
      missing_by_level = rows probes (confined ∷ []);
    }
unfolding Rungs climbed assurance_levels bottom index
climbed_4 probes r =
    climb_up probes observed (dialogue ∷ managed ∷ governed ∷ confined ∷ []) 0 none (r observed)
    ∙ climb_up probes dialogue (managed ∷ governed ∷ confined ∷ []) 1 (some observed) (r dialogue)
    ∙ climb_up probes managed (governed ∷ confined ∷ []) 2 (some dialogue) (r managed)
    ∙ climb_up probes governed (confined ∷ []) 3 (some managed) (r governed)
    ∙ climb_gaps probes (confined ∷ []) 4
        (record { computed = some governed; next = 4; missing_by_level = [] })
        (ground (arith, r confined))

pub climbed_5 :
    (probes : List (String × Bool))
    → Rungs probes 5
    → climbed probes
      ≡ record { computed = some confined; next = 5; missing_by_level = rows probes ([]) }
unfolding Rungs climbed assurance_levels bottom index
climbed_5 probes r =
    climb_up probes observed (dialogue ∷ managed ∷ governed ∷ confined ∷ []) 0 none (r observed)
    ∙ climb_up probes dialogue (managed ∷ governed ∷ confined ∷ []) 1 (some observed) (r dialogue)
    ∙ climb_up probes managed (governed ∷ confined ∷ []) 2 (some dialogue) (r managed)
    ∙ climb_up probes governed (confined ∷ []) 3 (some managed) (r governed)
    ∙ climb_up probes confined ([]) 4 (some governed) (r confined)
    ∙ climb_gaps probes ([]) 5
        (record { computed = some confined; next = 5; missing_by_level = [] }) (ground (arith))
