-- ===== src/Adapters/Assurance/Proof.antt =====
-- What a computed assurance level proves.
use quaestor.Base.{
  ℕ, ◌≡◌, refl, String, Bool, Option, some, List, [], ◌∷◌, sym, ◌∙◌, is_empty, ltb, arith,
  Bool-cases, inl, inr,
}
use quaestor.Adapters.Assurance.{
  Level, Climb, observed, dialogue, managed, governed, confined, assurance_levels, index,
  missing_of, refused, climbed, compared, compute_assurance, level_named,
}
use quaestor.Adapters.Assurance.Ladder.{
  proven, is_empty-missing, height, proven_below, Rungs, rows, climbed_0, climbed_1, climbed_2,
  climbed_3, climbed_4, climbed_5,
}

-- What the loop has found, where exactly the levels below the n-th are proven.
Found : List (String × Bool) → ℕ → Type 0
Found probes n =
    (height (climbed probes).computed ≡ n)
    × ((climbed probes).next ≡ n)
    × ((l : Level) → is_empty (missing_of l (climbed probes).missing_by_level) ≡ ltb (index l) n)

gaps_0 :
    (probes : List (String × Bool))
    → Rungs probes 0
    → (l : Level)
    → is_empty
        (missing_of l (rows probes (observed ∷ dialogue ∷ managed ∷ governed ∷ confined ∷ [])))
      ≡ ltb (index l) 0
unfolding Rungs rows missing_of index
gaps_0 probes r observed = r observed
gaps_0 probes r dialogue = r dialogue
gaps_0 probes r managed = r managed
gaps_0 probes r governed = r governed
gaps_0 probes r confined = r confined

after_0 : (probes : List (String × Bool)) → Rungs probes 0 → Found probes 0
unfolding Found height index
after_0 probes r = rw (climbed_0 probes r) (refl, refl, gaps_0 probes r)

gaps_1 :
    (probes : List (String × Bool))
    → Rungs probes 1
    → (l : Level)
    → is_empty (missing_of l (rows probes (dialogue ∷ managed ∷ governed ∷ confined ∷ [])))
      ≡ ltb (index l) 1
unfolding Rungs rows missing_of index
gaps_1 probes r observed = refl
gaps_1 probes r dialogue = r dialogue
gaps_1 probes r managed = r managed
gaps_1 probes r governed = r governed
gaps_1 probes r confined = r confined

after_1 : (probes : List (String × Bool)) → Rungs probes 1 → Found probes 1
unfolding Found height index
after_1 probes r = rw (climbed_1 probes r) (refl, refl, gaps_1 probes r)

gaps_2 :
    (probes : List (String × Bool))
    → Rungs probes 2
    → (l : Level)
    → is_empty (missing_of l (rows probes (managed ∷ governed ∷ confined ∷ []))) ≡ ltb (index l) 2
unfolding Rungs rows missing_of index
gaps_2 probes r observed = refl
gaps_2 probes r dialogue = refl
gaps_2 probes r managed = r managed
gaps_2 probes r governed = r governed
gaps_2 probes r confined = r confined

after_2 : (probes : List (String × Bool)) → Rungs probes 2 → Found probes 2
unfolding Found height index
after_2 probes r = rw (climbed_2 probes r) (refl, refl, gaps_2 probes r)

gaps_3 :
    (probes : List (String × Bool))
    → Rungs probes 3
    → (l : Level)
    → is_empty (missing_of l (rows probes (governed ∷ confined ∷ []))) ≡ ltb (index l) 3
unfolding Rungs rows missing_of index
gaps_3 probes r observed = refl
gaps_3 probes r dialogue = refl
gaps_3 probes r managed = refl
gaps_3 probes r governed = r governed
gaps_3 probes r confined = r confined

after_3 : (probes : List (String × Bool)) → Rungs probes 3 → Found probes 3
unfolding Found height index
after_3 probes r = rw (climbed_3 probes r) (refl, refl, gaps_3 probes r)

gaps_4 :
    (probes : List (String × Bool))
    → Rungs probes 4
    → (l : Level) → is_empty (missing_of l (rows probes (confined ∷ []))) ≡ ltb (index l) 4
unfolding Rungs rows missing_of index
gaps_4 probes r observed = refl
gaps_4 probes r dialogue = refl
gaps_4 probes r managed = refl
gaps_4 probes r governed = refl
gaps_4 probes r confined = r confined

after_4 : (probes : List (String × Bool)) → Rungs probes 4 → Found probes 4
unfolding Found height index
after_4 probes r = rw (climbed_4 probes r) (refl, refl, gaps_4 probes r)

gaps_5 :
    (probes : List (String × Bool))
    → Rungs probes 5
    → (l : Level) → is_empty (missing_of l (rows probes ([]))) ≡ ltb (index l) 5
unfolding Rungs rows missing_of index
gaps_5 probes r observed = refl
gaps_5 probes r dialogue = refl
gaps_5 probes r managed = refl
gaps_5 probes r governed = refl
gaps_5 probes r confined = refl

after_5 : (probes : List (String × Bool)) → Rungs probes 5 → Found probes 5
unfolding Found height index
after_5 probes r = rw (climbed_5 probes r) (refl, refl, gaps_5 probes r)

ladder_at :
    (probes : List (String × Bool)) (n : ℕ)
    → ((l : Level) → proven probes l ≡ ltb (index l) n)
    → Rungs probes n
unfolding Rungs
ladder_at probes n h l = is_empty-missing probes l ∙ h l

by_levels :
    (probes : List (String × Bool)) (n : ℕ)
    → (proven probes observed ≡ ltb 0 n)
      × (proven probes dialogue ≡ ltb 1 n)
      × (proven probes managed ≡ ltb 2 n)
      × (proven probes governed ≡ ltb 3 n)
      × (proven probes confined ≡ ltb 4 n)
    → (l : Level) → proven probes l ≡ ltb (index l) n
unfolding index
by_levels probes n h observed = h.0
by_levels probes n h dialogue = h.1
by_levels probes n h managed = h.2
by_levels probes n h governed = h.3
by_levels probes n h confined = h.4

-- What a claim is compared with: the loop's findings at the number of proven levels.
Compared : List (String × Bool) → ℕ → Type 0
Compared probes n = Found probes n × ((l : Level) → proven probes l ≡ ltb (index l) n)

with_levels :
    (probes : List (String × Bool)) (n : ℕ)
    → (Rungs probes n → Found probes n)
    → (proven probes observed ≡ ltb 0 n)
      × (proven probes dialogue ≡ ltb 1 n)
      × (proven probes managed ≡ ltb 2 n)
      × (proven probes governed ≡ ltb 3 n)
      × (proven probes confined ≡ ltb 4 n)
    → (k : ℕ) × Compared probes k
unfolding Compared
with_levels probes n found h =
    (n, (found (ladder_at probes n (by_levels probes n h)), by_levels probes n h))

proven_levels : (probes : List (String × Bool)) → (n : ℕ) × Compared probes n
proven_levels probes = elim (Bool-cases (proven probes observed)) [
  | inr e0 ↦ with_levels probes 0 (after_0 probes) (ground (arith, proven_below probes, e0))
  | inl e0 ↦ elim (Bool-cases (proven probes dialogue)) [
    | inr e1 ↦ with_levels probes 1 (after_1 probes) (ground (arith, proven_below probes, e0, e1))
    | inl e1 ↦ elim (Bool-cases (proven probes managed)) [
      | inr e2 ↦
          with_levels probes 2 (after_2 probes) (ground (arith, proven_below probes, e0, e1, e2))
      | inl e2 ↦ elim (Bool-cases (proven probes governed)) [
        | inr e3 ↦
            with_levels probes 3 (after_3 probes)
              (ground (arith, proven_below probes, e0, e1, e2, e3))
        | inl e3 ↦ elim (Bool-cases (proven probes confined)) [
          | inr e4 ↦
              with_levels probes 4 (after_4 probes)
                (ground (arith, proven_below probes, e0, e1, e2, e3, e4))
          | inl e4 ↦ with_levels probes 5 (after_5 probes) (ground (arith, e0, e1, e2, e3, e4))
        ]
      ]
    ]
  ]
]

refused-is_empty :
    (c : Climb) (n : ℕ)
    → c.next ≡ n
    → ((l : Level) → is_empty (missing_of l c.missing_by_level) ≡ ltb (index l) n)
    → (claimed : Level) → is_empty (refused c claimed assurance_levels) ≡ ltb (index claimed) n
unfolding refused assurance_levels index
refused-is_empty c n at gap observed = ground (arith, at, gap observed)
refused-is_empty c n at gap dialogue = ground (arith, at, gap observed, gap dialogue)
refused-is_empty c n at gap managed = ground (arith, at, gap observed, gap dialogue, gap managed)
refused-is_empty c n at gap governed =
    ground (arith, at, gap observed, gap dialogue, gap managed, gap governed)
refused-is_empty c n at gap confined =
    ground (arith, at, gap observed, gap dialogue, gap managed, gap governed, gap confined)

-- A known claim is refused no level exactly when every probe that its level needs has passed, and the
-- computed level is the highest one whose probes have all passed.
pub accepted_iff_proven :
    (probes : List (String × Bool)) (name : String) (claimed : Level)
    → level_named name ≡ some claimed
    → (r : Option Level × List (Level × List String)) × (compute_assurance probes name ≡ some r)
      × (is_empty r.1 ≡ proven probes claimed)
      × ((l : Level) → proven probes l ≡ ltb (index l) (height r.0))
unfolding compute_assurance compared Compared Found
accepted_iff_proven probes name claimed known =
    let (n, ((at_height, at_next, gaps), levels)) = proven_levels probes in
    (
      ((climbed probes).computed, refused (climbed probes) claimed assurance_levels),
      rw known refl,
      refused-is_empty (climbed probes) n at_next gaps claimed ∙ sym (levels claimed),
      λ l. levels l ∙ rw at_height refl,
    )
