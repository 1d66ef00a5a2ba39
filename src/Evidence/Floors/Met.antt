-- ===== src/Evidence/Floors/Met.antt =====
-- When a floor is met.
use quaestor.Base.{
  ℕ, ◌+◌, ◌≤◌, ◌<◌, ◌≡◌, ◌≢◌, refl, sym, ◌∙◌, ◌↔◌, String, Bool, true, false, not, ◌&&◌, Option,
  none, some, elem, ltb, ◌==◌, arith, eq_refl, Option-cases, inl, inr,
}
use mathlib.Core.Path.{subst}
use quaestor.Base.Int.{ℤ, pos, negsuc}
use quaestor.Evidence.Floors.{
  Python, FloorDerivation, floor_met, revision_tree, container_workspace, known_methods, lt, minus,
  revisions_differ, refusal_of, validate_derivation, of_reading, of_derivation, adjudicate,
  revision_tree_floor, child_supplied_floor,
}

-- A derivation by the bridge, by a known method with the anchor it needs, of a floor of at least one,
-- and not at another revision than the expected one.
pub sound : Python → FloorDerivation → String → Bool
sound py d expected =
    elem d.derivation_method known_methods
    && (d.derived_by == "bridge")
    && not (lt d.floor_value (pos 1))
    && not (revisions_differ py d.source_revision expected)
    && not (d.derivation_method == revision_tree && d.source_revision == "")
    && not (d.derivation_method == container_workspace && d.source_digest == "")

refused_iff_not_sound :
    (py : Python) (d : FloorDerivation) (expected : String)
    → (refusal_of py d expected ≡ none) ↔ (sound py d expected ≡ true)
unfolding refusal_of sound
refused_iff_not_sound py d expected = (λ h. ground (arith, h), λ h. ground (arith, h))

reading_iff :
    (floor : ℤ) (inspected : Option ℤ)
    → (of_reading floor inspected ≡ floor_met)
      ↔ ((n : ℕ) × (inspected ≡ some (pos n)) × (1 ≤ n) × (lt (pos n) floor ≡ false))
unfolding of_reading lt
reading_iff floor none = (λ h. ground arith, λ h. ground arith)
reading_iff floor (some (negsuc n)) = (λ h. ground arith, λ h. ground arith)
reading_iff floor (some (pos n)) =
    (λ h. (n, refl, ground (arith, h), ground (arith, h)), λ h. ground (arith, h))

met_sound :
    (py : Python) (d : FloorDerivation) (inspected : Option ℤ) (expected : String)
    → of_derivation py d (refusal_of py d expected) inspected ≡ floor_met
    → (sound py d expected ≡ true)
      × ((n : ℕ) × (inspected ≡ some (pos n)) × (1 ≤ n) × (lt (pos n) d.floor_value ≡ false))
unfolding of_derivation
met_sound py d inspected expected h = elim (Option-cases (refusal_of py d expected)) [
  | inl fine ↦ (
    (refused_iff_not_sound py d expected).0 fine,
    (reading_iff d.floor_value inspected).0 (ground (arith, h, fine)),
  )
  | inr (refusal, e) ↦ absurd (ground (arith, h, e))
]

sound_met :
    (py : Python) (d e : FloorDerivation) (inspected : Option ℤ) (expected : String)
    → Path (Option FloorDerivation) (some d) (some e)
    → sound py e expected ≡ true
    → ((n : ℕ) × (inspected ≡ some (pos n)) × (1 ≤ n) × (lt (pos n) e.floor_value ≡ false))
    → of_derivation py d (refusal_of py d expected) inspected ≡ floor_met
unfolding of_derivation
sound_met py d e inspected expected same ok reading =
    let fine : refusal_of py e expected ≡ none = (refused_iff_not_sound py e expected).1 ok in
    let one : d ≡ e = ground (arith, same) in
    rw (one, fine) ((reading_iff e.floor_value inspected).1 reading)

-- A floor is met exactly when its derivation is sound and a positive reading reaches it.
pub met_iff :
    (py : Python) (derivation : Option FloorDerivation) (inspected : Option ℤ) (expected : String)
    → (adjudicate py derivation inspected expected ≡ floor_met) ↔ (
        (d : FloorDerivation) × (derivation ≡ some d)
        × (sound py d expected ≡ true)
        × ((n : ℕ) × (inspected ≡ some (pos n)) × (1 ≤ n) × (lt (pos n) d.floor_value ≡ false)))
unfolding adjudicate of_derivation validate_derivation
met_iff py none inspected expected = (λ h. ground arith, λ h. ground arith)
met_iff py (some d) inspected expected = (
  λ h. let (ok, reading) = met_sound py d inspected expected h in (d, refl, ok, reading),
  λ h. let (e, same, ok, reading) = h in sound_met py d e inspected expected same ok reading,
)

child_not_sound :
    (py : Python) (value : ℤ) (expected : String)
    → sound py (child_supplied_floor value) expected ≡ false
unfolding sound child_supplied_floor
child_not_sound py value expected = ground arith

-- A floor that the child supplies is never met.
pub child_floor_never_met :
    (py : Python) (value : ℤ) (inspected : Option ℤ) (expected : String)
    → adjudicate py (some (child_supplied_floor value)) inspected expected ≢ floor_met
child_floor_never_met py value inspected expected h =
    let (d, same, ok, reading) =
      (met_iff py (some (child_supplied_floor value)) inspected expected).0 h in
    let one : child_supplied_floor value ≡ d = ground (arith, same) in
    let here : sound py (child_supplied_floor value) expected ≡ true =
      subst (λ x. sound py x expected ≡ true) (sym one) ok in
    ground (arith, here, child_not_sound py value expected)

-- The floor of a commit's tree is sound for that commit exactly when the commit is named and its tree
-- has more entries than are excluded; lowering a text twice is lowering it once.
tree_sound :
    (py : Python) (entries excluded : ℕ) (revision : String)
    → py.lower (py.lower revision) ≡ py.lower revision
    → sound py (revision_tree_floor py entries excluded revision) revision
      ≡ (not (py.lower revision == "") && ltb excluded entries)
unfolding sound revision_tree_floor minus lt revisions_differ known_methods
tree_sound py entries excluded revision lowered =
    rw lowered (ground (arith, eq_refl (py.lower revision)))

tree_reading :
    (entries excluded n : ℕ)
    → excluded < entries
    → (lt (pos n) (minus entries excluded) ≡ false) ↔ (entries ≤ n + excluded)
unfolding lt minus
tree_reading entries excluded n le = (λ h. ground (arith, h), λ h. ground (arith, h))

-- Where lowering a text twice is lowering it once: a floor taken from the tree of a commit is met, for
-- that commit, exactly if the commit is named, its tree has entries that are not excluded, and all of
-- these were inspected.
pub tree_floor_met_iff :
    (py : Python) (entries excluded n : ℕ) (revision : String)
    → py.lower (py.lower revision) ≡ py.lower revision
    → (adjudicate py
          (some (revision_tree_floor py entries excluded revision))
          (some (pos n))
          revision
        ≡ floor_met)
      ↔ (((py.lower revision == "") ≡ false) × (excluded < entries) × (entries ≤ n + excluded))
unfolding adjudicate validate_derivation revision_tree_floor
tree_floor_met_iff py entries excluded n revision lowered =
    let d = revision_tree_floor py entries excluded revision in
    let whole = tree_sound py entries excluded revision lowered in
    (
      λ h.
          let (ok, (m, same, some_seen, enough)) = met_sound py d (some (pos n)) revision h in
          let fine : (not (py.lower revision == "") && ltb excluded entries) ≡ true =
            sym whole ∙ ok in
          let le : excluded < entries = ground (arith, fine) in
          (
            ground (arith, fine),
            le,
            (tree_reading entries excluded n le).0 (
                subst (λ x. lt (pos x) (minus entries excluded) ≡ false)
                  (sym (ground (arith, same))) enough),
          ),
      λ h.
          let (named, le, enough) = h in
          sound_met py d d (some (pos n)) revision refl (whole ∙ ground (arith, named, le))
            (n, refl, omega (arith, le, enough), (tree_reading entries excluded n le).1 enough),
    )
