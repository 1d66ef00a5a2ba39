-- ===== src/Evidence/Floors.antt =====
-- evidence/floors.py: what an instrument must have inspected at least, and who may say so.
-- `lower` is `str.lower`, and `shown` is `repr` of a text. The texts of the refusals and the records
-- that go with a verdict are left out.
pub mod Met
use quaestor.Base.{
  ℕ, ◌-◌, String, Bool, true, false, not, ◌&&◌, ◌||◌, Option, none, some, List, [], ◌∷◌, elem, ltb,
  leb, ◌==◌, if◌then◌else◌, contains,
}
use quaestor.Base.Int.{ℤ, pos, negsuc}

-- A method that is not one of the three is kept by its name.
abbrev pub revision_tree : String
revision_tree = "REVISION_TREE_MINUS_EXCLUSIONS"

abbrev pub fixed_minimum : String
fixed_minimum = "FIXED_MINIMUM"

abbrev pub container_workspace : String
container_workspace = "CONTAINER_WORKSPACE_INVENTORY"

unfoldable pub known_methods : List String
known_methods = revision_tree ∷ fixed_minimum ∷ container_workspace ∷ []

pub record Python : Type 0 where
  pub lower : String → String
  pub shown : String → String

pub record FloorDerivation : Type 0 where
  pub floor_value : ℤ
  pub derivation_method : String
  pub source_revision : String
  pub source_digest : String
  pub derived_by : String

pub data FloorVerdict : Type 0 where
  floor_met floor_not_met floor_unproven floor_stale vacuous : FloorVerdict

-- `a < b`, and `a - b` of two counts.
unfoldable pub lt : ℤ → ℤ → Bool
lt (pos a) (pos b) = ltb a b
lt (pos a) (negsuc b) = false
lt (negsuc a) (pos b) = true
lt (negsuc a) (negsuc b) = ltb b a

unfoldable pub minus : ℕ → ℕ → ℤ
minus a b = if leb b a then pos (a - b) else negsuc (b - a - 1)

-- Why a derivation is refused, with the texts that the reason quotes.
pub data Refusal : Type 0 where
  no_derivation below_minimum other_revision no_revision no_digest : Refusal
  unknown_method foreign_deriver : String → Refusal

-- `expected_revision and d.source_revision and d.source_revision.lower() != ...lower()`.
unfoldable pub revisions_differ : Python → String → String → Bool
revisions_differ py source expected =
    not (expected == "") && not (source == "") && not (py.lower source == py.lower expected)

-- validate_derivation, of a derivation: the first reason to refuse it.
unfoldable pub refusal_of : Python → FloorDerivation → String → Option Refusal
unfolding known_methods lt revisions_differ
refusal_of py d expected =
    if not (elem d.derivation_method known_methods)
    then some (unknown_method d.derivation_method)
    else if not (d.derived_by == "bridge")
    then some (foreign_deriver d.derived_by)
    else if lt d.floor_value (pos 1)
    then some below_minimum
    else if revisions_differ py d.source_revision expected
    then some other_revision
    else if d.derivation_method == revision_tree && d.source_revision == ""
    then some no_revision
    else if d.derivation_method == container_workspace && d.source_digest == ""
    then some no_digest
    else none

unfoldable pub validate_derivation : Python → Option FloorDerivation → String → Option Refusal
unfolding refusal_of
validate_derivation py none expected = some no_derivation
validate_derivation py (some d) expected = refusal_of py d expected

-- `"bound to" in reason`: the reason for another revision says so, and a quoted text may.
unfoldable pub says_bound_to : Python → Refusal → Bool
says_bound_to py other_revision = true
says_bound_to py (unknown_method m) = contains "bound to" (py.shown m)
says_bound_to py (foreign_deriver who) = contains "bound to" (py.shown who)
says_bound_to py _ = false

unfoldable pub of_reading : ℤ → Option ℤ → FloorVerdict
unfolding lt
of_reading floor none = floor_unproven
of_reading floor (some inspected) =
    if lt inspected (pos 1)
    then vacuous
    else if lt inspected floor
    then floor_not_met
    else floor_met

-- The verdict on a derivation that is there.
unfoldable pub of_derivation : Python → FloorDerivation → Option Refusal → Option ℤ → FloorVerdict
unfolding says_bound_to of_reading
of_derivation py d (some refusal) inspected =
    if says_bound_to py refusal then floor_stale else floor_unproven
of_derivation py d none inspected = of_reading d.floor_value inspected

unfoldable pub adjudicate : Python → Option FloorDerivation → Option ℤ → String → FloorVerdict
unfolding of_derivation validate_derivation
adjudicate py none inspected expected = floor_unproven
adjudicate py (some d) inspected expected =
    of_derivation py d (validate_derivation py (some d) expected) inspected

unfoldable pub revision_tree_floor : Python → ℕ → ℕ → String → FloorDerivation
unfolding minus
revision_tree_floor py tree_entries excluded_count source_revision = record {
  floor_value = minus tree_entries excluded_count;
  derivation_method = revision_tree;
  source_revision = py.lower source_revision;
  source_digest = "";
  derived_by = "bridge";
}

-- `max(int(file_count), ABSOLUTE_MINIMUM)`, of a count.
unfoldable pub workspace_floor : ℕ → String → FloorDerivation
workspace_floor file_count source_digest = record {
  floor_value = pos (if leb 1 file_count then file_count else 1);
  derivation_method = container_workspace;
  source_revision = "";
  source_digest = source_digest;
  derived_by = "bridge";
}

unfoldable pub child_supplied_floor : ℤ → FloorDerivation
child_supplied_floor value = record {
  floor_value = value;
  derivation_method = fixed_minimum;
  source_revision = "";
  source_digest = "";
  derived_by = "claude-child";
}
