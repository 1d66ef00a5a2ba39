-- ===== src/Strategic/Lanes/Waits.antt =====
-- Which lanes a lane waits for (core/programs.py, blocking_dependencies).
use quaestor.Base.{
  ◌≡◌, refl, ◌∙◌, String, Bool, ◌&&◌, ◌||◌, List, [], ◌∷◌, any, map, elem, arith, ◌==◌, eq_iff,
  Bool-cases, inl, inr, if◌then◌else◌, elem-append,
}
use quaestor.Strategic.Lanes.{
  Lane, Dependency, insert_name, sorted, append_to, blocks_now, collect, blocking_dependencies,
}

-- `blocking.get(k, [])`.
pub waits_of : String → List (String × List String) → List String
waits_of k [] = []
waits_of k ((j, vs) ∷ m) = let rest = waits_of k m in if k == j then vs else rest

elem-insert_name :
    (t s : String) (l : List String) → elem t (insert_name s l) ≡ (t == s || elem t l)
unfolding insert_name
elem-insert_name t s [] = refl
elem-insert_name t s (x ∷ xs) = ground (arith, elem-insert_name t s xs)

elem-sorted : (t : String) (l : List String) → elem t (sorted l) ≡ elem t l
unfolding sorted
elem-sorted t [] = refl
elem-sorted t (x ∷ xs) = ground (arith, elem-insert_name t x (sorted xs), elem-sorted t xs)

waits_of-append_to :
    (v k from to : String) (m : List (String × List String))
    → elem v (waits_of k (append_to from to m)) ≡ (elem v (waits_of k m) || (from == k && to == v))
unfolding waits_of append_to
waits_of-append_to v k from to [] =
    ground (arith, eq_iff k from, eq_iff from k, eq_iff v to, eq_iff to v)
waits_of-append_to v k from to ((j, vs) ∷ m) = ground (
  arith,
  eq_iff k j,
  eq_iff from j,
  eq_iff from k,
  eq_iff v to,
  eq_iff to v,
  elem-append v vs (to ∷ []),
  waits_of-append_to v k from to m,
)

waits_of-sorted :
    (v k : String) (m : List (String × List String))
    → elem v (waits_of k (map (λ row. (row.0, sorted row.1)) m)) ≡ elem v (waits_of k m)
unfolding waits_of
waits_of-sorted v k [] = refl
waits_of-sorted v k ((j, vs) ∷ m) = ground (arith, elem-sorted v vs, waits_of-sorted v k m)

-- Some dependency that gates `from` names `to`, which is missing or not complete.
pub gated_by : List (String × Lane) → List Dependency → String → String → Bool
gated_by lanes deps from to =
    any (λ d. blocks_now lanes d && (d.from_lane == from && d.to_lane == to)) deps

collect-lem :
    (lanes : List (String × Lane)) (deps : List Dependency) (blocking : List (String × List String))
    (from to : String)
    → elem to (waits_of from (collect lanes deps blocking))
      ≡ (elem to (waits_of from blocking) || gated_by lanes deps from to)
unfolding collect gated_by
collect-lem lanes [] blocking from to = ground arith
collect-lem lanes (d ∷ deps) blocking from to = elim (Bool-cases (blocks_now lanes d)) [
  | inl e ↦ rw e (
      ground (
        arith,
        collect-lem lanes deps (append_to d.from_lane d.to_lane blocking) from to,
        waits_of-append_to to from d.from_lane d.to_lane blocking,
      ))
  | inr e ↦ rw e (collect-lem lanes deps blocking from to)
]

-- A lane waits for another exactly when a dependency of kind REQUIRES or MERGES_AFTER leads from it
-- to the other, and the other is missing or not COMPLETE.
pub waits_iff_gated :
    (lanes : List (String × Lane)) (deps : List Dependency) (from to : String)
    → elem to (waits_of from (blocking_dependencies lanes deps)) ≡ gated_by lanes deps from to
unfolding blocking_dependencies waits_of
waits_iff_gated lanes deps from to =
    waits_of-sorted to from (collect lanes deps []) ∙ collect-lem lanes deps [] from to
