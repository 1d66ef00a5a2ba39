-- ===== src/Base/Texts.antt =====
-- Texts as Python's code uses them: membership in a tuple of names, and dictionaries.
use Prim.Native.Nat.{Ordering}
use Prim.Native.String.{String, compare}
use mathlib.Core.Path.{◌≡◌, refl}
use mathlib.Core.Bool.{Bool, true, false, ◌&&◌, ◌||◌}
use mathlib.Core.Option.{Option, none, some}
use mathlib.Core.List.{List, [], ◌∷◌, ◌++◌}
use native.Mathlib.Omega.{arith}
use text.Mathlib.Text.{◌==◌}
use text.Mathlib.TextEquality.{eq_iff}
use text.Mathlib.TextPositions.{eq_refl}
use quaestor.Base.Tests.{if◌then◌else◌}
use quaestor.Base.Lists.{all, any, filter}

-- `s in names`.
abbrev pub elem : String → List String → Bool
elem s [] = false
elem s (x ∷ xs) = s == x || elem s xs

-- What a check of every name in a tuple says of a name that is in it.
pub all-elem :
    (p : String → Bool) (s : String) (l : List String)
    → all p l ≡ true
    → elem s l ≡ true
    → p s ≡ true
all-elem p s [] h m = ground arith
all-elem p s (x ∷ xs) h m = ground (arith, eq_iff s x, all-elem p s xs)

pub elem-append : (s : String) (xs ys : List String) → elem s (xs ++ ys) ≡ (elem s xs || elem s ys)
elem-append s [] ys = refl
elem-append s (x ∷ xs) ys = ground (arith, elem-append s xs ys)

pub elem-filter :
    (p : String → Bool) (s : String) (l : List String) → elem s (filter p l) ≡ (elem s l && p s)
elem-filter p s [] = refl
elem-filter p s (x ∷ xs) = ground (arith, eq_iff s x, elem-filter p s xs)

pub all_of_elem :
    (p : String → Bool) (l : List String)
    → ((s : String) → elem s l ≡ true → p s ≡ true)
    → all p l ≡ true
all_of_elem p [] h = refl
all_of_elem p (x ∷ xs) h =
    ground (arith, h x, eq_refl x, all_of_elem p xs (λ s m. h s (ground (arith, m))))

-- `table.get(k)` on a dictionary written out as its items.
module _ {ℓ} {V : Type ℓ} where
  abbrev pub lookup : String → List (String × V) → Option V
  lookup k [] = none
  lookup k ((j, v) ∷ m) = let rest = lookup k m in if k == j then some v else rest

  -- What a check of every item of a table says of an item that is found.
  pub lookup_checked :
      (p : String → V → Bool) (k : String) (m : List (String × V)) {v : V}
      → all (λ row. p row.0 row.1) m ≡ true
      → lookup k m ≡ some v
      → p k v ≡ true
  lookup_checked p k [] {v} h e = ground arith
  lookup_checked p k ((j, w) ∷ m) {v} h e = ground (arith, eq_iff k j, lookup_checked p k m {v = v})

-- `sorted({...})`: the names in the order of their code points, each once.
insert_sorted : String → List String → List String
insert_sorted s [] = s ∷ []
insert_sorted s (x ∷ xs) =
    let rest = insert_sorted s xs in
    elim (compare s x) [ Ordering.lt ↦ s ∷ x ∷ xs | Ordering.eq ↦ x ∷ xs | Ordering.gt ↦ x ∷ rest ]

unfoldable pub sorted_set : List String → List String
unfolding insert_sorted
sorted_set [] = []
sorted_set (x ∷ xs) = insert_sorted x (sorted_set xs)

elem-insert_sorted :
    (t s : String) (l : List String) → elem t (insert_sorted s l) ≡ (t == s || elem t l)
unfolding insert_sorted
elem-insert_sorted t s [] = refl
elem-insert_sorted t s (x ∷ xs) =
    ground (arith, eq_iff s x, eq_iff t s, eq_iff t x, elem-insert_sorted t s xs)

pub elem-sorted_set : (t : String) (l : List String) → elem t (sorted_set l) ≡ elem t l
unfolding sorted_set
elem-sorted_set t [] = refl
elem-sorted_set t (x ∷ xs) =
    ground (arith, elem-insert_sorted t x (sorted_set xs), elem-sorted_set t xs)

any-insert_sorted :
    (p : String → Bool) (s : String) (l : List String)
    → any p (insert_sorted s l) ≡ (p s || any p l)
unfolding insert_sorted
any-insert_sorted p s [] = refl
any-insert_sorted p s (x ∷ xs) = ground (arith, eq_iff s x, any-insert_sorted p s xs)

pub any-sorted_set : (p : String → Bool) (l : List String) → any p (sorted_set l) ≡ any p l
unfolding sorted_set
any-sorted_set p [] = refl
any-sorted_set p (x ∷ xs) =
    ground (arith, any-insert_sorted p x (sorted_set xs), any-sorted_set p xs)
