-- ===== src/Base/Lists.antt =====
-- Lists measured by native numbers and searched by Boolean tests.
use Prim.Native.Nat.{ℕ, suc, ◌+◌, ◌≤◌}
use mathlib.Core.Path.{◌≡◌, refl}
use mathlib.Core.Bool.{Bool, true, false, not, ◌&&◌, ◌||◌}
use mathlib.Core.Option.{Option, none, some}
use mathlib.Core.List.{List, [], ◌∷◌, ◌++◌, map}
use native.Mathlib.Omega.{arith}
use quaestor.Base.Tests.{if◌then◌else◌, Bool-cases}
use mathlib.Core.Logic.{inl, inr}

module _ {ℓ} {A : Type ℓ} where
  abbrev pub length : List A → ℕ
  length [] = 0
  length (x ∷ xs) = suc (length xs)

  abbrev pub any : (A → Bool) → List A → Bool
  any p [] = false
  any p (x ∷ xs) = p x || any p xs

  abbrev pub all : (A → Bool) → List A → Bool
  all p [] = true
  all p (x ∷ xs) = p x && all p xs

  -- The items that pass a test, in their order.
  abbrev pub filter : (A → Bool) → List A → List A
  filter p [] = []
  filter p (x ∷ xs) = let rest = filter p xs in if p x then x ∷ rest else rest

  -- The first item that passes a test.
  abbrev pub find : (A → Bool) → List A → Option A
  find p [] = none
  find p (x ∷ xs) = let rest = find p xs in if p x then some x else rest

  abbrev pub is_empty : List A → Bool
  is_empty [] = true
  is_empty (x ∷ xs) = false

  abbrev pub head? : List A → Option A
  head? [] = none
  head? (x ∷ xs) = some x

  pub length-append : (xs ys : List A) → length (xs ++ ys) ≡ length xs + length ys
  length-append [] ys = omega arith
  length-append (x ∷ xs) ys = omega (arith, length-append xs ys)

  pub length-filter-le : (p : A → Bool) (xs : List A) → length (filter p xs) ≤ length xs
  length-filter-le p [] = omega arith
  length-filter-le p (x ∷ xs) = ground (arith, length-filter-le p xs)

  pub find_sound : (p : A → Bool) (xs : List A) {x : A} → find p xs ≡ some x → p x ≡ true
  find_sound p [] {x} h = ground arith
  find_sound p (y ∷ xs) {x} h = ground (arith, find_sound p xs {x = x})

  pub all-append : (p : A → Bool) (xs ys : List A) → all p (xs ++ ys) ≡ (all p xs && all p ys)
  all-append p [] ys = refl
  all-append p (x ∷ xs) ys = ground (arith, all-append p xs ys)

  pub any-append : (p : A → Bool) (xs ys : List A) → any p (xs ++ ys) ≡ (any p xs || any p ys)
  any-append p [] ys = refl
  any-append p (x ∷ xs) ys = ground (arith, any-append p xs ys)

  pub not-is_empty-filter : (p : A → Bool) (xs : List A) → not (is_empty (filter p xs)) ≡ any p xs
  not-is_empty-filter p [] = refl
  not-is_empty-filter p (x ∷ xs) = ground (arith, not-is_empty-filter p xs)

  pub is_empty-filter-not :
      (p : A → Bool) (xs : List A) → is_empty (filter (λ x. not (p x)) xs) ≡ all p xs
  is_empty-filter-not p [] = refl
  is_empty-filter-not p (x ∷ xs) = ground (arith, is_empty-filter-not p xs)

  pub any-filter : (p q : A → Bool) (xs : List A) → any p (filter q xs) ≡ any (λ x. q x && p x) xs
  any-filter p q [] = refl
  any-filter p q (x ∷ xs) = ground (arith, any-filter p q xs)

module _ {ℓ κ} {A : Type ℓ} {B : Type κ} where
  -- A test on the images of the items that pass another test.
  pub any-map-filter :
      (p : B → Bool) (f : A → B) (q : A → Bool) (xs : List A)
      → any p (map f (filter q xs)) ≡ any (λ x. q x && p (f x)) xs
  any-map-filter p f q [] = refl
  any-map-filter p f q (x ∷ xs) = ground (arith, any-map-filter p f q xs)

module _ {ℓ} {A : Type ℓ} where
  pub all_weaken :
      (p q : A → Bool) (xs : List A)
      → ((x : A) → p x ≡ true → q x ≡ true)
      → all p xs ≡ true
      → all q xs ≡ true
  all_weaken p q [] w h = refl
  all_weaken p q (x ∷ xs) w h = ground (arith, w x, all_weaken p q xs w)

  -- A map that keeps one test and turns another into a third.
  pub any-filter-map :
      (p r q : A → Bool) (f : A → A) (xs : List A)
      → ((x : A) → q (f x) ≡ q x)
      → ((x : A) → p (f x) ≡ r x)
      → any p (filter q (map f xs)) ≡ any r (filter q xs)
  any-filter-map p r q f [] kept turned = refl
  any-filter-map p r q f (x ∷ xs) kept turned =
      ground (arith, kept x, turned x, any-filter-map p r q f xs kept turned)

  -- A map that keeps a test keeps the number of the items that pass it.
  pub count-map :
      (p : A → Bool) (f : A → A) (xs : List A)
      → ((x : A) → p (f x) ≡ p x)
      → length (filter p (map f xs)) ≡ length (filter p xs)
  count-map p f [] kept = refl
  count-map p f (x ∷ xs) kept = ground (arith, kept x, count-map p f xs kept)

  pub count-append :
      (p : A → Bool) (xs ys : List A)
      → length (filter p (xs ++ ys)) ≡ length (filter p xs) + length (filter p ys)
  count-append p [] ys = omega arith
  count-append p (x ∷ xs) ys = ground (arith, count-append p xs ys)

  -- Nothing passes a test that no item passes.
  pub count-none : (p : A → Bool) (xs : List A) → any p xs ≡ false → length (filter p xs) ≡ 0
  count-none p [] h = refl
  count-none p (x ∷ xs) h = ground (arith, count-none p xs)

  -- A map that at most removes items from those that pass a test.
  pub count-map-le :
      (p : A → Bool) (f : A → A) (xs : List A)
      → ((x : A) → p (f x) ≡ true → p x ≡ true)
      → length (filter p (map f xs)) ≤ length (filter p xs)
  count-map-le p f [] kept = omega arith
  count-map-le p f (x ∷ xs) kept = ground (arith, kept x, count-map-le p f xs kept)

  pub find-none : (p : A → Bool) (xs : List A) → find p xs ≡ none → any p xs ≡ false
  find-none p [] h = refl
  find-none p (x ∷ xs) h = ground (arith, find-none p xs)

  -- What is found is found in a longer list.
  pub find-append :
      (p : A → Bool) (xs ys : List A) {x : A} → find p xs ≡ some x → find p (xs ++ ys) ≡ some x
  find-append p [] ys {x} h = ground arith
  find-append p (y ∷ xs) ys {x} h = ground (arith, find-append p xs ys {x = x})

  pub find-some : (p : A → Bool) (xs : List A) → any p xs ≡ true → (x : A) × (find p xs ≡ some x)
  find-some p [] h = absurd (ground arith)
  find-some p (x ∷ xs) h = elim (Bool-cases (p x)) [
    | inl e ↦ (x, ground (arith, e))
    | inr e ↦ let (y, found) = find-some p xs (ground (arith, e)) in (y, ground (arith, e, found))
  ]

  pub filter-none : (p : A → Bool) (xs : List A) → length (filter p xs) ≡ 0 → filter p xs ≡ []
  filter-none p [] h = refl
  filter-none p (x ∷ xs) h = ground (arith, filter-none p xs)

  pub filter-append :
      (p : A → Bool) (xs ys : List A) → filter p (xs ++ ys) ≡ filter p xs ++ filter p ys
  filter-append p [] ys = refl
  filter-append p (x ∷ xs) ys = ground (arith, filter-append p xs ys)

  -- No item fails a test that all pass.
  pub any-not : (p : A → Bool) (xs : List A) → any (λ x. not (p x)) xs ≡ not (all p xs)
  any-not p [] = refl
  any-not p (x ∷ xs) = ground (arith, any-not p xs)

  -- No item passes a test that each item of the list fails.
  pub any_excluded :
      (p q : A → Bool) (xs : List A)
      → ((x : A) → q x ≡ true → p x ≡ false)
      → all q xs ≡ true
      → any p xs ≡ false
  any_excluded p q [] w h = refl
  any_excluded p q (x ∷ xs) w h = ground (arith, w x, any_excluded p q xs w)

  -- What only the last item passes is found there.
  pub find-append-none :
      (p : A → Bool) (xs : List A) (x : A)
      → find p xs ≡ none
      → p x ≡ true
      → find p (xs ++ x ∷ []) ≡ some x
  find-append-none p [] x h e = ground (arith, e)
  find-append-none p (y ∷ xs) x h e = ground (arith, h, e, find-append-none p xs x)
