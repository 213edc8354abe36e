-- ===== src/Base/Lists.antt =====
-- Lists of texts, as Python's sets, and lists measured by native numbers.
use Prim.Native.Nat.{ℕ, suc, ◌+◌, ◌≤◌}
use Prim.Native.String.{String, compare}
use mathlib.Core.Path.{◌≡◌, refl, ◌∙◌}
use mathlib.Core.Bool.{Bool, true, false, not, ◌&&◌, ◌||◌}
use mathlib.Core.Logic.{◌⊎◌, inl, inr}
use mathlib.Core.List.{List, [], ◌∷◌, ◌++◌}
use native.Mathlib.Omega.{arith}
use text.Mathlib.Text.{◌==◌, is_le}
use text.Mathlib.TextEquality.{eq_iff}
use text.Mathlib.TextPositions.{eq_refl}
use jiritsu.Base.Test.{if◌then◌else◌}

module _ {ℓ} {A : Type ℓ} where
  abbrev pub length : List A → ℕ
  length [] = 0
  length (x ∷ xs) = suc (length xs)

  pub length-append : (xs ys : List A) → length (xs ++ ys) ≡ length xs + length ys
  length-append [] ys = omega arith
  length-append (x ∷ xs) ys = omega (arith, length-append xs ys)

  -- Every item, as a recursion into the universe, and as a test.
  abbrev pub All {κ} : (A → Type κ) → List A → Type κ
  All P [] = Unit
  All P (x ∷ xs) = P x × All P xs

  abbrev pub all : (A → Bool) → List A → Bool
  all p [] = true
  all p (x ∷ xs) = p x && all p xs

  abbrev pub any : (A → Bool) → List A → Bool
  any p [] = false
  any p (x ∷ xs) = p x || any p xs

  abbrev pub null : List A → Bool
  null [] = true
  null (x ∷ xs) = false

-- `x in xs`
abbrev pub contains : List String → String → Bool
contains [] x = false
contains (y ∷ ys) x = y == x || contains ys x

-- No text stands twice.
abbrev pub Distinct : List String → Type 0
Distinct [] = Unit
Distinct (x ∷ xs) = (contains xs x ≡ false) × Distinct xs

-- `set(xs) - set(ys)`, in the order of `xs`
unfoldable pub minus : List String → List String → List String
minus [] ys = []
minus (x ∷ xs) ys = let rest = minus xs ys in if contains ys x then rest else x ∷ rest

-- `not (set(xs) & set(ys))`
unfoldable pub disjoint : List String → List String → Bool
disjoint [] ys = true
disjoint (x ∷ xs) ys = not (contains ys x) && disjoint xs ys

-- `sorted(set(xs))`: insertion into an ordered list, a text that is there already is left out.
insert_sorted : String → List String → List String
insert_sorted x [] = x ∷ []
insert_sorted x (y ∷ ys) =
    let rest = y ∷ insert_sorted x ys in
    if x == y then y ∷ ys else if is_le (compare x y) then x ∷ y ∷ ys else rest

unfoldable pub sorted : List String → List String
unfolding insert_sorted
sorted [] = []
sorted (x ∷ xs) = insert_sorted x (sorted xs)

-- `list(dict.fromkeys(xs))`: the first occurrence of each. `seen` holds the keys so far.
unique_from : List String → List String → List String
unique_from seen [] = []
unique_from seen (x ∷ xs) =
    let fresh = x ∷ unique_from (x ∷ seen) xs in
    let known = unique_from seen xs in if contains seen x then known else fresh

unfoldable pub unique : List String → List String
unfolding unique_from
unique xs = unique_from [] xs

pub contains-append :
    (xs ys : List String) (a : String) → contains (xs ++ ys) a ≡ (contains xs a || contains ys a)
contains-append [] ys a = refl
contains-append (x ∷ xs) ys a = ground (arith, contains-append xs ys a)

pub contains-minus :
    (xs ys : List String) (a : String)
    → contains (minus xs ys) a ≡ (contains xs a && not (contains ys a))
unfolding minus
contains-minus [] ys a = refl
contains-minus (x ∷ xs) ys a = ground (arith, eq_iff x a, contains-minus xs ys a)

contains-insert_sorted :
    (x : String) (xs : List String) (a : String)
    → contains (insert_sorted x xs) a ≡ (x == a || contains xs a)
unfolding insert_sorted
contains-insert_sorted x [] a = refl
contains-insert_sorted x (y ∷ ys) a =
    ground (arith, eq_iff x y, eq_iff x a, eq_iff y a, contains-insert_sorted x ys a)

-- Sorting keeps the members.
pub contains-sorted : (xs : List String) (a : String) → contains (sorted xs) a ≡ contains xs a
unfolding sorted
contains-sorted [] a = refl
contains-sorted (x ∷ xs) a =
    ground (arith, contains-insert_sorted x (sorted xs) a, contains-sorted xs a)

insert_sorted-Distinct :
    (x : String) (xs : List String)
    → contains xs x ≡ false
    → Distinct xs
    → Distinct (insert_sorted x xs)
unfolding insert_sorted
insert_sorted-Distinct x [] h d = (refl, tt)
insert_sorted-Distinct x (y ∷ ys) h (a, d) =
    ground
      (arith, eq_iff x y, eq_iff y x, insert_sorted-Distinct x ys, contains-insert_sorted x ys y)

-- Sorting keeps texts distinct.
pub sorted-Distinct : (xs : List String) → Distinct xs → Distinct (sorted xs)
unfolding sorted
sorted-Distinct [] d = tt
sorted-Distinct (x ∷ xs) (a, d) =
    insert_sorted-Distinct x (sorted xs) (contains-sorted xs x ∙ a) (sorted-Distinct xs d)

pub List-cases {ℓ} : {A : Type ℓ} (l : List A) → (l ≡ []) ⊎ ((x : A) × (xs : List A) × (l ≡ x ∷ xs))
List-cases [] = inl refl
List-cases (x ∷ xs) = inr (x, xs, refl)

contains-unique_from :
    (seen xs : List String) (a : String)
    → contains (unique_from seen xs) a ≡ (contains xs a && not (contains seen a))
unfolding unique_from
contains-unique_from seen [] a = refl
contains-unique_from seen (x ∷ xs) a =
    ground (arith, eq_iff x a, contains-unique_from seen xs a, contains-unique_from (x ∷ seen) xs a)

unique_from-Distinct : (seen xs : List String) → Distinct (unique_from seen xs)
unfolding unique_from
unique_from-Distinct seen [] = tt
unique_from-Distinct seen (x ∷ xs) = ground (
  arith,
  eq_refl x,
  unique_from-Distinct seen xs,
  unique_from-Distinct (x ∷ seen) xs,
  contains-unique_from (x ∷ seen) xs x,
)

length-unique_from : (seen xs : List String) → length (unique_from seen xs) ≤ length xs
unfolding unique_from
length-unique_from seen [] = omega arith
length-unique_from seen (x ∷ xs) =
    ground (arith, length-unique_from seen xs, length-unique_from (x ∷ seen) xs)

-- `dict.fromkeys` keeps the members, each once.
pub contains-unique : (xs : List String) (a : String) → contains (unique xs) a ≡ contains xs a
unfolding unique
contains-unique xs a = ground (arith, contains-unique_from [] xs a)

pub unique-Distinct : (xs : List String) → Distinct (unique xs)
unfolding unique
unique-Distinct xs = unique_from-Distinct [] xs

pub length-unique : (xs : List String) → length (unique xs) ≤ length xs
unfolding unique
length-unique xs = length-unique_from [] xs
