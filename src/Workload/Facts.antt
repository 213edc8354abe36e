-- ===== src/Workload/Facts.antt =====
-- jiritsu_workload/probes.py: the value under a path of a fact, and the operators on it. A
-- `ValueError` or `TypeError` of the source is `none` here: one handler catches both.
use jiritsu.Base.{
  eqb, String, Bool, true, false, not, ◌||◌, Option, none, some, List, [], ◌∷◌, ◌++◌, ◌==◌, any,
  null, contains, split, starts_with, if◌then◌else◌,
}
use jiritsu.Json.{
  int, float, Value, null as no_value, bool, num, str, arr, obj, get, keys, values, items,
}
use jiritsu.Json.Numbers.{num_eq, num_le, number_of}

-- The values of a field, for each of the current objects.
unfoldable pub fields_of : String → List Value → Option (List Value)
fields_of segment [] = some []
fields_of segment (obj d ∷ vs) = elim (get d segment) [
  | none ↦ none
  | some v ↦ elim (fields_of segment vs) [ none ↦ none | some ws ↦ some (v ∷ ws) ]
]
fields_of segment (v ∷ vs) = none

-- The members of each of the current arrays.
unfoldable pub members_of : List Value → Option (List Value)
members_of [] = some []
members_of (arr items ∷ vs) = elim (members_of vs) [
  | none ↦ none
  | some ws ↦ some (values items ++ ws)
]
members_of (v ∷ vs) = none

-- The loop over the segments of a path.
unfoldable pub walk : List String → List Value → Option (List Value)
unfolding fields_of members_of
walk [] current = some current
walk (s ∷ ss) current = elim (if s == "*" then members_of current else fields_of s current) [
  | none ↦ none
  | some next ↦ walk ss next
]

single : List Value → Option Value
single (v ∷ []) = some v
single vs = none

-- `_extract_fact_path`: with a star the result is the array of what was found.
unfoldable pub extract_fact_path : Value → Option String → Option Value
unfolding split walk single
extract_fact_path value none = some value
extract_fact_path value (some path) = elim (walk (split 46 path) (value ∷ [])) [
  | none ↦ none
  | some found ↦ if contains (split 46 path) "*" then some (arr (items found)) else single found
]

-- `bool(value)`
unfoldable pub truthy : Value → Bool
truthy no_value = false
truthy (bool b) = b
truthy (num (int minus k)) = not (eqb k 0)
truthy (num (float minus m s)) = not (eqb m 0)
truthy (num n) = true
truthy (str s) = not (s == "")
truthy (arr vs) = not (null (values vs))
truthy (obj d) = not (null (keys d))

-- `actual == expected`, for an operand that is a text, a number or a Boolean: `True` is 1.
unfoldable pub equals : Value → Value → Bool
unfolding num_eq number_of
equals (str s) (str t) = s == t
equals no_value no_value = true
equals actual expected = elim (number_of actual) [
  | none ↦ false
  | some m ↦ elim (number_of expected) [ none ↦ false | some n ↦ num_eq m n ]
]

-- `text in other`, for texts
unfoldable pub is_inside : String → String → Bool
is_inside t String.[] = t == ""
is_inside t (String.◌∷◌ c s) = starts_with t (String.◌∷◌ c s) || is_inside t s

-- `expected in actual`
unfoldable pub contains_value : Value → Value → Option Bool
unfolding equals is_inside
contains_value (str s) (str t) = some (is_inside t s)
contains_value (str s) expected = none
contains_value (arr vs) expected = some (any (λ v. equals v expected) (values vs))
contains_value (obj d) (str t) = some (contains (keys d) t)
contains_value (obj d) expected = some false
contains_value actual expected = none

-- The two orders, on numbers.
unfoldable pub compare_value : (at_least : Bool) → Value → Value → Option Bool
unfolding num_le number_of
compare_value at_least (num m) expected = elim (number_of expected) [
  | none ↦ none
  | some n ↦ some (if at_least then num_le n m else num_le m n)
]
compare_value at_least actual expected = none

-- `_evaluate_fact`
unfoldable pub evaluate_fact : Value → String → Value → Option Bool
unfolding truthy equals contains_value compare_value
evaluate_fact actual operator expected =
    if operator == "exists"
    then some true
    else if operator == "nonempty"
    then some (truthy actual)
    else if operator == "equals"
    then some (equals actual expected)
    else if operator == "not_equals"
    then some (not (equals actual expected))
    else if operator == "contains"
    then contains_value actual expected
    else compare_value (operator == "at_least") actual expected
