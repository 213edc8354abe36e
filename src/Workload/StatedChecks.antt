-- ===== src/Workload/StatedChecks.antt =====
-- jiritsu_workload/contracts.py: the parameters of a check of a stated fact, and those of any check.
use jiritsu.Base.{
  ℕ, eqb, String, ◌<>◌, Bool, true, false, not, ◌&&◌, ◌||◌, Option, none, some, List, [], ◌∷◌, ◌==◌,
  all, contains, codes, all_codes, split, if◌then◌else◌, ok, ◌>>=◌, ◌>>◌,
}
use jiritsu.Base.Ident.{is_digit, is_lower, is_upper}
use jiritsu.Json.{Value, null as no_value, bool, num, str, obj, Fields, get, get_or}
use jiritsu.Workload.Model.{Try, invalid, Direct, Parameters, direct, stated_fact}
use jiritsu.Workload.Checks.{require_string, require_id, choice, no_other, parse_direct}

is_word : ℕ → Bool
is_word c = is_digit c || is_lower c || is_upper c || eqb c 95 || eqb c 45

word : String → Bool
unfolding is_word
word s = not (s == "") && all_codes is_word (codes s)

segment : String → Bool
unfolding word
segment s = (s == "*") || word s

-- `FACT_PATH_PATTERN`: names separated by dots, of which all but the first may be a star.
unfoldable pub is_fact_path : String → Bool
unfolding segment word split
is_fact_path s = elim (split 46 s) [ [] ↦ false | first ∷ rest ↦ word first && all segment rest ]

abbrev pub with_expected : List String
with_expected = "at_least" ∷ "at_most" ∷ "contains" ∷ "equals" ∷ "not_equals" ∷ []

-- `FACT_OPERATORS`
abbrev pub operators : List String
operators = "exists" ∷ "nonempty" ∷ with_expected

abbrev pub direct_types : List String
direct_types = "command" ∷ "command_available" ∷ "environment" ∷ "path" ∷ "systemd_unit" ∷ []

abbrev pub is_scalar : Value → Bool
is_scalar (str s) = true
is_scalar (num n) = true
is_scalar (bool b) = true
is_scalar v = false

abbrev pub is_number : Value → Bool
is_number (num n) = true
is_number v = false

module _ (file : String) where
  unfoldable pub fact_path : Fields → Try (Option String)
  unfolding require_string is_fact_path
  fact_path d = elim (get d "path") [
    | none ↦ ok none
    | some v ↦ require_string file d "path" >>= λ s.
        if is_fact_path s
        then ok (some s)
        else invalid file "path must contain field names separated by dots and optional * segments"
            "path"
  ]

  -- The operand of an operator that takes one.
  unfoldable pub operand : String → Option Value → Try (Option Value)
  operand operator none =
      invalid file ("expected is required for the " <> (operator <> " operator")) "expected"
  operand operator (some v) =
      if not (is_scalar v)
      then invalid file "expected must be a string, number, or boolean" "expected"
      else if contains ("at_least" ∷ "at_most" ∷ []) operator && not (is_number v)
      then invalid file ("expected must be a number for the " <> (operator <> " operator"))
          "expected"
      else ok (some v)

  unfoldable pub no_operand : String → Option Value → Try (Option Value)
  no_operand operator none = ok none
  no_operand operator (some v) =
      invalid file ("expected is not valid for the " <> (operator <> " operator")) "expected"

  unfoldable pub expected_value : String → Option Value → Try (Option Value)
  unfolding operand no_operand
  expected_value operator o =
      if contains with_expected operator then operand operator o else no_operand operator o

  unfoldable pub fallback_value : Option Value → Try (Option Direct)
  unfolding choice parse_direct
  fallback_value none = ok none
  fallback_value (some (obj d)) = do
    kind ←
        choice file (get_or d "type" no_value) direct_types
          "fallback type must be one of ['command', 'command_available', 'environment', 'path', 'systemd_unit']"
          "fallback.type"
    parameters ← parse_direct file d kind
    ok (some parameters)
  fallback_value (some v) = invalid file "fallback must be a table" "fallback"

  unfoldable pub parse_stated : Fields → Try Parameters
  unfolding require_id choice fact_path expected_value fallback_value no_other
  parse_stated d = do
    fact ← require_id file d "fact"
    operator ←
        choice file (get_or d "operator" (str "exists")) operators
          "operator must be one of ['at_least', 'at_most', 'contains', 'equals', 'exists', 'nonempty', 'not_equals']"
          "operator"
    path ← fact_path d
    expected ← expected_value operator (get d "expected")
    fallback ← fallback_value (get d "fallback")
    no_other file d
        ("id" ∷ "type" ∷ "description" ∷ "fact" ∷ "path" ∷ "operator" ∷ "expected" ∷ "fallback"
          ∷ [])
        "check" ""
    ok (stated_fact fact operator path expected fallback)

  -- `_check_parameters`
  unfoldable pub check_parameters : Fields → String → Try Parameters
  unfolding parse_stated parse_direct
  check_parameters d kind =
      if kind == "stated_fact"
      then parse_stated d
      else parse_direct file d kind >>= λ p. ok (direct p)
