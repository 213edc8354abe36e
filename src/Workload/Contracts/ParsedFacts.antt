-- ===== src/Workload/Contracts/ParsedFacts.antt =====
-- jiritsu_workload/contracts.py: what the parameters of a check on a stated fact satisfy, once read.
use jiritsu.Base.{
  String, true, not, ◌||◌, Option, none, some, [], ◌∷◌, ◌==◌, ◌≡◌, subst, arith, inl, inr, contains,
  is_some, ok, ok-injective, >>=-eq-ok, Option-cases, Bool-cases, Result-cases,
}
use jiritsu.Base.Ident.{lower_id}
use jiritsu.Json.{Value, null as no_value, bool, num, str, arr, obj, Fields, get, get_or}
use jiritsu.Workload.Model.{Direct, Parameters, direct, stated_fact}
use jiritsu.Workload.Checks.{require_id, choice, no_other, parse_direct}
use jiritsu.Workload.StatedChecks.{
  is_fact_path, operators, with_expected, is_scalar, is_number, fact_path, operand, no_operand,
  expected_value, fallback_value, parse_stated, check_parameters,
}
use jiritsu.Workload.Contracts.Parsed.{
  IsDirect, parse_direct-IsDirect, require_id-eq-ok, choice-eq-ok,
}

abbrev pub IsPath : Option String → Type 0
IsPath none = Unit
IsPath (some s) = is_fact_path s ≡ true

-- The operand of an operator: a number for the two orders.
abbrev pub IsOperand : String → Option Value → Type 0
IsOperand operator none = Unit
IsOperand operator (some v) =
    (is_scalar v ≡ true)
    × ((not (contains ("at_least" ∷ "at_most" ∷ []) operator) || is_number v) ≡ true)

abbrev pub IsFallback : Option Direct → Type 0
IsFallback none = Unit
IsFallback (some d) = IsDirect d

abbrev pub IsParameters : Parameters → Type 0
IsParameters (direct d) = IsDirect d
IsParameters (stated_fact fact operator place expected fallback) =
    (lower_id fact ≡ true)
    × (contains operators operator ≡ true)
    × IsPath place
    × (is_some expected ≡ contains with_expected operator)
    × IsOperand operator expected
    × IsFallback fallback

module _ (file : String) where
  fact_path-eq-ok : (d : Fields) (o : Option String) → fact_path file d ≡ ok o → IsPath o
  unfolding fact_path
  fact_path-eq-ok d o h = elim (Option-cases (get d "path")) [
    | inl q ↦ ground arith
    | inr (v, q) ↦ ground arith
  ]

  expected_value-eq-ok :
      (operator : String) (o r : Option Value)
      → expected_value file operator o ≡ ok r
      → (is_some r ≡ contains with_expected operator) × IsOperand operator r
  unfolding expected_value operand no_operand
  expected_value-eq-ok operator none r h = ground arith
  expected_value-eq-ok operator (some v) r h = ground arith

  fallback_value-eq-ok :
      (o : Option Value) (r : Option Direct) → fallback_value file o ≡ ok r → IsFallback r
  unfolding fallback_value
  fallback_value-eq-ok none r h = ground arith
  fallback_value-eq-ok (some (obj d)) r h =
      let (kind, _, h1) = >>=-eq-ok (choice file (get_or d "type" no_value) _ _ _) _ h in
      let (parameters, p, h2) = >>=-eq-ok (parse_direct file d kind) _ h1 in
      subst IsFallback (ok-injective h2) (parse_direct-IsDirect file d kind parameters p)
  fallback_value-eq-ok (some no_value) r h = cc
  fallback_value-eq-ok (some (bool b)) r h = cc
  fallback_value-eq-ok (some (num b)) r h = cc
  fallback_value-eq-ok (some (str b)) r h = cc
  fallback_value-eq-ok (some (arr b)) r h = cc

  parse_stated-IsParameters :
      (d : Fields) (r : Parameters) → parse_stated file d ≡ ok r → IsParameters r
  unfolding parse_stated
  parse_stated-IsParameters d r h =
      let (fact, f, h1) = >>=-eq-ok (require_id file d "fact") _ h in
      let (operator, o, h2) =
        >>=-eq-ok (choice file (get_or d "operator" (str "exists")) _ _ _) _ h1 in
      let (place, p, h3) = >>=-eq-ok (fact_path file d) _ h2 in
      let (expected, e, h4) = >>=-eq-ok (expected_value file operator (get d "expected")) _ h3 in
      let (fallback, b, h5) = >>=-eq-ok (fallback_value file (get d "fallback")) _ h4 in
      let (u, _, h6) = >>=-eq-ok (no_other file d _ "check" "") _ h5 in
      let (present, numeric) = expected_value-eq-ok operator (get d "expected") expected e in
      subst IsParameters (ok-injective h6) (
        require_id-eq-ok file d "fact" fact f,
        choice-eq-ok file (get_or d "operator" (str "exists")) operators
            "operator must be one of ['at_least', 'at_most', 'contains', 'equals', 'exists', 'nonempty', 'not_equals']"
            "operator" operator o,
        fact_path-eq-ok d place p,
        present,
        numeric,
        fallback_value-eq-ok (get d "fallback") fallback b,
      )

  -- The parameters of a check that `_check_parameters` returns.
  pub check_parameters-IsParameters :
      (d : Fields) (kind : String) (r : Parameters)
      → check_parameters file d kind ≡ ok r
      → IsParameters r
  unfolding check_parameters
  check_parameters-IsParameters d kind r h = elim (Bool-cases (kind == "stated_fact")) [
    | inl q ↦ ground (arith, parse_stated-IsParameters d r)
    | inr q ↦ elim (Result-cases (parse_direct file d kind)) [
      | inl (e, p) ↦ ground arith
      | inr (x, p) ↦ ground (arith, parse_direct-IsDirect file d kind x p)
    ]
  ]
