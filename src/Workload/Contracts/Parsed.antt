-- ===== src/Workload/Contracts/Parsed.antt =====
-- jiritsu_workload/contracts.py: what the parameters of a check that was read satisfy.
use jiritsu.Base.{
  String, true, false, Option, none, some, List, [], ◌∷◌, ◌==◌, ◌≡◌, subst, arith, inl, inr, null,
  contains, All, strip_is_empty, ok, ok-injective, >>=-eq-ok, Option-cases,
}
use jiritsu.Base.Ident.{lower_id}
use jiritsu.Json.{
  Number, int, Value, null as no_value, bool, num, str, arr, obj, Fields, get, get_or, values,
}
use jiritsu.Json.Numbers.{at_most_zero}
use jiritsu.Workload.Model.{Direct, command, command_available, environment, path, systemd_unit}
use jiritsu.Workload.Checks.{
  require_string, require_id, to_float, positive_number, choice, nonempty_texts, no_other,
  optional_text, optional_bool, exit_value, common, arguments_value, parse_available,
  parse_environment, parse_path, parse_unit, parse_command, parse_direct,
}

-- A text that is not blank.
abbrev pub IsText : String → Type 0
IsText s = strip_is_empty s ≡ false

abbrev pub IsPositive : Option Number → Type 0
IsPositive none = Unit
IsPositive (some n) = at_most_zero n ≡ false

-- The parameters of a probe of the machine.
abbrev pub IsDirect : Direct → Type 0
IsDirect (command arguments expected stdout timeout) =
    (null arguments ≡ false)
    × All (λ s. (s == "") ≡ false) arguments
    × (contains ("any" ∷ "nonempty" ∷ "empty" ∷ []) stdout ≡ true)
    × IsPositive timeout
IsDirect (command_available name) = IsText name
IsDirect (environment name equals nonempty) = IsText name
IsDirect (path target kind) =
    IsText target × (contains ("any" ∷ "file" ∷ "directory" ∷ "executable" ∷ []) kind ≡ true)
IsDirect (systemd_unit unit scope state) =
    IsText unit
    × (contains ("system" ∷ "user" ∷ []) scope ≡ true)
    × (contains ("active" ∷ "enabled" ∷ "failed" ∷ "inactive" ∷ []) state ≡ true)

module _ (file : String) where
  pub require_string-eq-ok :
      (d : Fields) (name s : String) → require_string file d name ≡ ok s → IsText s
  unfolding require_string
  require_string-eq-ok d name s h = ground arith

  pub require_id-eq-ok :
      (d : Fields) (name s : String) → require_id file d name ≡ ok s → lower_id s ≡ true
  unfolding require_id
  require_id-eq-ok d name s h = ground arith

  pub choice-eq-ok :
      (v : Value) (allowed : List String) (described name s : String)
      → choice file v allowed described name ≡ ok s
      → contains allowed s ≡ true
  unfolding choice
  choice-eq-ok v allowed described name s h = ground arith

  positive_number-eq-ok :
      (o : Option Value) (name : String) (r : Option Number)
      → positive_number file o name ≡ ok r
      → IsPositive r
  unfolding positive_number to_float
  positive_number-eq-ok o name r h = ground arith

  nonempty_texts-All :
      (vs : List Value) (ss : List String)
      → nonempty_texts file vs ≡ some ss
      → All (λ s. (s == "") ≡ false) ss
  unfolding nonempty_texts
  nonempty_texts-All [] ss h = ground arith
  nonempty_texts-All (str s ∷ vs) ss h = elim (Option-cases (nonempty_texts file vs)) [
    | inl q ↦ ground arith
    | inr (ts, q) ↦ let rest = nonempty_texts-All vs ts q in ground arith
  ]
  nonempty_texts-All (no_value ∷ vs) ss h = cc
  nonempty_texts-All (bool b ∷ vs) ss h = cc
  nonempty_texts-All (num b ∷ vs) ss h = cc
  nonempty_texts-All (arr b ∷ vs) ss h = cc
  nonempty_texts-All (obj b ∷ vs) ss h = cc

  arguments_value-eq-ok :
      (o : Option Value) (l : List String)
      → arguments_value file o ≡ ok l
      → (null l ≡ false) × All (λ s. (s == "") ≡ false) l
  unfolding arguments_value
  arguments_value-eq-ok (some (arr vs)) l h =
      elim (Option-cases (nonempty_texts file (values vs))) [
        | inl q ↦ ground arith
        | inr (ts, q) ↦ let rest = nonempty_texts-All (values vs) ts q in ground arith
      ]
  arguments_value-eq-ok none l h = cc
  arguments_value-eq-ok (some no_value) l h = cc
  arguments_value-eq-ok (some (bool b)) l h = cc
  arguments_value-eq-ok (some (num b)) l h = cc
  arguments_value-eq-ok (some (str b)) l h = cc
  arguments_value-eq-ok (some (obj b)) l h = cc

  parse_available-IsDirect : (d : Fields) (r : Direct) → parse_available file d ≡ ok r → IsDirect r
  unfolding parse_available
  parse_available-IsDirect d r h =
      let (name, p, h1) = >>=-eq-ok (require_string file d "command") _ h in
      let (u, _, h2) = >>=-eq-ok (no_other file d ("command" ∷ common file) "check" "") _ h1 in
      subst IsDirect (ok-injective h2) (require_string-eq-ok d "command" name p)

  parse_environment-IsDirect :
      (d : Fields) (r : Direct) → parse_environment file d ≡ ok r → IsDirect r
  unfolding parse_environment
  parse_environment-IsDirect d r h =
      let (name, p, h1) = >>=-eq-ok (require_string file d "name") _ h in
      let (equals, _, h2) = >>=-eq-ok (optional_text file (get d "equals") "equals") _ h1 in
      let (nonempty, _, h3) = >>=-eq-ok (optional_bool file (get d "nonempty") "nonempty") _ h2 in
      let (u, _, h4) =
        >>=-eq-ok (no_other file d ("name" ∷ "equals" ∷ "nonempty" ∷ common file) "check" "") _
          h3 in
      subst IsDirect (ok-injective h4) (require_string-eq-ok d "name" name p)

  parse_path-IsDirect : (d : Fields) (r : Direct) → parse_path file d ≡ ok r → IsDirect r
  unfolding parse_path
  parse_path-IsDirect d r h =
      let (target, p, h1) = >>=-eq-ok (require_string file d "path") _ h in
      let (kind, q, h2) = >>=-eq-ok (choice file (get_or d "kind" (str "any")) _ _ _) _ h1 in
      let (u, _, h3) =
        >>=-eq-ok (no_other file d ("path" ∷ "kind" ∷ common file) "check" "") _ h2 in
      subst IsDirect (ok-injective h3) (
        require_string-eq-ok d "path" target p,
        choice-eq-ok (get_or d "kind" (str "any"))
            ("any" ∷ "file" ∷ "directory" ∷ "executable" ∷ [])
            "kind must be one of ['any', 'directory', 'executable', 'file']" "kind" kind q,
      )

  parse_unit-IsDirect : (d : Fields) (r : Direct) → parse_unit file d ≡ ok r → IsDirect r
  unfolding parse_unit
  parse_unit-IsDirect d r h =
      let (unit, p, h1) = >>=-eq-ok (require_string file d "unit") _ h in
      let (scope, q, h2) = >>=-eq-ok (choice file (get_or d "scope" (str "user")) _ _ _) _ h1 in
      let (state, t, h3) = >>=-eq-ok (choice file (get_or d "state" (str "active")) _ _ _) _ h2 in
      let (u, _, h4) =
        >>=-eq-ok (no_other file d ("unit" ∷ "scope" ∷ "state" ∷ common file) "check" "") _ h3 in
      subst IsDirect (ok-injective h4) (
        require_string-eq-ok d "unit" unit p,
        choice-eq-ok (get_or d "scope" (str "user")) ("system" ∷ "user" ∷ [])
            "scope must be one of ['system', 'user']" "scope" scope q,
        choice-eq-ok (get_or d "state" (str "active"))
            ("active" ∷ "enabled" ∷ "failed" ∷ "inactive" ∷ [])
            "state must be one of ['active', 'enabled', 'failed', 'inactive']" "state" state t,
      )

  parse_command-IsDirect : (d : Fields) (r : Direct) → parse_command file d ≡ ok r → IsDirect r
  unfolding parse_command
  parse_command-IsDirect d r h =
      let (arguments, p, h1) = >>=-eq-ok (arguments_value file (get d "command")) _ h in
      let (expected, _, h2) =
        >>=-eq-ok (exit_value file (get_or d "expected_exit" (num (int false 0)))) _ h1 in
      let (stdout, q, h3) = >>=-eq-ok (choice file (get_or d "stdout" (str "any")) _ _ _) _ h2 in
      let (timeout, t, h4) =
        >>=-eq-ok (positive_number file (get d "timeout_seconds") "timeout_seconds") _ h3 in
      let (u, _, h5) =
        >>=-eq-ok
          (no_other file d
            ("command" ∷ "expected_exit" ∷ "stdout" ∷ "timeout_seconds" ∷ common file) "check" "")
          _ h4 in
      let (nonempty, every) = arguments_value-eq-ok (get d "command") arguments p in
      subst IsDirect (ok-injective h5) (
        nonempty,
        every,
        choice-eq-ok (get_or d "stdout" (str "any")) ("any" ∷ "nonempty" ∷ "empty" ∷ [])
            "stdout must be one of ['any', 'empty', 'nonempty']" "stdout" stdout q,
        positive_number-eq-ok (get d "timeout_seconds") "timeout_seconds" timeout t,
      )

  pub parse_direct-IsDirect :
      (d : Fields) (kind : String) (r : Direct) → parse_direct file d kind ≡ ok r → IsDirect r
  unfolding parse_direct
  parse_direct-IsDirect d kind r h = ground (
    arith,
    parse_available-IsDirect d r,
    parse_environment-IsDirect d r,
    parse_path-IsDirect d r,
    parse_unit-IsDirect d r,
    parse_command-IsDirect d r,
  )
