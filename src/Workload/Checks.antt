-- ===== src/Workload/Checks.antt =====
-- jiritsu_workload/contracts.py: the fields of a contract's tables, and the parameters of a check.
use jiritsu.Base.{
  leb, String, ◌<>◌, Bool, false, Option, none, some, List, [], ◌∷◌, ◌==◌, contains, minus, sorted,
  strip_is_empty, if◌then◌else◌, ok, err, ◌>>=◌, ◌>>◌,
}
use jiritsu.Base.Ident.{lower_id}
use jiritsu.Json.{Number, int, Value, bool, num, str, arr, obj, Fields, get, get_or, keys, values}
use jiritsu.Json.Numbers.{float_limit, at_most_zero}
use jiritsu.Workload.Model.{
  Try, type_error, overflow_error, invalid, Direct, command, command_available, environment, path,
  systemd_unit,
}

module _ (file : String) where
  -- `_require_string`
  unfoldable pub require_string : Fields → String → Try String
  require_string d name = elim (get d name) [
    | some (str s) ↦
        if strip_is_empty s then invalid file (name <> " must be a nonempty string") name else ok s
    | _ ↦ invalid file (name <> " must be a nonempty string") name
  ]

  -- `_require_id`
  unfoldable pub require_id : Fields → String → Try String
  unfolding require_string
  require_id d name = do
    value ← require_string d name
    if lower_id value
        then ok value
        else invalid file
            (name <> " must use lowercase letters, numbers, dots, underscores, or hyphens") name

  -- `_require_bool`
  require_bool : Value → String → Try Bool
  require_bool (bool b) name = ok b
  require_bool v name = invalid file (name <> " must be a boolean") name

  -- `float(value)`
  unfoldable pub to_float : Number → Try Number
  to_float (int minus k) = if leb float_limit k then err overflow_error else ok (int minus k)
  to_float n = ok n

  -- `_positive_number`
  unfoldable pub positive_number : Option Value → String → Try (Option Number)
  unfolding to_float
  positive_number none name = ok none
  positive_number (some (num n)) name =
      if at_most_zero n
      then invalid file (name <> " must be a positive number") name
      else to_float n >>= λ x. ok (some x)
  positive_number (some v) name = invalid file (name <> " must be a positive number") name

  -- `value not in VALUES`, and the error: an array or a table cannot be hashed.
  unfoldable pub choice : Value → List String → (described name : String) → Try String
  choice (str s) allowed described name =
      if contains allowed s then ok s else invalid file described name
  choice (arr vs) allowed described name = err type_error
  choice (obj d) allowed described name = err type_error
  choice v allowed described name = invalid file described name

  -- The fields that a check may not have.
  unfoldable pub no_other : Fields → List String → String → String → Try (Unit {0})
  no_other d allowed kind prefix = elim (sorted (minus (keys d) allowed)) [
    | [] ↦ ok tt
    | u ∷ us ↦ invalid file ("unknown " <> (kind <> (" field: " <> u))) (prefix <> u)
  ]

  -- `all(isinstance(argument, str) and argument for argument in command)`, as texts
  unfoldable pub nonempty_texts : List Value → Option (List String)
  nonempty_texts [] = some []
  nonempty_texts (str s ∷ vs) = elim (nonempty_texts vs) [
    | none ↦ none
    | some ss ↦ if s == "" then none else some (s ∷ ss)
  ]
  nonempty_texts (v ∷ vs) = none

  unfoldable pub arguments_value : Option Value → Try (List String)
  unfolding nonempty_texts
  arguments_value (some (arr vs)) = elim (nonempty_texts (values vs)) [
    | some (s ∷ ss) ↦ ok (s ∷ ss)
    | _ ↦ invalid file "command must be a nonempty array of nonempty strings" "command"
  ]
  arguments_value o = invalid file "command must be a nonempty array of nonempty strings" "command"

  unfoldable pub exit_value : Value → Try Number
  exit_value (num (int minus k)) = ok (int minus k)
  exit_value v = invalid file "expected_exit must be an integer" "expected_exit"

  unfoldable pub optional_text : Option Value → String → Try (Option String)
  optional_text none name = ok none
  optional_text (some (str s)) name = ok (some s)
  optional_text (some v) name = invalid file (name <> " must be a string") name

  unfoldable pub optional_bool : Option Value → String → Try (Option Bool)
  unfolding require_bool
  optional_bool none name = ok none
  optional_bool (some v) name = require_bool v name >>= λ b. ok (some b)

  abbrev pub common : List String
  common = "id" ∷ "type" ∷ "description" ∷ []

  -- The branches of `_check_parameters`, by the type of the check.
  unfoldable pub parse_available : Fields → Try Direct
  unfolding require_string no_other
  parse_available d = do
    name ← require_string d "command"
    no_other d ("command" ∷ common) "check" ""
    ok (command_available name)

  unfoldable pub parse_environment : Fields → Try Direct
  unfolding require_string optional_text optional_bool no_other
  parse_environment d = do
    name ← require_string d "name"
    equals ← optional_text (get d "equals") "equals"
    nonempty ← optional_bool (get d "nonempty") "nonempty"
    no_other d ("name" ∷ "equals" ∷ "nonempty" ∷ common) "check" ""
    ok (environment name equals nonempty)

  unfoldable pub parse_path : Fields → Try Direct
  unfolding require_string choice no_other
  parse_path d = do
    target ← require_string d "path"
    kind ←
        choice (get_or d "kind" (str "any")) ("any" ∷ "file" ∷ "directory" ∷ "executable" ∷ [])
          "kind must be one of ['any', 'directory', 'executable', 'file']" "kind"
    no_other d ("path" ∷ "kind" ∷ common) "check" ""
    ok (path target kind)

  unfoldable pub parse_unit : Fields → Try Direct
  unfolding require_string choice no_other
  parse_unit d = do
    unit ← require_string d "unit"
    scope ←
        choice (get_or d "scope" (str "user")) ("system" ∷ "user" ∷ [])
          "scope must be one of ['system', 'user']" "scope"
    state ←
        choice (get_or d "state" (str "active")) ("active" ∷ "enabled" ∷ "failed" ∷ "inactive" ∷ [])
          "state must be one of ['active', 'enabled', 'failed', 'inactive']" "state"
    no_other d ("unit" ∷ "scope" ∷ "state" ∷ common) "check" ""
    ok (systemd_unit unit scope state)

  unfoldable pub parse_command : Fields → Try Direct
  unfolding arguments_value exit_value choice positive_number no_other
  parse_command d = do
    arguments ← arguments_value (get d "command")
    expected_exit ← exit_value (get_or d "expected_exit" (num (int false 0)))
    stdout ←
        choice (get_or d "stdout" (str "any")) ("any" ∷ "nonempty" ∷ "empty" ∷ [])
          "stdout must be one of ['any', 'empty', 'nonempty']" "stdout"
    timeout ← positive_number (get d "timeout_seconds") "timeout_seconds"
    no_other d ("command" ∷ "expected_exit" ∷ "stdout" ∷ "timeout_seconds" ∷ common) "check" ""
    ok (command arguments expected_exit stdout timeout)

  unfoldable pub parse_direct : Fields → String → Try Direct
  unfolding parse_available parse_environment parse_path parse_unit parse_command
  parse_direct d kind =
      if kind == "command_available"
      then parse_available d
      else if kind == "environment"
      then parse_environment d
      else if kind == "path"
      then parse_path d
      else if kind == "systemd_unit"
      then parse_unit d
      else if kind == "command"
      then parse_command d
      else invalid file ("unsupported check type: " <> kind) "type"
