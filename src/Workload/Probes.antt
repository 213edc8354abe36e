-- ===== src/Workload/Probes.antt =====
-- jiritsu_workload/probes.py: the probes of the machine, one for each type of direct check, where the
-- machine answers: a PermissionError of a path, a RuntimeError of a home directory and a ValueError of
-- a process, which no handler catches, are not modelled.
use jiritsu.Base.{
  String, ◌<>◌, Bool, true, false, not, ◌&&◌, ◌||◌, Option, none, some, List, [], ◌∷◌, ◌++◌, ◌==◌,
  if◌then◌else◌,
}
use jiritsu.Json.{
  Number, int, Value, null as no_value, bool, num, str, arr, Fields, end, field, get,
}
use jiritsu.Workload.Model.{Direct, command, command_available, environment, path, systemd_unit}
use jiritsu.Workload.Output.{short_output}
use jiritsu.Workload.State.{
  Completed, Run, completed, file_not_found, timeout_expired, os_error, code_text,
}
use jiritsu.Workload.Machine.{
  Verdict, pass, fail, error, direct_probe, CheckResult, Host, merge, texts_value, verdict,
  exit_number, exit_matches, stdout_matches, optional_field, number_text, first_of,
}

module _ (host : Host) (check_id : String) where
  -- `_result` of a direct probe
  probed : String → Verdict → String → Fields → CheckResult
  probed kind status message details = record {
    check_id = check_id;
    check_type = kind;
    status = status;
    source = direct_probe;
    message = message;
    details = details;
  }

  unfoldable pub available_probe : String → CheckResult
  unfolding probed
  available_probe name = elim (host.which name) [
    | none ↦
        probed "command_available" fail ("Command is not available: " <> name)
          (field "command" (str name) end)
    | some executable ↦
        probed "command_available" pass ("Command is available: " <> name)
          (field "command" (str name) (field "executable" (str executable) end))
  ]

  text_of : Option String → String
  text_of none = ""
  text_of (some s) = s

  is_present : Option String → Bool
  is_present none = false
  is_present (some s) = true

  wants_nonempty : Option Bool → Bool
  wants_nonempty none = true
  wants_nonempty (some b) = b

  -- The test of `_environment`, and what it expects.
  unfoldable pub environment_holds : Option String → Option String → Option Bool → Bool
  unfolding text_of is_present wants_nonempty
  environment_holds value (some wanted) nonempty = is_present value && (text_of value == wanted)
  environment_holds value none nonempty =
      is_present value && (not (wants_nonempty nonempty) || not (text_of value == ""))

  expectation : Option String → Option Bool → String
  unfolding wants_nonempty
  expectation (some wanted) nonempty = "has the required value"
  expectation none nonempty =
      if wants_nonempty nonempty then "is present and nonempty" else "is present"

  unfoldable pub environment_probe : String → Option String → Option Bool → CheckResult
  unfolding probed environment_holds expectation verdict
  environment_probe name equals nonempty =
      let passed = environment_holds (host.environ name) equals nonempty in
      probed "environment" (verdict passed)
        ("Environment variable "
          <> (name
              <> (" "
                  <> (if passed
                      then expectation equals nonempty
                      else "does not meet the contract"))))
        (field "name" (str name) (
          field "present" (bool (is_present (host.environ name)))
            (field "nonempty" (bool (not (text_of (host.environ name) == ""))) end)))

  -- The test of `_path`
  unfoldable pub path_holds : String → String → Bool
  path_holds target kind =
      if kind == "any"
      then host.exists target
      else if kind == "file"
      then host.is_file target
      else if kind == "directory"
      then host.is_directory target
      else host.is_file target && host.is_executable target

  -- `_path`, where looking at the path raises nothing.
  unfoldable pub path_probe : String → String → CheckResult
  unfolding probed path_holds verdict
  path_probe raw kind =
      let passed = path_holds (host.expanduser raw) kind in
      probed "path" (verdict passed)
        ((if passed then "Path meets the " else "Path does not meet the ")
          <> (kind <> " requirement"))
        (field "path" (str (host.expanduser raw)) (field "kind" (str kind) end))

  exit_message : Completed → Number → String → Bool → String
  unfolding exit_matches code_text number_text
  exit_message c expected requirement passed =
      if passed
      then "Command met the exit and output requirements"
      else if not (exit_matches c expected)
      then "Command exited with status " <> (code_text c <> ("; expected " <> number_text expected))
      else "Command stdout did not meet the " <> (requirement <> " requirement")

  -- What a process that ended says.
  unfoldable pub ended : List String → Number → String → Completed → CheckResult
  unfolding probed exit_message exit_matches stdout_matches verdict optional_field
  ended arguments expected requirement c =
      let passed = exit_matches c expected && stdout_matches c requirement in
      probed "command" (verdict passed) (exit_message c expected requirement passed) (
        field "command" (arr (texts_value arguments)) (
          field "exit_code" (num (exit_number c)) (
            field "expected_exit" (num expected) (
              field "stdout_requirement" (str requirement) (
                merge (optional_field "stdout" (short_output c.stdout))
                  (optional_field "stderr" (short_output c.stderr)))))))

  unfoldable pub read_run : List String → Number → String → Number → Run → CheckResult
  unfolding probed ended first_of
  read_run arguments expected requirement timeout (completed c) =
      ended arguments expected requirement c
  read_run arguments expected requirement timeout file_not_found =
      probed "command" fail ("Command is not available: " <> first_of arguments)
        (field "command" (arr (texts_value arguments)) end)
  read_run arguments expected requirement timeout timeout_expired =
      probed "command" error
        ("Command did not finish within " <> (host.shown timeout <> " seconds"))
        (field "command" (arr (texts_value arguments)) (field "timeout_seconds" (num timeout) end))
  read_run arguments expected requirement timeout (os_error why) =
      probed "command" error ("Command could not start: " <> why)
        (field "command" (arr (texts_value arguments)) end)

  -- `_run_command`, where the process raises nothing but what its handlers catch.
  unfoldable pub command_probe : List String → Number → String → Number → CheckResult
  unfolding read_run
  command_probe arguments expected requirement timeout =
      read_run arguments expected requirement timeout (host.run arguments timeout)

  unfoldable pub unit_command : String → String → String → List String
  unit_command unit scope state =
      "systemctl" ∷ (if scope == "user" then "--user" ∷ [] else [])
      ++ (if state == "enabled"
          then "is-enabled" ∷ "--quiet" ∷ unit ∷ []
          else "show" ∷ "--property=ActiveState" ∷ "--value" ∷ unit ∷ [])

  is_text : Option Value → String → Bool
  is_text (some (str s)) t = s == t
  is_text o t = false

  -- The status of a unit by that of the command, and what it wrote.
  unfoldable pub unit_status : String → CheckResult → Verdict
  unfolding is_text
  unit_status state r = elim r.status [
    | pass ↦
        if not (state == "enabled") && not (is_text (get r.details "stdout") state)
        then fail
        else pass
    | v ↦ v
  ]

  unit_message : String → String → String → Verdict → String
  unit_message unit state message pass = "Unit " <> (unit <> (" is " <> state))
  unit_message unit state message fail = "Unit " <> (unit <> (" is not " <> state))
  unit_message unit state message error = message

  or_null : Option Value → Value
  or_null none = no_value
  or_null (some v) = v

  unfoldable pub actual_state : String → CheckResult → Fields
  unfolding or_null
  actual_state state r = elim r.status [
    | pass ↦
        if state == "enabled"
        then end
        else field "actual_state" (or_null (get r.details "stdout")) end
    | v ↦ end
  ]

  -- `_systemd_unit`
  unfoldable pub unit_probe : String → String → String → Number → CheckResult
  unfolding command_probe unit_status unit_message actual_state unit_command
  unit_probe unit scope state timeout =
      let r =
        command_probe (unit_command unit scope state) (int false 0)
          (if state == "enabled" then "any" else "nonempty") timeout in
      record r {
        check_type = "systemd_unit";
        status = unit_status state r;
        message = unit_message unit state r.message (unit_status state r);
        details = merge r.details (
            field "scope" (str scope)
              (field "state" (str state) (field "unit" (str unit) (actual_state state r))));
      }

  limit : Option Number → Number → Number
  limit none default = default
  limit (some n) default = n

  -- `run_check`, for a check that looks at the machine
  unfoldable pub run_direct : Number → Direct → CheckResult
  unfolding available_probe environment_probe path_probe command_probe unit_probe limit
  run_direct default (command_available name) = available_probe name
  run_direct default (environment name equals nonempty) = environment_probe name equals nonempty
  run_direct default (path target kind) = path_probe target kind
  run_direct default (systemd_unit unit scope state) = unit_probe unit scope state default
  run_direct default (command arguments expected requirement timeout) =
      command_probe arguments expected requirement (limit timeout default)
