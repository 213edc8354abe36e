-- ===== src/Workload/Machine.antt =====
-- jiritsu_workload/probes.py: the results of checks, the machine that probes look at, and the tests
-- on a process that ended. Durations are left out of the results.
use jiritsu.Base.{
  eqb, String, ◌<>◌, Bool, true, not, ◌&&◌, Option, List, [], ◌∷◌, ◌==◌, decimal, strip_is_empty,
  if◌then◌else◌,
}
use jiritsu.Json.{Number, int, str, Items, no_items, item, Fields, end, field}
use jiritsu.Json.Numbers.{num_eq}
use jiritsu.Workload.State.{Completed, Run}

pub data Verdict : Type 0 where
  pass fail error : Verdict

pub data Source : Type 0 where
  direct_probe stated : Source

pub record CheckResult : Type 0 where
  pub check_id : String
  pub check_type : String
  pub status : Verdict
  pub source : Source
  pub message : String
  pub details : Fields

-- The machine, as the probes see it where it answers, and the text of a time limit. What looking at a
-- path, a home directory or a process raises and no handler catches is not modelled.
pub record Host : Type 0 where
  pub which : String → Option String
  pub environ : String → Option String
  pub expanduser : String → String
  pub exists : String → Bool
  pub is_file : String → Bool
  pub is_directory : String → Bool
  pub is_executable : String → Bool
  pub run : List String → Number → Run
  pub shown : Number → String

-- `{**first, **second}`, for different keys
abbrev pub merge : Fields → Fields → Fields
merge end e = e
merge (field k v d) e = field k v (merge d e)

abbrev pub texts_value : List String → Items
texts_value [] = no_items
texts_value (s ∷ ss) = item (str s) (texts_value ss)

unfoldable pub verdict : Bool → Verdict
verdict b = if b then pass else fail

unfoldable pub exit_number : Completed → Number
exit_number c = int c.negative c.returncode

-- `completed.returncode == expected_exit`
unfoldable pub exit_matches : Completed → Number → Bool
unfolding num_eq exit_number
exit_matches c expected = num_eq (exit_number c) expected

unfoldable pub stdout_matches : Completed → String → Bool
stdout_matches c requirement =
    if requirement == "nonempty"
    then not (strip_is_empty c.stdout)
    else if requirement == "empty"
    then strip_is_empty c.stdout
    else true

unfoldable pub optional_field : String → String → Fields
optional_field name s = if s == "" then end else field name (str s) end

unfoldable pub number_text : Number → String
number_text (int minus k) = if minus && not (eqb k 0) then "-" <> decimal k else decimal k
number_text n = ""

unfoldable pub first_of : List String → String
first_of [] = ""
first_of (s ∷ ss) = s
