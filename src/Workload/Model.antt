-- ===== src/Workload/Model.antt =====
-- jiritsu_workload/model.py: contract errors and contracts. The parameters of a check, a dictionary
-- in the source, are a data type with one constructor for each type of check.
use jiritsu.Base.{String, Bool, Option, some, List, Result, err}
use jiritsu.Json.{Number, Value}

pub record ContractError : Type 0 where
  pub code : String
  pub message : String
  pub path : Option String
  pub at : Option String

-- What loading a contract may raise: errors of its own, and three of Python's that the handlers of
-- `ContractError` do not catch.
pub data Exception : Type 0 where
  contract : ContractError → Exception
  type_error overflow_error unicode_error : Exception

abbrev pub Try : Type 0 → Type 0
Try A = Result Exception A

-- `ContractError("contract_invalid", message, path=path, field=field)`
abbrev pub invalid : {A : Type 0} → String → String → String → Try A
invalid path message name = err (
    contract
      (record { code = "contract_invalid"; message = message; path = some path; at = some name }))

-- The checks that look at the machine themselves.
pub data Direct : Type 0 where
  command :
      (arguments : List String) (expected_exit : Number) (stdout : String)
      (timeout_seconds : Option Number)
      → Direct
  command_available : (name : String) → Direct
  environment : (name : String) (equals : Option String) (nonempty : Option Bool) → Direct
  path : (target kind : String) → Direct
  systemd_unit : (unit scope state : String) → Direct

pub data Parameters : Type 0 where
  direct : Direct → Parameters
  stated_fact :
      (fact operator : String) (path : Option String) (expected : Option Value)
      (fallback : Option Direct)
      → Parameters

pub record Check : Type 0 where
  pub check_id : String
  pub description : String
  pub parameters : Parameters

pub record Capability : Type 0 where
  pub capability_id : String
  pub title : String
  pub description : String
  pub importance : String
  pub checks : List Check

pub record WorkloadContract : Type 0 where
  pub contract_id : String
  pub title : String
  pub description : String
  pub capabilities : List Capability
  pub source : String
  pub source_kind : String

-- `check_type`
abbrev pub direct_type : Direct → String
direct_type (command _ _ _ _) = "command"
direct_type (command_available _) = "command_available"
direct_type (environment _ _ _) = "environment"
direct_type (path _ _) = "path"
direct_type (systemd_unit _ _ _) = "systemd_unit"

abbrev pub check_type : Parameters → String
check_type (direct d) = direct_type d
check_type (stated_fact _ _ _ _ _) = "stated_fact"
