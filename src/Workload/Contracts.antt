-- ===== src/Workload/Contracts.antt =====
-- jiritsu_workload/contracts.py: `parse_contract`, and the loops over capabilities and checks.
pub mod Parsed
pub mod ParsedFacts
pub mod Sound
use jiritsu.Base.{
  ℕ, ◌+◌, String, ◌<>◌, Bool, true, false, not, Option, none, some, List, [], ◌∷◌, ◌==◌, contains,
  decimal, if◌then◌else◌, Result, ok, err, ◌>>=◌, ◌>>◌, raise_if,
}
use jiritsu.Json.{
  Value, null as no_value, str, arr, obj, Items, no_items, item, Fields, get, get_or, values,
}
use jiritsu.Workload.Model.{Exception, contract, Try, invalid, Check, Capability, WorkloadContract}
use jiritsu.Workload.Checks.{require_string, require_id, choice, no_other}
use jiritsu.Workload.StatedChecks.{direct_types, check_parameters}

module _ (file : String) where
  unfoldable pub table : Value → String → String → Try Fields
  table (obj d) kind name = ok d
  table v kind name = invalid file (kind <> " must be a table") name

  -- An array with at least one member.
  unfoldable pub nonempty_array : Option Value → String → String → Try (List Value)
  nonempty_array (some (arr (item v vs))) message name = ok (v ∷ values vs)
  nonempty_array o message name = invalid file message name

  unfoldable pub new_id : List String → Fields → String → String → Try String
  unfolding require_id
  new_id seen d kind name = do
    id ← require_id file d "id"
    if contains seen id
        then invalid file ("duplicate " <> (kind <> (" id: " <> id))) name
        else ok id

  -- The body of the loop over the checks of a capability.
  unfoldable pub parse_check : List String → String → Value → Try Check
  unfolding table new_id choice require_string check_parameters
  parse_check seen name v = do
    d ← table v "check" name
    id ← new_id seen d "check" name
    kind ←
        choice file (get_or d "type" no_value) ("stated_fact" ∷ direct_types)
          "type must be one of ['command', 'command_available', 'environment', 'path', 'stated_fact', 'systemd_unit']"
          (name <> ".type")
    description ← require_string file d "description"
    parameters ← check_parameters file d kind
    ok (record { check_id = id; description = description; parameters = parameters })

  unfoldable pub parse_checks : ℕ → List String → String → List Value → Try (List Check)
  unfolding parse_check
  parse_checks n seen name [] = ok []
  parse_checks n seen name (v ∷ vs) = do
    check ← parse_check seen (name <> (".checks[" <> (decimal n <> "]"))) v
    rest ← parse_checks (n + 1) (check.check_id ∷ seen) name vs
    ok (check ∷ rest)

  -- The body of the loop over the capabilities.
  unfoldable pub parse_capability : List String → String → Value → Try Capability
  unfolding table new_id choice nonempty_array no_other parse_checks require_string
  parse_capability seen name v = do
    d ← table v "capability" name
    id ← new_id seen d "capability" name
    importance ←
        choice file (get_or d "importance" no_value) ("critical" ∷ "useful" ∷ [])
          "importance must be one of ['critical', 'useful']" (name <> ".importance")
    raw_checks ←
        nonempty_array (get d "checks") "checks must contain at least one check" (name <> ".checks")
    no_other file d ("id" ∷ "title" ∷ "description" ∷ "importance" ∷ "checks" ∷ []) "capability"
        (name <> ".")
    checks ← parse_checks 0 [] name raw_checks
    title ← require_string file d "title"
    description ← require_string file d "description"
    ok (record {
      capability_id = id;
      title = title;
      description = description;
      importance = importance;
      checks = checks;
    })

  unfoldable pub parse_capabilities : ℕ → List String → List Value → Try (List Capability)
  unfolding parse_capability
  parse_capabilities n seen [] = ok []
  parse_capabilities n seen (v ∷ vs) = do
    capability ← parse_capability seen ("capabilities[" <> (decimal n <> "]")) v
    rest ← parse_capabilities (n + 1) (capability.capability_id ∷ seen) vs
    ok (capability ∷ rest)

  unfoldable pub schema_matches : Option Value → Bool
  schema_matches (some (str s)) = s == "1.0"
  schema_matches o = false

  unfoldable pub parse_table : Fields → String → Try WorkloadContract
  unfolding schema_matches require_id require_string nonempty_array no_other parse_capabilities
  parse_table d source_kind = do
    if schema_matches (get d "schema_version")
        then ok tt
        else invalid file "schema_version must be \"1.0\"" "schema_version"
    id ← require_id file d "id"
    title ← require_string file d "title"
    description ← require_string file d "description"
    raw_capabilities ←
        nonempty_array (get d "capabilities") "capabilities must contain at least one capability"
          "capabilities"
    no_other file d ("schema_version" ∷ "id" ∷ "title" ∷ "description" ∷ "capabilities" ∷ [])
        "contract" ""
    capabilities ← parse_capabilities 0 [] raw_capabilities
    ok (record {
      contract_id = id;
      title = title;
      description = description;
      capabilities = capabilities;
      source = file;
      source_kind = source_kind;
    })

  -- `parse_contract`
  unfoldable pub parse_contract : Value → String → Try WorkloadContract
  unfolding parse_table
  parse_contract (obj d) source_kind = parse_table d source_kind
  parse_contract v source_kind = err (
      contract (record {
        code = "contract_invalid";
        message = "contract root must be a table";
        path = some file;
        at = none;
      }))
