-- ===== src/Workload/Examples.antt =====
-- jiritsu-workload at concrete inputs: tests, and the theorems where their hypotheses hold.
use jiritsu.Base.{
  length, codes, ◌≤◌, ℕ, String, true, false, ◌&&◌, none, some, List, [], ◌∷◌, ◌==◌, ◌≡◌, ◌↔◌, refl,
  map, strip_is_empty, split, if◌then◌else◌, All, is_some, sorted, unique, minus, decimal, ok,
}
use jiritsu.Base.Ident.{lower_id}
use jiritsu.Json.{
  Number, int, Value, num, str, arr, obj, Items, no_items, item, Fields, end, field, get, keys,
}
use jiritsu.Workload.Output.{output_limit, short_output}
use jiritsu.Workload.Output.Length.{length-short_output}
use jiritsu.Workload.Model.{command_available, path, direct, stated_fact, Check, WorkloadContract}
use jiritsu.Workload.State.{
  partial, StatedSnapshot, completed, file_not_found, StatedHost, collect_stated_facts,
}
use jiritsu.Workload.State.Coverage.{covers, collect_stated_facts-covers}
use jiritsu.Workload.Machine.{Host}
use jiritsu.Workload.StatedProbe.{run_check}
use jiritsu.Workload.StatedChecks.{is_fact_path}
use jiritsu.Workload.Contracts.{parse_contract}
use jiritsu.Workload.Contracts.Sound.{IsContract, parse_contract_sound}
use jiritsu.Workload.Catalog.{ContractFile, files, discover_contracts, select_contracts}
use jiritsu.Workload.Catalog.Dict.{contract_ids, last_named}
use jiritsu.Workload.Catalog.Selection.{AreLast, select_contracts_sound, select_contracts_iff}
use jiritsu.Workload.Catalog.Discovery.{IsCatalog, discover_contracts-IsCatalog}
use jiritsu.Workload.Assessment.{
  summary, assess_contract, fact_ids, Assessment, degraded, hybrid, is_direct, has_fallback,
  assess_contracts,
}
use jiritsu.Workload.Assessment.Report.{IsHealthReport, assess_contracts-IsHealthReport}
use jiritsu.Workload.Assessment.Sources.{IsSourceReport, assess_contracts-IsSourceReport}
use jiritsu.Workload.Assessment.Fallbacks.{run_check-source}

-- A machine with every program and one directory.
abbrev machine : Host
machine = record {
  which = λ name. some name;
  environ = λ name. none;
  expanduser = λ p. p;
  exists = λ p. p == "/srv";
  is_file = λ p. false;
  is_directory = λ p. p == "/srv";
  is_executable = λ p. false;
  run = λ arguments timeout. file_not_found;
  shown = λ n. "5";
}

abbrev number : ℕ → Number
number n = int false n

-- A command that knows one of two facts.
abbrev snapshot_text : Value
snapshot_text = obj (
    field "schema_version" (str "1.0") (
      field "status" (str "partial") (
        field "errors" (arr no_items) (
          field "facts"
            (obj (
              field "host.load"
                (obj (
                  field "value" (obj (field "average" (num (number 3)) end))
                    (field "source" (str "proc") end)))
                end))
            end))))

abbrev stated_machine : StatedHost
stated_machine = record {
  command = some "jiritsu-stated";
  run = λ executable requested.
      completed (record { negative = false; returncode = 0; stdout = "facts"; stderr = "" });
  loads = λ text. if text == "facts" then some snapshot_text else none;
  outer_timeout = λ requested. "12";
}

-- A contract as TOML has it, and as it is read.
abbrev check_table : String → String → Fields → Value
check_table id kind rest =
    obj (field "id" (str id) (field "type" (str kind) (field "description" (str "d") rest)))

abbrev git_table : Value
git_table = check_table "git" "command_available" (field "command" (str "git") end)

abbrev load_table : Value
load_table = check_table "load" "stated_fact" (
    field "fact" (str "host.load") (
      field "path" (str "average")
        (field "operator" (str "at_most") (field "expected" (num (number 2)) end))))

abbrev disk_table : Value
disk_table = check_table "disk" "stated_fact" (
    field "fact" (str "host.disk") (
      field "fallback"
        (obj (
          field "type" (str "path")
            (field "path" (str "/srv") (field "kind" (str "directory") end))))
        end))

abbrev capability_table : String → String → Items → Value
capability_table id importance checks = obj (
    field "id" (str id) (
      field "title" (str "t") (
        field "description" (str "d")
          (field "importance" (str importance) (field "checks" (arr checks) end)))))

abbrev shop_table : Value
shop_table = obj (
    field "schema_version" (str "1.0") (
      field "id" (str "shop") (
        field "title" (str "t") (
          field "description" (str "d") (
            field "capabilities"
              (arr (
                item (capability_table "tools" "critical" (item git_table no_items)) (
                  item
                    (capability_table "room" "useful" (item load_table (item disk_table no_items)))
                    no_items)))
              end)))))

abbrev git_check : Check
git_check = record {
  check_id = "git";
  description = "d";
  parameters = direct (command_available "git");
}

abbrev load_check : Check
load_check = record {
  check_id = "load";
  description = "d";
  parameters = stated_fact "host.load" "at_most" (some "average") (some (num (number 2))) none;
}

abbrev disk_check : Check
disk_check = record {
  check_id = "disk";
  description = "d";
  parameters = stated_fact "host.disk" "exists" none none (some (path "/srv" "directory"));
}

abbrev shop : WorkloadContract
shop = record {
  contract_id = "shop";
  title = "t";
  description = "d";
  capabilities =
      (record {
        capability_id = "tools";
        title = "t";
        description = "d";
        importance = "critical";
        checks = git_check ∷ [];
      })
      ∷ (record {
        capability_id = "room";
        title = "t";
        description = "d";
        importance = "useful";
        checks = load_check ∷ disk_check ∷ [];
      })
      ∷ [];
  source = "shop.toml";
  source_kind = "user";
}

shop_read : parse_contract "shop.toml" shop_table "user" ≡ ok shop
unfolding parse_contract get keys minus sorted lower_id strip_is_empty is_fact_path decimal split
shop_read = refl

parse_contract_sound_example :
    IsContract shop × (shop.source ≡ "shop.toml") × (shop.source_kind ≡ "user")
parse_contract_sound_example = parse_contract_sound "shop.toml" shop_table "user" shop shop_read

-- What the query gives, and the assessment on it.
abbrev snapshot : StatedSnapshot
snapshot = record {
  status = partial;
  requested_facts = "host.disk" ∷ "host.load" ∷ [];
  facts =
      field "host.load"
        (obj (
          field "value" (obj (field "average" (num (number 3)) end))
            (field "source" (str "proc") end)))
        end;
  errors = [];
  command = some "jiritsu-stated";
  query_status = some "partial";
  message = some "jiritsu-stated returned only some requested facts";
}

abbrev assessment : Assessment
assessment = summary snapshot (map (assess_contract machine (number 5) (some snapshot)) (shop ∷ []))

collected : collect_stated_facts stated_machine (fact_ids (shop ∷ [])) true ≡ ok snapshot
unfolding collect_stated_facts fact_ids get keys minus sorted
collected = refl

assessed : assess_contracts machine stated_machine (number 5) true (shop ∷ []) ≡ ok assessment
unfolding assess_contracts
assessed = rw collected refl

degraded_hybrid :
    (assessment.status ≡ degraded)
    × (assessment.machine_source ≡ hybrid)
    × (assessment.fallback_count ≡ 1)
unfolding summary assess_contract get
degraded_hybrid = (refl, refl, refl)

assess_contracts-IsHealthReport_example : IsHealthReport machine (number 5) (shop ∷ []) assessment
assess_contracts-IsHealthReport_example =
    assess_contracts-IsHealthReport machine stated_machine (number 5) true (shop ∷ []) assessment
      assessed

assess_contracts-IsSourceReport_example : IsSourceReport (shop ∷ []) assessment
assess_contracts-IsSourceReport_example =
    assess_contracts-IsSourceReport machine stated_machine (number 5) true (shop ∷ []) assessment
      assessed

run_check-source_example :
    ((run_check machine (number 5) (some snapshot) disk_check).check_id ≡ "disk")
    × ((run_check machine (number 5) (some snapshot) disk_check).check_type ≡ "stated_fact")
    × (has_fallback (run_check machine (number 5) (some snapshot) disk_check) ≡ (
        is_direct (run_check machine (number 5) (some snapshot) disk_check)
        && ("stated_fact" == "stated_fact")))
run_check-source_example = run_check-source machine (number 5) (some snapshot) disk_check

collect_stated_facts-covers_example : covers (fact_ids (shop ∷ [])) snapshot "host.load" ≡ true
collect_stated_facts-covers_example =
    collect_stated_facts-covers stated_machine (fact_ids (shop ∷ [])) true snapshot "host.load"
      collected

abbrev shop_file : ContractFile
shop_file = record { path = "shop.toml"; payload = ok shop_table }

abbrev standard_shop : WorkloadContract
standard_shop = record shop { source_kind = "default" }

-- The user's contract takes the place of the default one.
discovered : discover_contracts (shop_file ∷ []) (files (shop_file ∷ [])) ≡ ok (shop ∷ [])
unfolding discover_contracts parse_contract get keys minus sorted lower_id strip_is_empty
    is_fact_path decimal split
discovered = refl

discover_contracts-IsCatalog_example :
    IsCatalog (shop_file ∷ []) (files (shop_file ∷ [])) (shop ∷ [])
discover_contracts-IsCatalog_example =
    discover_contracts-IsCatalog (shop_file ∷ []) (files (shop_file ∷ [])) (shop ∷ []) discovered

selected : select_contracts (standard_shop ∷ shop ∷ []) ("shop" ∷ "shop" ∷ []) ≡ ok (shop ∷ [])
unfolding select_contracts unique
selected = refl

select_contracts_sound_example :
    (contract_ids (shop ∷ []) ≡ unique ("shop" ∷ "shop" ∷ []))
    × AreLast (standard_shop ∷ shop ∷ []) (shop ∷ [])
select_contracts_sound_example =
    select_contracts_sound (standard_shop ∷ shop ∷ []) ("shop" ∷ "shop" ∷ []) (shop ∷ []) selected

select_contracts_iff_example :
    (((ws : List WorkloadContract) × (select_contracts (shop ∷ []) ("shop" ∷ []) ≡ ok ws))
      ↔ All (λ s. is_some (last_named (shop ∷ []) s) ≡ true) ("shop" ∷ []))
select_contracts_iff_example = select_contracts_iff (shop ∷ []) ("shop" ∷ [])

length-short_output_example : length (codes (short_output " done ")) ≤ output_limit
length-short_output_example = length-short_output " done "
