-- ===== src/Workload/Assessment.antt =====
-- jiritsu_workload/assessment.py: the status of capabilities, workloads and the machine. The time of
-- the assessment is left out of the result.
pub mod Fallbacks
pub mod Levels
pub mod Report
pub mod Sources
use jiritsu.Base.{
  ℕ, ◌+◌, eqb, String, Bool, true, false, not, ◌&&◌, ◌||◌, Option, none, some, List, [], ◌∷◌, ◌++◌,
  map, ◌==◌, length, all, any, contains, is_some, if◌then◌else◌, Result, ok, err, ◌>>=◌,
}
use jiritsu.Json.{Number, get}
use jiritsu.Workload.Model.{
  Try, Parameters, direct, stated_fact, Check, Capability, WorkloadContract,
}
use jiritsu.Workload.State.{Status, StatedSnapshot, StatedHost, collect_stated_facts}
use jiritsu.Workload.Machine.{
  Verdict, pass, fail, error, Source, direct_probe, stated, CheckResult, Host,
}
use jiritsu.Workload.StatedProbe.{run_check}

pub data Health : Type 0 where
  healthy degraded unhealthy : Health

pub data MachineSource : Type 0 where
  hybrid jiritsu_stated direct_probes : MachineSource

pub record CapabilityResult : Type 0 where
  pub capability_id : String
  pub title : String
  pub description : String
  pub importance : String
  pub status : Verdict
  pub checks : List CheckResult

pub record WorkloadResult : Type 0 where
  pub contract_id : String
  pub title : String
  pub description : String
  pub status : Health
  pub source : String
  pub source_kind : String
  pub capabilities : List CapabilityResult

pub record Assessment : Type 0 where
  pub status : Health
  pub machine_source : MachineSource
  pub snapshot : StatedSnapshot
  pub stated_count : ℕ
  pub direct_count : ℕ
  pub fallback_count : ℕ
  pub workload_count : ℕ
  pub healthy_count : ℕ
  pub degraded_count : ℕ
  pub unhealthy_count : ℕ
  pub workloads : List WorkloadResult

abbrev pub is_pass : Verdict → Bool
is_pass pass = true
is_pass v = false

abbrev pub is_fail : Verdict → Bool
is_fail fail = true
is_fail v = false

abbrev pub is_error : Verdict → Bool
is_error error = true
is_error v = false

abbrev pub is_healthy : Health → Bool
is_healthy healthy = true
is_healthy h = false

abbrev pub is_degraded : Health → Bool
is_degraded degraded = true
is_degraded h = false

abbrev pub is_unhealthy : Health → Bool
is_unhealthy unhealthy = true
is_unhealthy h = false

abbrev pub is_direct : CheckResult → Bool
is_direct r = elim r.source [ direct_probe ↦ true | stated ↦ false ]

abbrev pub is_stated : CheckResult → Bool
is_stated r = elim r.source [ direct_probe ↦ false | stated ↦ true ]

-- `"fallback" in check["details"]`
abbrev pub has_fallback : CheckResult → Bool
has_fallback r = is_some (get r.details "fallback")

-- `sum(test(x) for x in xs)`
abbrev pub count {ℓ} : {A : Type ℓ} → (A → Bool) → List A → ℕ
count p [] = 0
count p (x ∷ xs) = (if p x then 1 else 0) + count p xs

-- `_capability_status`
unfoldable pub capability_status : List CheckResult → Verdict
capability_status checks =
    if any (λ r. is_fail r.status) checks
    then fail
    else if any (λ r. is_error r.status) checks
    then error
    else pass

abbrev pub is_critical : CapabilityResult → Bool
is_critical c = c.importance == "critical"

-- The status of a workload by those of its capabilities.
unfoldable pub contract_status : List CapabilityResult → Health
contract_status capabilities =
    if not (all (λ c. not (is_critical c) || is_pass c.status) capabilities)
    then unhealthy
    else if not (all (λ c. is_pass c.status) capabilities)
    then degraded
    else healthy

module _ (host : Host) (timeout : Number) (snapshot : Option StatedSnapshot) where
  unfoldable pub assess_capability : Capability → CapabilityResult
  unfolding run_check capability_status
  assess_capability c =
      let checks = map (run_check host timeout snapshot) c.checks in
      record {
        capability_id = c.capability_id;
        title = c.title;
        description = c.description;
        importance = c.importance;
        status = capability_status checks;
        checks = checks;
      }

  unfoldable pub assess_contract : WorkloadContract → WorkloadResult
  unfolding assess_capability contract_status
  assess_contract w =
      let capabilities = map assess_capability w.capabilities in
      record {
        contract_id = w.contract_id;
        title = w.title;
        description = w.description;
        status = contract_status capabilities;
        source = w.source;
        source_kind = w.source_kind;
        capabilities = capabilities;
      }

-- The facts that the checks of the contracts name, with repetitions.
facts_of_checks : List Check → List String
facts_of_checks [] = []
facts_of_checks (c ∷ cs) = elim c.parameters [
  | direct d ↦ facts_of_checks cs
  | stated_fact fact operator path expected fallback ↦ fact ∷ facts_of_checks cs
]

facts_of_capabilities : List Capability → List String
unfolding facts_of_checks
facts_of_capabilities [] = []
facts_of_capabilities (c ∷ cs) = facts_of_checks c.checks ++ facts_of_capabilities cs

unfoldable pub fact_ids : List WorkloadContract → List String
unfolding facts_of_capabilities
fact_ids [] = []
fact_ids (w ∷ ws) = facts_of_capabilities w.capabilities ++ fact_ids ws

-- The results of all checks, in order.
unfoldable pub capability_results : List CapabilityResult → List CheckResult
capability_results [] = []
capability_results (c ∷ cs) = c.checks ++ capability_results cs

unfoldable pub check_results : List WorkloadResult → List CheckResult
unfolding capability_results
check_results [] = []
check_results (w ∷ ws) = capability_results w.capabilities ++ check_results ws

-- A count that is not zero.
abbrev pub positive : ℕ → Bool
positive n = not (eqb n 0)

unfoldable pub overall_status : List WorkloadResult → Health
overall_status ws =
    if positive (count (λ w. is_unhealthy w.status) ws)
    then unhealthy
    else if positive (count (λ w. is_degraded w.status) ws)
    then degraded
    else healthy

unfoldable pub machine_source : List CheckResult → MachineSource
machine_source rs =
    if positive (count is_stated rs) && positive (count is_direct rs)
    then hybrid
    else if positive (count is_stated rs)
    then jiritsu_stated
    else direct_probes

unfoldable pub summary : StatedSnapshot → List WorkloadResult → Assessment
unfolding overall_status machine_source check_results
summary snapshot ws = record {
  status = overall_status ws;
  machine_source = machine_source (check_results ws);
  snapshot = snapshot;
  stated_count = count is_stated (check_results ws);
  direct_count = count is_direct (check_results ws);
  fallback_count = count has_fallback (check_results ws);
  workload_count = length ws;
  healthy_count = count (λ w. is_healthy w.status) ws;
  degraded_count = count (λ w. is_degraded w.status) ws;
  unhealthy_count = count (λ w. is_unhealthy w.status) ws;
  workloads = ws;
}

-- `assess_contracts`
unfoldable pub assess_contracts :
    Host → StatedHost → Number → (use_stated : Bool) → List WorkloadContract → Try Assessment
unfolding fact_ids assess_contract summary collect_stated_facts
assess_contracts host stated_host timeout use_stated contracts = do
  snapshot ← collect_stated_facts stated_host (fact_ids contracts) use_stated
  ok (summary snapshot (map (assess_contract host timeout (some snapshot)) contracts))
