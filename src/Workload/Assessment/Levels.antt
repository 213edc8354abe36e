-- ===== src/Workload/Assessment/Levels.antt =====
-- jiritsu_workload/assessment.py: what the status of a capability, a workload and the machine says of
-- the checks.
use jiritsu.Base.{
  ◌≡◌, refl, arith, Bool, true, false, not, ◌&&◌, ◌||◌, Option, List, [], ◌∷◌, map, ◌==◌, all, any,
  if◌then◌else◌,
}
use jiritsu.Json.{Number}
use jiritsu.Workload.Model.{Check, Capability, WorkloadContract}
use jiritsu.Workload.State.{StatedSnapshot}
use jiritsu.Workload.Machine.{Verdict, pass, fail, error, CheckResult, Host}
use jiritsu.Workload.StatedProbe.{run_check}
use jiritsu.Workload.Assessment.{
  healthy, degraded, unhealthy, CapabilityResult, is_pass, is_fail, is_error, is_healthy,
  is_unhealthy, capability_status, is_critical, contract_status, assess_capability, assess_contract,
}

-- What the tests say of a status.
is_pass-eq :
    (b c : Bool) → is_pass (if b then fail else if c then error else pass) ≡ (not b && not c)
is_pass-eq true c = refl
is_pass-eq false true = refl
is_pass-eq false false = refl

no_fail_no_error :
    (v : Verdict) (a b : Bool)
    → (not (is_fail v || a) && not (is_error v || b)) ≡ (is_pass v && (not a && not b))
no_fail_no_error pass a b = refl
no_fail_no_error fail a b = refl
no_fail_no_error error true b = refl
no_fail_no_error error false b = refl

all_pass_eq :
    (rs : List CheckResult)
    → (not (any (λ r. is_fail r.status) rs) && not (any (λ r. is_error r.status) rs))
      ≡ all (λ r. is_pass r.status) rs
all_pass_eq [] = refl
all_pass_eq (r ∷ rs) = rw (no_fail_no_error, all_pass_eq rs)

-- A capability passes when all of its checks do.
pub capability_status-pass :
    (rs : List CheckResult) → is_pass (capability_status rs) ≡ all (λ r. is_pass r.status) rs
unfolding capability_status
capability_status-pass rs = rw (is_pass-eq, all_pass_eq)

not-and : (a b : Bool) → not (a && b) ≡ (not a || not b)
not-and true b = refl
not-and false b = refl

not-or : (a b : Bool) → not (not a || b) ≡ (a && not b)
not-or true b = refl
not-or false b = refl

-- The levels: the first test that fails decides.
level-healthy :
    (a b : Bool)
    → is_healthy (if not a then unhealthy else if not b then degraded else healthy) ≡ (a && b)
level-healthy true true = refl
level-healthy true false = refl
level-healthy false b = refl

level-unhealthy :
    (a b : Bool)
    → is_unhealthy (if not a then unhealthy else if not b then degraded else healthy) ≡ not a
level-unhealthy true true = refl
level-unhealthy true false = refl
level-unhealthy false b = refl

healthy-eq :
    (rs : List CapabilityResult)
    → (all (λ r. not (is_critical r) || is_pass r.status) rs && all (λ r. is_pass r.status) rs)
      ≡ all (λ r. is_pass r.status) rs
healthy-eq [] = refl
healthy-eq (r ∷ rs) = ground (arith, healthy-eq rs)

-- The importance of a capability with `critical`.
abbrev pub critical : Capability → Bool
critical c = c.importance == "critical"

module _ (host : Host) (timeout : Number) (snapshot : Option StatedSnapshot) where
  abbrev pub passes : Check → Bool
  passes c = is_pass (run_check host timeout snapshot c).status

  -- The checks of a capability all pass.
  abbrev pub works : Capability → Bool
  works c = all passes c.checks

  all_pass-map :
      (cs : List Check)
      → all (λ r. is_pass r.status) (map (run_check host timeout snapshot) cs) ≡ all passes cs
  all_pass-map [] = refl
  all_pass-map (c ∷ cs) = rw (all_pass-map cs)

  pub assess_capability-pass :
      (c : Capability) → is_pass (assess_capability host timeout snapshot c).status ≡ works c
  unfolding assess_capability
  assess_capability-pass c = rw (capability_status-pass, all_pass-map)

  all_work :
      (cs : List Capability)
      → all (λ r. is_pass r.status) (map (assess_capability host timeout snapshot) cs)
        ≡ all works cs
  all_work [] = refl
  all_work (c ∷ cs) = rw (assess_capability-pass, all_work cs)

  critical-eq :
      (c : Capability) → is_critical (assess_capability host timeout snapshot c) ≡ critical c
  unfolding assess_capability
  critical-eq c = refl

  critical_fails :
      (cs : List Capability)
      → not (
          all
            (λ r. not (is_critical r) || is_pass r.status)
            (map (assess_capability host timeout snapshot) cs))
        ≡ any (λ c. critical c && not (works c)) cs
  critical_fails [] = refl
  critical_fails (c ∷ cs) =
      rw (critical-eq c, assess_capability-pass c, not-and, not-or, critical_fails cs)

  -- The workload is healthy exactly when every check of every capability passes.
  pub assess_contract-healthy :
      (w : WorkloadContract)
      → is_healthy (assess_contract host timeout snapshot w).status ≡ all works w.capabilities
  unfolding assess_contract contract_status
  assess_contract-healthy w = rw (level-healthy, healthy-eq, all_work w.capabilities)

  pub assess_contract-unhealthy :
      (w : WorkloadContract)
      → is_unhealthy (assess_contract host timeout snapshot w).status
        ≡ any (λ c. critical c && not (works c)) w.capabilities
  unfolding assess_contract contract_status
  assess_contract-unhealthy w = rw (level-unhealthy, critical_fails w.capabilities)
