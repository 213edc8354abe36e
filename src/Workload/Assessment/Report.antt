-- ===== src/Workload/Assessment/Report.antt =====
-- jiritsu_workload/assessment.py: the status and the counts of a whole assessment.
use jiritsu.Base.{
  ◌+◌, ◌≡◌, refl, arith, Bool, true, false, not, ◌&&◌, ◌||◌, Option, some, List, [], ◌∷◌, map,
  length, all, any, ok, ok-injective, >>=-eq-ok, ◌∙◌, subst, if◌then◌else◌,
}
use jiritsu.Json.{Number}
use jiritsu.Workload.Model.{WorkloadContract}
use jiritsu.Workload.State.{StatedSnapshot, StatedHost, collect_stated_facts}
use jiritsu.Workload.Machine.{Host}
use jiritsu.Workload.Assessment.{
  Health, healthy, degraded, unhealthy, WorkloadResult, is_healthy, is_degraded, is_unhealthy,
  count, positive, assess_contract, overall_status, Assessment, fact_ids, summary, assess_contracts,
}
use jiritsu.Workload.Assessment.Levels.{
  critical, works, assess_contract-healthy, assess_contract-unhealthy,
}

pub positive-count : {A : Type 0} (p : A → Bool) (xs : List A) → positive (count p xs) ≡ any p xs
positive-count p [] = refl
positive-count p (x ∷ xs) = ground (arith, positive-count p xs)

worst-unhealthy :
    (a b : Bool) → is_unhealthy (if a then unhealthy else if b then degraded else healthy) ≡ a
worst-unhealthy true b = refl
worst-unhealthy false true = refl
worst-unhealthy false false = refl

worst-healthy :
    (a b : Bool)
    → is_healthy (if a then unhealthy else if b then degraded else healthy) ≡ (not a && not b)
worst-healthy true b = refl
worst-healthy false true = refl
worst-healthy false false = refl

no_worse-eq :
    (h : Health) (a b : Bool)
    → (not (is_unhealthy h || a) && not (is_degraded h || b)) ≡ (is_healthy h && (not a && not b))
no_worse-eq healthy a b = refl
no_worse-eq unhealthy a b = refl
no_worse-eq degraded true b = refl
no_worse-eq degraded false b = refl

none_worse :
    (ws : List WorkloadResult)
    → (not (any (λ w. is_unhealthy w.status) ws) && not (any (λ w. is_degraded w.status) ws))
      ≡ all (λ w. is_healthy w.status) ws
none_worse [] = refl
none_worse (w ∷ ws) = rw (no_worse-eq, none_worse ws)

overall_status-unhealthy :
    (ws : List WorkloadResult)
    → is_unhealthy (overall_status ws) ≡ any (λ w. is_unhealthy w.status) ws
unfolding overall_status
overall_status-unhealthy ws = rw (positive-count, worst-unhealthy)

overall_status-healthy :
    (ws : List WorkloadResult) → is_healthy (overall_status ws) ≡ all (λ w. is_healthy w.status) ws
unfolding overall_status
overall_status-healthy ws = rw (positive-count, positive-count, worst-healthy, none_worse ws)

counts-eq :
    (ws : List WorkloadResult)
    → (count (λ w. is_healthy w.status) ws + count (λ w. is_degraded w.status) ws)
        + count (λ w. is_unhealthy w.status) ws
      ≡ length ws
counts-eq [] = omega arith
counts-eq (w ∷ ws) = ground (arith, counts-eq ws)

module _ (host : Host) (timeout : Number) (snapshot : Option StatedSnapshot) where
  length-map-eq :
      (ws : List WorkloadContract)
      → length (map (assess_contract host timeout snapshot) ws) ≡ length ws
  length-map-eq [] = refl
  length-map-eq (w ∷ ws) = rw (length-map-eq ws)

  all_healthy :
      (ws : List WorkloadContract)
      → all (λ r. is_healthy r.status) (map (assess_contract host timeout snapshot) ws)
        ≡ all (λ w. all (works host timeout snapshot) w.capabilities) ws
  all_healthy [] = refl
  all_healthy (w ∷ ws) = rw (assess_contract-healthy, all_healthy ws)

  any_unhealthy :
      (ws : List WorkloadContract)
      → any (λ r. is_unhealthy r.status) (map (assess_contract host timeout snapshot) ws)
        ≡ any (λ w. any (λ c. critical c && not (works host timeout snapshot c)) w.capabilities) ws
  any_unhealthy [] = refl
  any_unhealthy (w ∷ ws) = rw (assess_contract-unhealthy, any_unhealthy ws)

-- What an assessment says, on the snapshot it was made with.
abbrev pub IsHealthReport : Host → Number → List WorkloadContract → Assessment → Type 0
IsHealthReport host timeout ws a =
    (is_healthy a.status ≡ all (λ w. all (works host timeout (some a.snapshot)) w.capabilities) ws)
    × (is_unhealthy a.status
        ≡ any
            (λ w.
              any (λ c. critical c && not (works host timeout (some a.snapshot) c)) w.capabilities)
            ws)
    × ((a.healthy_count + a.degraded_count) + a.unhealthy_count ≡ length ws)

summary-IsHealthReport :
    (host : Host) (timeout : Number) (snapshot : StatedSnapshot) (ws : List WorkloadContract)
    → IsHealthReport host timeout ws
        (summary snapshot (map (assess_contract host timeout (some snapshot)) ws))
unfolding summary
summary-IsHealthReport host timeout snapshot ws = (
  overall_status-healthy (map (assess_contract host timeout (some snapshot)) ws)
      ∙ all_healthy host timeout (some snapshot) ws,
  overall_status-unhealthy (map (assess_contract host timeout (some snapshot)) ws)
      ∙ any_unhealthy host timeout (some snapshot) ws,
  counts-eq (map (assess_contract host timeout (some snapshot)) ws)
      ∙ length-map-eq host timeout (some snapshot) ws,
)

-- An assessment that returns is healthy exactly when every check of every capability of every
-- contract passes, unhealthy exactly when some critical capability has a check that does not pass,
-- and its three counts add up to the number of contracts.
pub assess_contracts-IsHealthReport :
    (host : Host) (stated_host : StatedHost) (timeout : Number) (use_stated : Bool)
    (ws : List WorkloadContract) (a : Assessment)
    → assess_contracts host stated_host timeout use_stated ws ≡ ok a
    → IsHealthReport host timeout ws a
unfolding assess_contracts
assess_contracts-IsHealthReport host stated_host timeout use_stated ws a h =
    let (snapshot, p, q) =
      >>=-eq-ok (collect_stated_facts stated_host (fact_ids ws) use_stated) _ h in
    subst (IsHealthReport host timeout ws) (ok-injective q)
      (summary-IsHealthReport host timeout snapshot ws)
