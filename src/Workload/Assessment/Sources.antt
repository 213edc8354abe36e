-- ===== src/Workload/Assessment/Sources.antt =====
-- jiritsu_workload/assessment.py: where the results of an assessment come from.
use jiritsu.Base.{
  ℕ, ◌+◌, ◌≡◌, refl, ◌∙◌, subst, arith, Bool, true, false, not, ◌&&◌, Option, some, List, [], ◌∷◌,
  ◌++◌, map, ◌≤◌, ◌<◌, ◌↔◌, All, length, length-append, ok, ok-injective, >>=-eq-ok,
}
use jiritsu.Json.{Number}
use jiritsu.Workload.Model.{Check, Capability, WorkloadContract}
use jiritsu.Workload.State.{StatedSnapshot, StatedHost, collect_stated_facts}
use jiritsu.Workload.Machine.{CheckResult, Host}
use jiritsu.Workload.StatedProbe.{run_check}
use jiritsu.Workload.Assessment.{
  hybrid, direct_probes, Assessment, has_fallback, is_direct, is_stated, count, assess_capability,
  assess_contract, capability_results, check_results, machine_source, fact_ids, summary,
  assess_contracts,
}
use jiritsu.Workload.Assessment.Fallbacks.{run_check-source}

-- The number of checks in contracts.
capability_checks : List Capability → ℕ
capability_checks [] = 0
capability_checks (c ∷ cs) = length c.checks + capability_checks cs

unfoldable pub check_count : List WorkloadContract → ℕ
unfolding capability_checks
check_count [] = 0
check_count (w ∷ ws) = capability_checks w.capabilities + check_count ws

-- A result has one of the two sources.
source_counts : (rs : List CheckResult) → count is_stated rs + count is_direct rs ≡ length rs
source_counts [] = omega arith
source_counts (r ∷ rs) = ground (arith, source_counts rs)

All-append : {A : Type 0} (P : A → Type 0) (xs ys : List A) → All P xs → All P ys → All P (xs ++ ys)
All-append P [] ys h k = k
All-append P (x ∷ xs) ys (a, h) k = (a, All-append P xs ys h k)

and-not-left : (a b : Bool) → ((a && b) && not a) ≡ false
and-not-left true true = refl
and-not-left true false = refl
and-not-left false b = refl

-- A fallback answers only by a probe of the machine.
fallback_is_direct :
    (host : Host) (timeout : Number) (snapshot : Option StatedSnapshot) (c : Check)
    → (has_fallback (run_check host timeout snapshot c)
        && not (is_direct (run_check host timeout snapshot c)))
      ≡ false
fallback_is_direct host timeout snapshot c =
    let (i, t, f) = run_check-source host timeout snapshot c in rw (f, and-not-left)

module _ (host : Host) (timeout : Number) (snapshot : Option StatedSnapshot) where
  -- Each result that carries a fallback has a probe as its source.
  abbrev Covered : CheckResult → Type 0
  Covered r = (has_fallback r && not (is_direct r)) ≡ false

  abbrev AreDirect : List CheckResult → Type 0
  AreDirect = All Covered

  map-AreDirect : (cs : List Check) → AreDirect (map (run_check host timeout snapshot) cs)
  map-AreDirect [] = tt
  map-AreDirect (c ∷ cs) = (fallback_is_direct host timeout snapshot c, map-AreDirect cs)

  length-map : (cs : List Check) → length (map (run_check host timeout snapshot) cs) ≡ length cs
  length-map [] = refl
  length-map (c ∷ cs) = rw (length-map cs)

  capability_results-AreDirect :
      (cs : List Capability)
      → AreDirect (capability_results (map (assess_capability host timeout snapshot) cs))
        × (length (capability_results (map (assess_capability host timeout snapshot) cs))
            ≡ capability_checks cs)
  unfolding capability_results assess_capability capability_checks
  capability_results-AreDirect [] = (tt, refl)
  capability_results-AreDirect (c ∷ cs) =
      let (a, b) = capability_results-AreDirect cs in
      (
        All-append Covered (map (run_check host timeout snapshot) c.checks) _
            (map-AreDirect c.checks) a,
        rw (length-append, length-map c.checks, b),
      )

  check_results-AreDirect :
      (ws : List WorkloadContract)
      → AreDirect (check_results (map (assess_contract host timeout snapshot) ws))
        × (length (check_results (map (assess_contract host timeout snapshot) ws)) ≡ check_count ws)
  unfolding check_results assess_contract check_count
  check_results-AreDirect [] = (tt, refl)
  check_results-AreDirect (w ∷ ws) =
      let (a, b) = capability_results-AreDirect w.capabilities in
      let (c, d) = check_results-AreDirect ws in
      (All-append Covered _ _ a c, rw (length-append, b, d))

count-le :
    {A : Type 0} (p q : A → Bool) (xs : List A)
    → All (λ x. (p x && not (q x)) ≡ false) xs
    → count p xs ≤ count q xs
count-le p q [] h = omega arith
count-le p q (x ∷ xs) (h, hs) = ground (arith, count-le p q xs hs)

-- The source of the machine's state, by the counts.
machine_source-eq :
    (rs : List CheckResult)
    → (machine_source rs ≡ direct_probes ↔ count is_stated rs ≡ 0)
      × (machine_source rs ≡ hybrid ↔ (0 < count is_stated rs) × (0 < count is_direct rs))
unfolding machine_source
machine_source-eq rs = ground arith

-- What an assessment says of where its results come from.
abbrev pub IsSourceReport : List WorkloadContract → Assessment → Type 0
IsSourceReport ws a =
    (a.stated_count + a.direct_count ≡ check_count ws)
    × (a.fallback_count ≤ a.direct_count)
    × (a.machine_source ≡ direct_probes ↔ a.stated_count ≡ 0)
    × (a.machine_source ≡ hybrid ↔ (0 < a.stated_count) × (0 < a.direct_count))

summary-IsSourceReport :
    (host : Host) (timeout : Number) (snapshot : StatedSnapshot) (ws : List WorkloadContract)
    → IsSourceReport ws (summary snapshot (map (assess_contract host timeout (some snapshot)) ws))
unfolding summary
summary-IsSourceReport host timeout snapshot ws =
    let rs = check_results (map (assess_contract host timeout (some snapshot)) ws) in
    let (d, l) = check_results-AreDirect host timeout (some snapshot) ws in
    let (e, f) = machine_source-eq rs in
    (source_counts rs ∙ l, count-le has_fallback is_direct rs d, e, f)

-- In an assessment that returns, each check of each contract is counted once, as stated or as
-- direct, there are at most as many fallbacks as direct ones, the source of the machine's state is
-- `direct_probes` exactly when no check is counted as stated, and `hybrid` exactly when both counts
-- are positive.
pub assess_contracts-IsSourceReport :
    (host : Host) (stated_host : StatedHost) (timeout : Number) (use_stated : Bool)
    (ws : List WorkloadContract) (a : Assessment)
    → assess_contracts host stated_host timeout use_stated ws ≡ ok a
    → IsSourceReport ws a
unfolding assess_contracts
assess_contracts-IsSourceReport host stated_host timeout use_stated ws a h =
    let (snapshot, p, q) =
      >>=-eq-ok (collect_stated_facts stated_host (fact_ids ws) use_stated) _ h in
    subst (IsSourceReport ws) (ok-injective q) (summary-IsSourceReport host timeout snapshot ws)
