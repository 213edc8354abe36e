-- ===== src/Workload/Assessment/Fallbacks.antt =====
-- jiritsu_workload/probes.py: which results carry a fallback, and what every result repeats of its check.
use jiritsu.Base.{
  ◌≡◌, refl, sym, ◌∙◌, inl, inr, Bool, true, false, ◌&&◌, ◌||◌, Option, none, some, List, ◌==◌,
  String, is_some, arith, Option-cases, Bool-cases, if◌then◌else◌,
}
use jiritsu.Json.{
  Number, int, Value, null as no_value, bool, num, str, arr, obj, Fields, end, field, get,
}
use jiritsu.Workload.Model.{
  Direct, command, command_available, environment, path, systemd_unit, Parameters, direct,
  stated_fact, Check, direct_type, check_type,
}
use jiritsu.Workload.State.{
  Completed, StatedSnapshot, Run, completed, file_not_found, timeout_expired, os_error,
}
use jiritsu.Workload.Facts.{extract_fact_path, evaluate_fact}
use jiritsu.Workload.Output.{short_output}
use jiritsu.Workload.Machine.{CheckResult, direct_probe, Host, merge, optional_field}
use jiritsu.Workload.Assessment.{is_direct, has_fallback}
use jiritsu.Workload.Probes.{
  available_probe, environment_probe, path_probe, command_probe, unit_probe, run_direct,
  unit_command, read_run, ended, actual_state,
}
use jiritsu.Workload.StatedProbe.{
  run_check, or_null, shown_actual, text_value, entry_of, snapshot_or_default, stated_probe,
  present, fact_details, on_entry, stated_fallback, read_entry, judged, read_actual,
}

-- A key that stands in a dictionary.
abbrev has : String → Fields → Bool
has k d = is_some (get d k)

has-merge : (k : String) (d e : Fields) → has k (merge d e) ≡ (has k d || has k e)
unfolding get
has-merge k end e = refl
has-merge k (field j v d) e = elim (Bool-cases (j == k)) [
  | inl q ↦ rw q
  | inr q ↦ rw (q, has-merge k d e)
]

optional-eq :
    (name s : String)
    → (name == "fallback") ≡ false
    → has "fallback" (optional_field name s) ≡ false
unfolding optional_field get
optional-eq name s h = elim (Bool-cases (s == "")) [ inl q ↦ rw q | inr q ↦ rw (q, h) ]

present-eq :
    (name : String) (o : Option Value)
    → (name == "fallback") ≡ false
    → has "fallback" (present name o) ≡ false
unfolding get
present-eq name none h = refl
present-eq name (some v) h = rw h

shown_actual-eq : (v : Value) → has "fallback" (shown_actual v) ≡ false
unfolding get
shown_actual-eq no_value = refl
shown_actual-eq (bool b) = refl
shown_actual-eq (num n) = refl
shown_actual-eq (str s) = refl
shown_actual-eq (arr vs) = refl
shown_actual-eq (obj d) = refl

-- A result of a probe of the machine: it names its check, and has no fallback.
abbrev pub IsProbed : String → String → CheckResult → Type 0
IsProbed check_id kind r =
    (r.check_id ≡ check_id)
    × (r.check_type ≡ kind)
    × (r.source ≡ direct_probe)
    × (has "fallback" r.details ≡ false)

module _ (host : Host) (check_id : String) where
  available_probe-IsProbed :
      (name : String) → IsProbed check_id "command_available" (available_probe host check_id name)
  unfolding available_probe get
  available_probe-IsProbed name = elim (Option-cases (host.which name)) [
    | inl q ↦ rw (available_probe, q) (refl, refl, refl, refl)
    | inr (x, q) ↦ rw (available_probe, q) (refl, refl, refl, refl)
  ]

  ended-IsProbed :
      (arguments : List String) (expected : Number) (requirement : String) (c : Completed)
      → IsProbed check_id "command" (ended host check_id arguments expected requirement c)
  unfolding ended get
  ended-IsProbed arguments expected requirement c = (
    refl,
    refl,
    refl,
    rw (
      has-merge,
      optional-eq "stdout" (short_output c.stdout) refl,
      optional-eq "stderr" (short_output c.stderr) refl,
    ),
  )

  read_run-IsProbed :
      (arguments : List String) (expected : Number) (requirement : String) (timeout : Number)
      (r : Run)
      → IsProbed check_id "command"
          (read_run host check_id arguments expected requirement timeout r)
  unfolding read_run get
  read_run-IsProbed arguments expected requirement timeout (completed c) =
      ended-IsProbed arguments expected requirement c
  read_run-IsProbed arguments expected requirement timeout file_not_found = (refl, refl, refl, refl)
  read_run-IsProbed arguments expected requirement timeout timeout_expired =
      (refl, refl, refl, refl)
  read_run-IsProbed arguments expected requirement timeout (os_error why) = (refl, refl, refl, refl)

  command_probe-IsProbed :
      (arguments : List String) (expected : Number) (requirement : String) (timeout : Number)
      → IsProbed check_id "command"
          (command_probe host check_id arguments expected requirement timeout)
  unfolding command_probe
  command_probe-IsProbed arguments expected requirement timeout =
      read_run-IsProbed arguments expected requirement timeout (host.run arguments timeout)

  actual_state-fallback :
      (state : String) (r : CheckResult)
      → has "fallback" (actual_state host check_id state r) ≡ false
  unfolding actual_state get
  actual_state-fallback state r = ground arith

  unit_probe-IsProbed :
      (unit scope state : String) (timeout : Number)
      → IsProbed check_id "systemd_unit" (unit_probe host check_id unit scope state timeout)
  unfolding unit_probe unit_command get
  unit_probe-IsProbed unit scope state timeout =
      let (i, t, s, f) =
        command_probe-IsProbed (unit_command host check_id unit scope state) (int false 0)
          (if state == "enabled" then "any" else "nonempty") timeout in
      (i, refl, s, rw (has-merge, f, actual_state-fallback))

  -- Each probe of the machine makes a result for its check, with no fallback.
  pub run_direct-IsProbed :
      (default : Number) (d : Direct)
      → IsProbed check_id (direct_type d) (run_direct host check_id default d)
  unfolding run_direct environment_probe path_probe get
  run_direct-IsProbed default (command_available name) = available_probe-IsProbed name
  run_direct-IsProbed default (environment name equals nonempty) = (refl, refl, refl, refl)
  run_direct-IsProbed default (path target kind) = (refl, refl, refl, refl)
  run_direct-IsProbed default (systemd_unit unit scope state) =
      unit_probe-IsProbed unit scope state default
  run_direct-IsProbed default (command arguments expected requirement none) =
      command_probe-IsProbed arguments expected requirement default
  run_direct-IsProbed default (command arguments expected requirement (some n)) =
      command_probe-IsProbed arguments expected requirement n

-- A result on a stated fact: with a fallback exactly where a probe of the machine answered.
abbrev pub IsFactResult : String → CheckResult → Type 0
IsFactResult check_id r =
    (r.check_id ≡ check_id)
    × (r.check_type ≡ "stated_fact")
    × (has "fallback" r.details ≡ is_direct r)

module _ (fact operator : String) (path : Option String) (expected : Option Value) where
  fact_details-eq :
      (entry : Fields) (actual : Value) (passed : Bool)
      → has "fallback" (fact_details fact operator path expected entry actual passed) ≡ false
  unfolding fact_details get
  fact_details-eq entry actual passed = rw (
    has-merge,
    has-merge,
    present-eq "path" (text_value path) refl,
    has-merge,
    present-eq "expected" expected refl,
    has-merge,
    shown_actual-eq actual,
    has-merge,
    present-eq "fact_source" (get entry "source") refl,
    has-merge,
    present-eq "observed_at" (get entry "observed_at") refl,
    has-merge,
    present-eq "age_seconds" (get entry "age_seconds") refl,
    present-eq "fixture" (get entry "fixture") refl,
  )

  module _ (check_id : String) where
    judged-IsFactResult :
        (entry : Fields) (actual : Value) (o : Option Bool)
        → IsFactResult check_id (judged fact operator path expected check_id entry actual o)
    unfolding judged get
    judged-IsFactResult entry actual none = (refl, refl, refl)
    judged-IsFactResult entry actual (some passed) =
        (refl, refl, fact_details-eq entry actual passed)

    read_actual-IsFactResult :
        (entry : Fields) (o : Option Value)
        → IsFactResult check_id (read_actual fact operator path expected check_id entry o)
    unfolding read_actual get
    read_actual-IsFactResult entry none = (refl, refl, refl)
    read_actual-IsFactResult entry (some v) =
        judged-IsFactResult entry v (evaluate_fact v operator (or_null expected))

    read_entry-IsFactResult :
        (v : Value) → IsFactResult check_id (read_entry fact operator path expected check_id v)
    unfolding read_entry get
    read_entry-IsFactResult (obj entry) = elim (Option-cases (get entry "value")) [
      | inl q ↦ rw (read_entry, q) (refl, refl, refl)
      | inr (v, q) ↦ rw (read_entry, q) (read_actual-IsFactResult entry (extract_fact_path v path))
    ]
    read_entry-IsFactResult no_value = (refl, refl, refl)
    read_entry-IsFactResult (bool b) = (refl, refl, refl)
    read_entry-IsFactResult (num n) = (refl, refl, refl)
    read_entry-IsFactResult (str s) = (refl, refl, refl)
    read_entry-IsFactResult (arr vs) = (refl, refl, refl)

    module _ (host : Host) (default : Number) where
      stated_fallback-IsFactResult :
          (snapshot : StatedSnapshot) (fallback : Option Direct)
          → IsFactResult check_id
              (stated_fallback fact operator path expected check_id host default snapshot fallback)
      unfolding stated_fallback get
      stated_fallback-IsFactResult snapshot none = (refl, refl, refl)
      stated_fallback-IsFactResult snapshot (some d) =
          let (i, t, s, f) = run_direct-IsProbed host check_id default d in
          (i, refl, rw (has-merge, f, s))

      on_entry-IsFactResult :
          (snapshot : StatedSnapshot) (fallback : Option Direct) (o : Option Value)
          → IsFactResult check_id
              (on_entry fact operator path expected check_id host default snapshot fallback o)
      unfolding on_entry
      on_entry-IsFactResult snapshot fallback none = stated_fallback-IsFactResult snapshot fallback
      on_entry-IsFactResult snapshot fallback (some no_value) =
          stated_fallback-IsFactResult snapshot fallback
      on_entry-IsFactResult snapshot fallback (some (bool b)) = read_entry-IsFactResult (bool b)
      on_entry-IsFactResult snapshot fallback (some (num n)) = read_entry-IsFactResult (num n)
      on_entry-IsFactResult snapshot fallback (some (str s)) = read_entry-IsFactResult (str s)
      on_entry-IsFactResult snapshot fallback (some (arr vs)) = read_entry-IsFactResult (arr vs)
      on_entry-IsFactResult snapshot fallback (some (obj d)) = read_entry-IsFactResult (obj d)

is_direct_type-eq : (d : Direct) → (direct_type d == "stated_fact") ≡ false
is_direct_type-eq (command _ _ _ _) = refl
is_direct_type-eq (command_available _) = refl
is_direct_type-eq (environment _ _ _) = refl
is_direct_type-eq (path _ _) = refl
is_direct_type-eq (systemd_unit _ _ _) = refl

and-false : (b : Bool) → (b && false) ≡ false
and-false true = refl
and-false false = refl

and-true : (b : Bool) → (b && true) ≡ b
and-true true = refl
and-true false = refl

-- The parts of a result that repeat its check, and its fallback.
abbrev IsAnswer : String → Parameters → CheckResult → Type 0
IsAnswer check_id p r =
    (r.check_id ≡ check_id)
    × (r.check_type ≡ check_type p)
    × (has_fallback r ≡ (is_direct r && (check_type p == "stated_fact")))

run_check-IsAnswer :
    (host : Host) (default : Number) (snapshot : Option StatedSnapshot)
    (check_id description : String) (p : Parameters)
    → IsAnswer check_id p (
        run_check host default snapshot
          (record { check_id = check_id; description = description; parameters = p }))
unfolding run_check stated_probe
run_check-IsAnswer host default snapshot check_id description (direct d) =
    let (i, t, s, f) = run_direct-IsProbed host check_id default d in
    (i, t, rw (f, is_direct_type-eq d, and-false))
run_check-IsAnswer host default snapshot check_id description
      (stated_fact fact operator place expected fallback) =
    let state = snapshot_or_default fact snapshot in
    let (i, t, f) =
      on_entry-IsFactResult fact operator place expected check_id host default state fallback
        (entry_of fact operator place expected check_id host default state) in
    (i, t, f ∙ sym (and-true _))

-- The result of a check has its id and its type, and says that a fallback answered exactly when the
-- check is on a stated fact and its source is a probe of the machine.
pub run_check-source :
    (host : Host) (default : Number) (snapshot : Option StatedSnapshot) (c : Check)
    → ((run_check host default snapshot c).check_id ≡ c.check_id)
      × ((run_check host default snapshot c).check_type ≡ check_type c.parameters)
      × (has_fallback (run_check host default snapshot c) ≡ (
          is_direct (run_check host default snapshot c)
          && (check_type c.parameters == "stated_fact")))
run_check-source host default snapshot c =
    run_check-IsAnswer host default snapshot c.check_id c.description c.parameters
