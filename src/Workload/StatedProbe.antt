-- ===== src/Workload/StatedProbe.antt =====
-- jiritsu_workload/probes.py: checks on stated facts, with their fallback to a probe of the machine,
-- and `run_check`. The message of a fact that does not match the check is left without the text of
-- the Python error.
use jiritsu.Base.{String, ◌<>◌, Bool, ◌==◌, Option, none, some, [], ◌∷◌, if◌then◌else◌}
use jiritsu.Json.{Number, Value, null as no_value, bool, str, arr, obj, Fields, end, field, get}
use jiritsu.Workload.Model.{Direct, direct, stated_fact, Check, direct_type}
use jiritsu.Workload.State.{
  Status, disabled, failed, not_required, partial, unavailable, used, StatedSnapshot, empty,
}
use jiritsu.Workload.Facts.{extract_fact_path, evaluate_fact}
use jiritsu.Workload.Machine.{Verdict, error, stated, CheckResult, Host, merge, verdict}
use jiritsu.Workload.Probes.{run_direct}

abbrev pub status_text : Status → String
status_text disabled = "disabled"
status_text failed = "failed"
status_text not_required = "not_required"
status_text partial = "partial"
status_text unavailable = "unavailable"
status_text used = "used"

-- A field for a value that is present.
abbrev pub present : String → Option Value → Fields
present name none = end
present name (some v) = field name v end

abbrev pub text_value : Option String → Option Value
text_value none = none
text_value (some s) = some (str s)

abbrev pub or_null : Option Value → Value
or_null none = no_value
or_null (some v) = v

-- A value that the result repeats: neither an array nor an object.
abbrev pub shown_actual : Value → Fields
shown_actual (arr vs) = end
shown_actual (obj d) = end
shown_actual v = field "actual" v end

or_default : Option String → String
or_default none = "the requested fact is not available"
or_default (some s) = if s == "" then "the requested fact is not available" else s

module _ (fact operator : String) (path : Option String) (expected : Option Value) where
  -- `_fact_details`
  unfoldable pub fact_details : Fields → Value → Bool → Fields
  fact_details entry actual passed =
      merge
        (field "fact" (str fact)
          (field "operator" (str operator) (field "matched" (bool passed) end)))
        (merge (present "path" (text_value path)) (
          merge (present "expected" expected) (
            merge (shown_actual actual) (
              merge (present "fact_source" (get entry "source")) (
                merge (present "observed_at" (get entry "observed_at")) (
                  merge (present "age_seconds" (get entry "age_seconds"))
                    (present "fixture" (get entry "fixture"))))))))

  module _ (check_id : String) where
    -- `_result` with the source jiritsu-stated
    on_fact : Verdict → String → Fields → CheckResult
    on_fact status message details = record {
      check_id = check_id;
      check_type = "stated_fact";
      status = status;
      source = stated;
      message = message;
      details = details;
    }

    mismatch : CheckResult
    unfolding on_fact
    mismatch = on_fact error "The stated fact does not match this check" (
        field "fact" (str fact)
          (field "path" (or_null (text_value path)) (field "operator" (str operator) end)))

    -- What the operator says of the value that the path selects.
    unfoldable pub judged : Fields → Value → Option Bool → CheckResult
    unfolding on_fact mismatch fact_details verdict
    judged entry actual none = mismatch
    judged entry actual (some passed) =
        on_fact (verdict passed)
          (if passed
            then "The stated fact meets the requirement"
            else "The stated fact does not meet the requirement")
          (fact_details entry actual passed)

    unfoldable pub read_actual : Fields → Option Value → CheckResult
    unfolding judged mismatch evaluate_fact
    read_actual entry none = mismatch
    read_actual entry (some actual) =
        judged entry actual (evaluate_fact actual operator (or_null expected))

    -- The `try` of `_stated_fact`, on an entry.
    unfoldable pub read_entry : Value → CheckResult
    unfolding read_actual mismatch extract_fact_path
    read_entry (obj entry) = elim (get entry "value") [
      | none ↦ mismatch
      | some value ↦ read_actual entry (extract_fact_path value path)
    ]
    read_entry v = mismatch

    reason : StatedSnapshot → Fields
    unfolding or_default
    reason snapshot =
        field "stated_status" (str (status_text snapshot.status))
          (field "fact" (str fact) (field "stated_message" (str (or_default snapshot.message)) end))

    module _ (host : Host) (default : Number) where
      -- `_stated_fallback`
      unfoldable pub stated_fallback : StatedSnapshot → Option Direct → CheckResult
      unfolding on_fact reason run_direct
      stated_fallback snapshot none =
          on_fact error "The stated fact is unavailable and this check has no direct fallback"
            (reason snapshot)
      stated_fallback snapshot (some d) =
          let r = run_direct host check_id default d in
          record r {
            check_type = "stated_fact";
            message = "Direct fallback: " <> r.message;
            details = merge r.details (
                field "fallback" (obj (reason snapshot))
                  (field "probe_type" (str (direct_type d)) end));
          }

      -- The entry of the fact, where the snapshot is `used` or `partial`.
      unfoldable pub entry_of : StatedSnapshot → Option Value
      entry_of snapshot = elim snapshot.status [
        | used ↦ get snapshot.facts fact
        | partial ↦ get snapshot.facts fact
        | s ↦ none
      ]

      -- `entry is None`: absent, or `null`
      unfoldable pub on_entry : StatedSnapshot → Option Direct → Option Value → CheckResult
      unfolding stated_fallback read_entry
      on_entry snapshot fallback none = stated_fallback snapshot fallback
      on_entry snapshot fallback (some no_value) = stated_fallback snapshot fallback
      on_entry snapshot fallback (some v) = read_entry v

      -- `_stated_fact`
      unfoldable pub stated_probe : StatedSnapshot → Option Direct → CheckResult
      unfolding entry_of on_entry
      stated_probe snapshot fallback = on_entry snapshot fallback (entry_of snapshot)

-- The snapshot of a check that was given none.
unfoldable pub snapshot_or_default : String → Option StatedSnapshot → StatedSnapshot
unfolding empty
snapshot_or_default fact none =
    empty (fact ∷ []) unavailable none (some "jiritsu-stated was not initialized")
snapshot_or_default fact (some s) = s

unfoldable pub run_check : Host → Number → Option StatedSnapshot → Check → CheckResult
unfolding run_direct stated_probe snapshot_or_default
run_check host default snapshot c = elim c.parameters [
  | direct d ↦ run_direct host c.check_id default d
  | stated_fact fact operator path expected fallback ↦
      stated_probe fact operator path expected c.check_id host default
        (snapshot_or_default fact snapshot) fallback
]
