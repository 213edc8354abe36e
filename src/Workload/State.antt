-- ===== src/Workload/State.antt =====
-- jiritsu_workload/state.py: one query of jiritsu-stated for all the facts that checks ask for.
pub mod Coverage
use jiritsu.Base.{
  ℕ, eqb, String, ◌<>◌, Bool, true, false, not, ◌&&◌, ◌||◌, Option, none, some, List, [], ◌∷◌, ◌==◌,
  null, contains, minus, sorted, decimal, if◌then◌else◌, Result, ok, err,
}
use jiritsu.Workload.Model.{Try, type_error}
use jiritsu.Workload.Output.{short_output}
use jiritsu.Json.{
  Value, null as no_value, bool, num, str, arr, obj, Items, no_items, item, Fields, end, field, get,
  keys, values,
}

-- The status of a snapshot.
pub data Status : Type 0 where
  disabled failed not_required partial unavailable used : Status

pub record StatedSnapshot : Type 0 where
  pub status : Status
  pub requested_facts : List String
  pub facts : Fields
  pub errors : List Value
  pub command : Option String
  pub query_status : Option String
  pub message : Option String

-- A process that ended: its status, a number and its sign, and its output, as JSON where it is that.
pub record Completed : Type 0 where
  pub negative : Bool
  pub returncode : ℕ
  pub stdout : String
  pub stderr : String

-- What starting a process comes to.
pub data Run : Type 0 where
  completed : Completed → Run
  file_not_found timeout_expired : Run
  os_error : (why : String) → Run

-- What surrounds a query: the command if there is one, its process, `json.loads` and
-- the text of the outer time limit.
pub record StatedHost : Type 0 where
  pub command : Option String
  pub run : String → List String → Run
  pub loads : String → Option Value
  pub outer_timeout : List String → String

abbrev pub is_zero : Completed → Bool
is_zero c = eqb c.returncode 0

abbrev pub is_two : Completed → Bool
is_two c = eqb c.returncode 2 && not c.negative

unfoldable pub code_text : Completed → String
code_text c =
    if c.negative && not (is_zero c) then "-" <> decimal c.returncode else decimal c.returncode

module _ (requested : List String) where
  -- A snapshot with no facts.
  unfoldable pub empty : Status → Option String → Option String → StatedSnapshot
  empty status command message = record {
    status = status;
    requested_facts = requested;
    facts = end;
    errors = [];
    command = command;
    query_status = none;
    message = message;
  }

  -- The loop over the facts: those that were asked for and have a value.
  unfoldable pub valid_facts : Fields → Fields
  valid_facts end = end
  valid_facts (field id (obj d) fs) =
      let rest = valid_facts fs in
      if contains requested id && contains (keys d) "value" then field id (obj d) rest else rest
  valid_facts (field id v fs) = valid_facts fs

  unfoldable pub all_objects : List Value → Bool
  all_objects [] = true
  all_objects (obj d ∷ vs) = all_objects vs
  all_objects (v ∷ vs) = false

  -- `not valid_facts`
  abbrev pub no_facts : Fields → Bool
  no_facts end = true
  no_facts d = false

  -- The status of a query by what came back.
  unfoldable pub query_result : Completed → String → Fields → Status
  query_result c query_status facts =
      let gone = minus requested (keys facts) in
      if no_facts facts && (not (is_zero c) || (query_status == "error"))
      then failed
      else if not (null gone) || ((query_status == "partial") || is_two c)
      then partial
      else if is_zero c && (query_status == "ok")
      then used
      else failed

  module _ (host : StatedHost) where
    with_detail : String → String → String
    with_detail text detail = if detail == "" then text else text <> (": " <> detail)

    status_message : Completed → Status → Option String
    unfolding with_detail code_text
    status_message c partial = some "jiritsu-stated returned only some requested facts"
    status_message c failed = some (
        with_detail ("jiritsu-stated query failed with status " <> code_text c)
          (short_output c.stderr))
    status_message c s = none

    unfoldable pub answer : String → Completed → Fields → List Value → String → StatedSnapshot
    unfolding status_message query_result valid_facts
    answer executable c facts errors query_status =
        let valid = valid_facts facts in
        let status = query_result c query_status valid in
        record {
          status = status;
          requested_facts = requested;
          facts = valid;
          errors = errors;
          command = some executable;
          query_status = some query_status;
          message = status_message c status;
        }

    unfoldable pub bad_response : String → StatedSnapshot
    unfolding empty
    bad_response executable =
        empty failed (some executable) (some "jiritsu-stated returned an invalid response")

    -- The fields of the answer have their types, and the status is one of the three:
    -- `query_status not in {"ok", "partial", "error"}`: an array or an object cannot be hashed.
    unfoldable pub read_status :
        String → Completed → Fields → List Value → Option Value → Try StatedSnapshot
    unfolding answer bad_response
    read_status executable c facts errors (some (str s)) = ok (
        if contains ("ok" ∷ "partial" ∷ "error" ∷ []) s
        then answer executable c facts errors s
        else bad_response executable)
    read_status executable c facts errors (some (arr vs)) = err type_error
    read_status executable c facts errors (some (obj d)) = err type_error
    read_status executable c facts errors o = ok (bad_response executable)

    unfoldable pub read_errors :
        String → Completed → Fields → Option Value → Option Value → Try StatedSnapshot
    unfolding read_status all_objects bad_response
    read_errors executable c facts (some (arr errors)) status =
        if all_objects (values errors)
        then read_status executable c facts (values errors) status
        else ok (bad_response executable)
    read_errors executable c facts o status = ok (bad_response executable)

    unfoldable pub read_response :
        String → Completed → (facts errors status : Option Value) → Try StatedSnapshot
    unfolding read_errors bad_response
    read_response executable c (some (obj facts)) errors status =
        read_errors executable c facts errors status
    read_response executable c o errors status = ok (bad_response executable)

    unfoldable pub is_version : Option Value → Bool
    is_version (some (str s)) = s == "1.0"
    is_version o = false

    unfoldable pub bad_schema : String → StatedSnapshot
    unfolding empty
    bad_schema executable =
        empty failed (some executable) (some "jiritsu-stated must return schema_version \"1.0\"")

    unfoldable pub read_payload : String → Completed → Option Value → Try StatedSnapshot
    unfolding empty with_detail is_version read_response bad_schema
    read_payload executable c none = ok (
        empty failed (some executable) (
          some (
            with_detail "jiritsu-stated returned invalid JSON"
              (short_output (if c.stderr == "" then c.stdout else c.stderr)))))
    read_payload executable c (some (obj d)) =
        if is_version (get d "schema_version")
        then read_response executable c (get d "facts") (get d "errors") (get d "status")
        else ok (bad_schema executable)
    read_payload executable c (some v) = ok (bad_schema executable)

    unfoldable pub read_run : String → Run → Try StatedSnapshot
    unfolding empty read_payload
    read_run executable (completed c) = read_payload executable c (host.loads c.stdout)
    read_run executable file_not_found =
        ok (empty unavailable (some executable) (some "jiritsu-stated is not available"))
    read_run executable timeout_expired = ok (
        empty failed (some executable) (
          some (
            "jiritsu-stated did not finish within "
            <> (host.outer_timeout requested <> " seconds"))))
    read_run executable (os_error why) =
        ok (empty failed (some executable) (some ("jiritsu-stated could not run: " <> why)))

    unfoldable pub query : Option String → Try StatedSnapshot
    unfolding empty read_run
    query none = ok (empty unavailable none (some "jiritsu-stated is not available"))
    query (some executable) = read_run executable (host.run executable requested)

-- `collect_stated_facts`
unfoldable pub collect_stated_facts :
    StatedHost → List String → (enabled : Bool) → Try StatedSnapshot
unfolding empty query
collect_stated_facts host fact_ids enabled =
    let requested = sorted fact_ids in
    if null requested
    then ok (empty requested not_required none none)
    else if not enabled
    then ok
        (empty requested disabled none (some "jiritsu-stated use was disabled for this assessment"))
    else query requested host host.command
