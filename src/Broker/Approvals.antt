-- ===== src/Broker/Approvals.antt =====
-- jiritsu_broker/approvals.py: the external approval of one request.
pub mod Sound
use jiritsu.Base.{
  ℕ, String, ◌<>◌, Bool, true, false, not, ◌&&◌, ◌||◌, Option, none, some, List, [], ◌∷◌, ◌==◌, leb,
  minus, null, ltb, ◌+◌, ◌-◌, split, join, if◌then◌else◌, Result, ok, err,
}
use jiritsu.Json.{Value, null as no_value, bool, num, str, arr, obj, Fields, end, field, get, keys}
use jiritsu.Broker.Model.{overflow_error, Try, Request, is_text}
use jiritsu.Broker.Policy.Load.{
  Metadata, Fault, not_found, unreadable, untrusted_owner, writable_by_others,
}

pub record ApprovalResult : Type 0 where
  pub approved : Bool
  pub source : String
  pub approved_by : Option String
  pub reason : String

-- `ApprovalResult.public`
unfoldable pub public_approval : ApprovalResult → Fields
public_approval a = field "approved" (bool a.approved) (
    field "provider" (str "external_file") (
      field "source" (str a.source) (
        field "reason" (str a.reason)
          (elim a.approved_by [ some by ↦ field "approved_by" (str by) end | none ↦ end ]))))

-- What the process sees when it checks: the two files, the content that `json` reads, its
-- effective user and the time, as the microseconds from the year 1 in UTC. Reading the content may
-- raise what no handler expects, a `ValueError` for an integer with too many digits.
pub record Approvals : Type 0 where
  pub directory : Result Fault Metadata
  pub file : Result Fault Metadata
  pub content : Try (Result Fault Value)
  pub euid : ℕ
  pub now : ℕ

abbrev refused : String → String → ApprovalResult
refused source reason = record {
  approved = false;
  source = source;
  approved_by = none;
  reason = reason;
}

-- The handlers for what the operating system raises.
fault_result : String → Fault → ApprovalResult
fault_result source not_found = refused source "no external approval exists"
fault_result source (unreadable why) = refused source ("approval cannot be read: " <> why)

abbrev approval_fields : List String
approval_fields =
    "schema_version" ∷ "request_id" ∷ "request_sha256" ∷ "approved_by" ∷ "expires_at" ∷ []

abbrev pub text_value : Option Value → Option String
text_value (some (str s)) = some s
text_value (some _) = none
text_value none = none

-- An offset from UTC in microseconds.
pub data Zone : Type 0 where
  ahead behind : (offset : ℕ) → Zone

-- What `datetime.fromisoformat` reads: the microseconds from the year 1, and the time zone, if the
-- text has one.
pub record DateTime : Type 0 where
  pub local_time : ℕ
  pub tzinfo : Option Zone

-- The last microsecond of the year 9999.
abbrev pub latest : ℕ
latest = 315537897599999999

-- `astimezone(timezone.utc)`
unfoldable pub astimezone : ℕ → Zone → Try ℕ
astimezone t (ahead n) = if ltb t n then err overflow_error else ok (t - n)
astimezone t (behind n) = if ltb latest (t + n) then err overflow_error else ok (t + n)

abbrev pub found_time : Try ℕ → Try (Option ℕ)
found_time (err e) = err e
found_time (ok t) = ok (some t)

-- The time in UTC, of a time that has a time zone.
unfoldable pub in_utc : Option DateTime → Try (Option ℕ)
unfolding astimezone
in_utc none = ok none
in_utc (some d) = elim d.tzinfo [ none ↦ ok none | some z ↦ found_time (astimezone d.local_time z) ]

-- `value.replace("Z", "+00:00")`
unfoldable pub without_z : String → String
without_z s = join "+00:00" (split 90 s)

-- `sha256` is `Request.digest`: the digest of the request's canonical JSON, unless that cannot be
-- encoded. `fromisoformat` is Python's, and `none` where it raises a `ValueError`.
module _ (sha256 : Request → Try String) (fromisoformat : String → Option DateTime) where
  -- `_parse_time`
  unfoldable pub parse_time : Option Value → Try (Option ℕ)
  unfolding in_utc without_z
  parse_time v = elim (text_value v) [
    | some s ↦ in_utc (fromisoformat (without_z s))
    | none ↦ ok none
  ]

  -- The last three checks, on the approver and the time.
  timed : ℕ → String → String → ℕ → ApprovalResult
  timed now source by expires_at =
      if leb expires_at now
      then record {
        approved = false;
        source = source;
        approved_by = some by;
        reason = "approval has expired";
      }
      else record {
        approved = true;
        source = source;
        approved_by = some by;
        reason = "external approval matches this request";
      }

  check_grant : ℕ → String → Fields → Try ApprovalResult
  unfolding parse_time timed
  check_grant now source d = elim (text_value (get d "approved_by")) [
    | none ↦ ok (refused source "approved_by is missing")
    | some by ↦
        if by == ""
        then ok (refused source "approved_by is missing")
        else elim (parse_time (get d "expires_at")) [
          | err e ↦ err e
          | ok none ↦ ok (refused source "approval expiry is invalid")
          | ok (some expires_at) ↦ ok (timed now source by expires_at)
        ]
  ]

  check_fields : ℕ → String → Request → Fields → Try ApprovalResult
  unfolding check_grant
  check_fields now source r d =
      if not (null (minus (keys d) approval_fields))
      then ok (refused source "approval contains unknown fields")
      else if not (is_text (get d "schema_version") "1.0")
      then ok (refused source "approval schema version is invalid")
      else if not (is_text (get d "request_id") r.request_id)
      then ok (refused source "approval request ID does not match")
      else elim (sha256 r) [
        | err e ↦ err e
        | ok digest ↦
            if not (is_text (get d "request_sha256") digest)
            then ok (refused source "approval request digest does not match")
            else check_grant now source d
      ]

  check_value : ℕ → String → Request → Value → Try ApprovalResult
  unfolding check_fields
  check_value now source r (obj d) = check_fields now source r d
  check_value now source r v = ok (refused source "approval root is not an object")

  check_content : Approvals → String → Request → Try ApprovalResult
  unfolding check_value fault_result
  check_content a source r = elim a.content [
    | err e ↦ err e
    | ok (err fault) ↦ ok (fault_result source fault)
    | ok (ok v) ↦ check_value a.now source r v
  ]

  check_file : Approvals → String → Request → Metadata → Try ApprovalResult
  unfolding check_content
  check_file a source r m =
      if m.is_symlink || not m.is_regular
      then ok (refused source "approval is not a regular file")
      else if untrusted_owner a.euid m
      then ok (refused source "approval has an untrusted owner")
      else if writable_by_others m
      then ok (refused source "approval is writable by group or other users")
      else check_content a source r

  check_directory : Approvals → String → Request → Metadata → Try ApprovalResult
  unfolding check_file fault_result
  check_directory a source r m =
      if m.is_symlink || not m.is_directory
      then ok (refused source "approval directory is not a regular directory")
      else if untrusted_owner a.euid m
      then ok (refused source "approval directory has an untrusted owner")
      else if writable_by_others m
      then ok (refused source "approval directory is writable by group or other users")
      else elim a.file [
        | err fault ↦ ok (fault_result source fault)
        | ok f ↦ check_file a source r f
      ]

  -- `check_approval`
  unfoldable pub check_approval : Approvals → Request → String → Try ApprovalResult
  unfolding check_directory fault_result
  check_approval a r directory =
      let source = directory <> ("/" <> (r.request_id <> ".json")) in
      elim a.directory [
        | err fault ↦ ok (fault_result source fault)
        | ok m ↦ check_directory a source r m
      ]

-- An approval that counts.
abbrev pub is_approved : Try ApprovalResult → Bool
is_approved (ok a) = a.approved
is_approved (err e) = false
