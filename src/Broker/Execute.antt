-- ===== src/Broker/Execute.antt =====
-- jiritsu_broker/broker.py: one request, from the journal's check for a duplicate to its result.
pub mod Once
pub mod Calls
pub mod Replay
pub mod Grants
pub mod Completion
use jiritsu.Base.{
  ℕ, String, ◌<>◌, Option, none, some, List, [], ◌∷◌, ◌++◌, ◌==◌, map, null, if◌then◌else◌, Result,
  ok, err,
}
use jiritsu.Json.{Value, str, arr, obj, Fields, end, field, get, values}
use jiritsu.Broker.Model.{Exception, Try, broker, error_at, Request, public_error}
use jiritsu.Broker.Policy.{allow, deny, require_approval, PolicyDecision, Policy, evaluate}
use jiritsu.Broker.Approvals.{DateTime, ApprovalResult, Approvals, check_approval}
use jiritsu.Broker.Operations.{Call, Decision, Operation, operations, find}
use jiritsu.Broker.Audit.{
  Action, ProviderResult, Status, succeeded, failed, denied, approval_required, Response, Event,
  requested, decided, acted, resulted, Files, Exec, pure, raise, ◌>>=◌, ◌>>◌, append, request_lock,
  is_complete,
}

-- What surrounds the broker while it executes one request.
pub record World : Type 0 where
  -- where the journal is, and what the operating system answers for its files
  pub state_directory : String
  pub files : Files
  -- the principals of the process
  pub principals : List String
  -- the files of the external approval, by the directory that is asked
  pub approvals : String → Approvals
  -- `Request.digest` and `datetime.fromisoformat`
  pub sha256 : Request → Try String
  pub fromisoformat : String → Option DateTime
  -- what a provider's process returns, or the text of what calling it raises
  pub provider : Call → Result String ProviderResult
  -- `str(error)`
  pub describe : Exception → String

problem : String → String → Value
problem code message = obj (field "code" (str code) (field "message" (str message) end))

-- The decision of the operation registry, for a request that reaches no policy.
registry_decision : String → Decision
registry_decision reason = record {
  outcome = deny;
  reason = reason;
  provider = "operation_registry";
  source = "built-in";
  rule_id = none;
  principal = none;
  required_authorities = [];
  granted_authorities = [];
  approval = none;
}

-- `PolicyDecision.public`
unfoldable pub policy_decision : String → PolicyDecision → Decision
policy_decision source d = record {
  outcome = d.outcome;
  reason = d.reason;
  provider = "toml";
  source = source;
  rule_id = d.rule_id;
  principal = some d.principal;
  required_authorities = d.required_authorities;
  granted_authorities = d.granted_authorities;
  approval = none;
}

-- `errors` of a provider's result that failed: its own, those of its data, or a general one.
data_errors : Option Fields → List Value
data_errors none = []
data_errors (some d) = elim (get d "errors") [ some (arr vs) ↦ values vs | _ ↦ [] ]

provider_errors : ProviderResult → List Value
unfolding data_errors problem
provider_errors p =
    let found = map (λ (d : Fields). obj d) p.fallback_errors ++ data_errors p.content in
    if p.status == "error"
    then (if null found
        then problem "operation_failed" "provider reported an error" ∷ []
        else found)
    else []

-- `policy.approval_directory or state_directory / "approvals"`
abbrev pub approval_directory : World → Policy → String
approval_directory world policy = elim policy.approval_directory [
  | some path ↦ path
  | none ↦ world.state_directory <> "/approvals"
]

module _ (world : World) (request : Request) where
  log : Event → Exec Unit
  log event = append world.state_directory world.files request.request_id event

  -- `_record_result` of a `_response`
  finish : Response → Exec Response
  unfolding log
  finish response = do log (resulted response); pure response

  respond : Status → Decision → List Value → Response
  respond status decision errors = record {
    status = status;
    request_id = request.request_id;
    operation = request.operation;
    decision = some decision;
    action = none;
    result = none;
    errors = errors;
  }

  -- A refusal before the policy is asked.
  refuse : String → Value → Exec Response
  unfolding log finish respond registry_decision
  refuse reason e =
      let decision = registry_decision reason in
      log (decided decision) >> finish (respond failed decision (e ∷ []))

  -- What the answer on an approval makes of a decision that asks for one.
  unfoldable pub with_result : Decision → ApprovalResult → Decision
  with_result d approval =
      if approval.approved
      then record d {
        outcome = allow;
        reason = "matching external approval permits this request";
        approval = some approval;
      }
      else record d { approval = some approval }

  -- The decision of the policy, after an external approval where the rule asks for one.
  unfoldable pub with_approval : Policy → Decision → Try Decision
  unfolding with_result
  with_approval policy d = elim d.outcome [
    | require_approval ↦
        let directory = approval_directory world policy in
        elim (check_approval world.sha256 world.fromisoformat (world.approvals directory) request
          directory) [ err e ↦ err e | ok approval ↦ ok (with_result d approval) ]
    | _ ↦ ok d
  ]

  unfoldable pub decide : Policy → Operation → Try Decision
  unfolding with_approval policy_decision
  decide policy operation = with_approval policy (
      policy_decision policy.source
        (evaluate policy world.principals request.operation operation.authorities))

  approval_reason : Option ApprovalResult → String
  approval_reason none = ""
  approval_reason (some a) = a.reason

  -- The handler, and the process that it starts.
  invoke : Operation → Fields → Decision → Exec (Result String ProviderResult)
  invoke operation arguments decision j = elim (operation.handler request arguments decision) [
    | err e ↦ (ok (err (world.describe e)), j)
    | ok call ↦ (ok (world.provider call), record j { calls = j.calls ++ (call ∷ []) })
  ]

  outcome_response : Decision → Action → Result String ProviderResult → Response
  unfolding respond problem provider_errors
  outcome_response decision action (err why) =
      record (respond failed decision
        (problem "operation_failed" ("operation adapter failed: " <> why) ∷ [])) {
          action = some action;
        }
  outcome_response decision action (ok p) =
      record (respond (if p.status == "ok" then succeeded else failed) decision
        (provider_errors p)) { action = some action; result = some p }

  -- From the action's record to the result's.
  perform : Operation → Fields → Decision → Exec Response
  unfolding log invoke finish outcome_response
  perform operation arguments decision =
      let action : Action = record {
        operation = operation.operation_id;
        effect = operation.effect;
        authority = operation.authorities;
        adapter = operation.provider;
      } in
      do
        log (acted action)
        result ← invoke operation arguments decision
        finish (outcome_response decision action result)

  -- What follows the decision's record.
  carry_out : Operation → Fields → Decision → Exec Response
  unfolding finish respond perform problem approval_reason
  carry_out operation arguments decision = elim decision.outcome [
    | allow ↦ perform operation arguments decision
    | deny ↦ finish (respond denied decision (problem "policy_denied" decision.reason ∷ []))
    | require_approval ↦ finish (
        respond approval_required decision
          (problem "approval_required" (approval_reason decision.approval) ∷ []))
  ]

  authorize : Policy → Operation → Fields → Exec Response
  unfolding log decide carry_out
  authorize policy operation arguments = elim (decide policy operation) [
    | err e ↦ raise e
    | ok decision ↦ log (decided decision) >> carry_out operation arguments decision
  ]

  -- The typed arguments. Only a broker's own error is turned into a response.
  check_arguments : Policy → Operation → Exec Response
  unfolding authorize refuse
  check_arguments policy operation = elim (operation.validator request.arguments) [
    | ok arguments ↦ authorize policy operation arguments
    | err (broker e) ↦
        refuse "operation arguments did not match the typed tool contract" (obj (public_error e))
    | err e ↦ raise e
  ]

  dispatch : Policy → Option Operation → Exec Response
  unfolding check_arguments refuse problem
  dispatch policy none =
      refuse "operation is not in the broker tool catalog"
        (problem "unknown_operation" ("unknown operation: " <> request.operation))
  dispatch policy (some operation) = check_arguments policy operation

  duplicate : Exec Response
  duplicate = raise (
      error_at "duplicate_request"
        ("request ID already has a terminal result: " <> request.request_id) "request_id")

  -- `_execute_locked`
  unfoldable pub execute_locked : Policy → Exec Response
  unfolding log dispatch duplicate
  execute_locked policy = do
    complete ← is_complete world.state_directory world.files request.request_id
    if complete
        then duplicate
        else do log (requested request); dispatch policy (find operations request.operation)

  -- `execute_request`
  unfoldable pub execute_request : Policy → Exec Response
  unfolding execute_locked
  execute_request policy = do
    request_lock world.state_directory world.files request.request_id
    execute_locked policy
