-- ===== src/Broker/Operations.antt =====
-- The catalog and the handlers of jiritsu_broker/operations.py. A handler ends in a command for
-- another module, which runs as a process: the model stops at the call.
use jiritsu.Base.{
  ℕ, String, ◌<>◌, Option, none, some, List, [], ◌∷◌, ◌++◌, ◌==◌, if◌then◌else◌, ok, err, ◌>>=◌,
}
use jiritsu.Json.{texts, Number, Value, num, str, arr, obj, Fields, end, field, get, values}
use jiritsu.Broker.Model.{key_error, Try, error, Request}
use jiritsu.Broker.Policy.{Outcome}
use jiritsu.Broker.Approvals.{ApprovalResult}
use jiritsu.Broker.Arguments.{
  validate_state, validate_create, validate_timed, validate_approve, validate_query, validate_list,
  validate_checkpoint_inspect, validate_checkpoint_list, validate_checkpoint_query,
}

-- A word of a command: a text, or a number as `f"{timeout:g}"` prints it.
pub data Word : Type 0 where
  text : String → Word
  number : Number → Word

-- The time that a process may take: `seconds`, or `max(timeout * factor + extra, least)`.
pub data Limit : Type 0 where
  seconds : ℕ → Limit
  scaled : (timeout : Number) (factor extra least : ℕ) → Limit

-- What a handler asks a provider for.
pub data Call : Type 0 where
  query_state assess_workload : (selectors : List String) (timeout : Number) → Call
  run_proposal : (command : List Word) (limit : Limit) (input : Option Value) → Call
  run_checkpoint : (command : List Word) (limit : Limit) → Call

-- The dictionary of a decision. One of the operation registry has no principal and no authorities.
pub record Decision : Type 0 where
  pub outcome : Outcome
  pub reason : String
  pub provider : String
  pub source : String
  pub rule_id : Option String
  pub principal : Option String
  pub required_authorities : List String
  pub granted_authorities : List String
  pub approval : Option ApprovalResult

-- `arguments[key]`
abbrev pub text_at : Fields → String → Try String
text_at d k = elim (get d k) [ some (str s) ↦ ok s | _ ↦ err key_error ]

abbrev pub number_at : Fields → String → Try Number
number_at d k = elim (get d k) [ some (num n) ↦ ok n | _ ↦ err key_error ]

abbrev pub value_at : Fields → String → Try Value
value_at d k = elim (get d k) [ some v ↦ ok v | _ ↦ err key_error ]

abbrev texts_at : Fields → String → Try (List String)
texts_at d k = elim (get d k) [ some (arr vs) ↦ ok (texts (values vs)) | _ ↦ err key_error ]

abbrev words : List String → List Word
words [] = []
words (s ∷ ss) = text s ∷ words ss

-- `_state`
unfoldable pub handle_state : Request → Fields → Decision → Try Call
handle_state r arguments decision = do
  names ← texts_at arguments "selectors"
  timeout ← number_at arguments "timeout_seconds"
  ok (query_state names timeout)

-- `_workload`
unfoldable pub handle_workload : Request → Fields → Decision → Try Call
handle_workload r arguments decision = do
  names ← texts_at arguments "selectors"
  timeout ← number_at arguments "timeout_seconds"
  ok (assess_workload names timeout)

-- The definition that `_create` hands over: the broker, not the agent, writes the origin.
unfoldable pub definition_of : Request → Value → Value → Value
definition_of r intent actions = obj (
    field "schema_version" (str "1.0") (
      field "intent" intent (
        field "origin"
          (obj (
            field "kind" (str "agent")
              (field "actor" (str r.actor) (field "request_id" (str r.request_id) end))))
          (field "actions" actions end))))

-- `if key in arguments: command.extend([flag, arguments[key]])`
abbrev option_words : Fields → String → String → List String
option_words d key flag = elim (get d key) [ some (str s) ↦ flag ∷ s ∷ [] | _ ↦ [] ]

-- `_create`
unfoldable pub handle_create : Request → Fields → Decision → Try Call
unfolding definition_of
handle_create r arguments decision = do
  intent ← value_at arguments "intent"
  actions ← value_at arguments "actions"
  ok (
      run_proposal (words ("create" ∷ "-" ∷ option_words arguments "proposal_id" "--id"))
        (seconds 10) (some (definition_of r intent actions)))

-- The command of `_classify` and `_promote`.
timed_command : String → Request → Fields → Try Call
timed_command verb r arguments = do
  timeout ← number_at arguments "timeout_seconds"
  proposal ← text_at arguments "proposal_id"
  ok (
      run_proposal
        (words (verb ∷ proposal ∷ "--actor" ∷ ("broker:" <> r.actor) ∷ "--timeout" ∷ [])
          ++ (number timeout ∷ []))
        (scaled timeout 25 10 20) none)

-- `_classify`
unfoldable pub handle_classify : Request → Fields → Decision → Try Call
unfolding timed_command
handle_classify r arguments decision = timed_command "classify" r arguments

-- `_promote`
unfoldable pub handle_promote : Request → Fields → Decision → Try Call
unfolding timed_command
handle_promote r arguments decision = timed_command "promote" r arguments

-- Who approves: the approver of the external approval, or the principal that the policy let through.
unfoldable pub approver : Decision → Try String
approver decision =
    let missing : Try String = err (
      error "approval_context_missing"
        "proposal approval requires an authorized approver identity") in
    let by_policy : Try String = elim decision.principal [
      | some p ↦ if p == "" then missing else ok ("policy:" <> p)
      | none ↦ missing
    ] in
    elim decision.approval [
      | none ↦ by_policy
      | some a ↦ elim a.approved_by [
        | none ↦ by_policy
        | some by ↦ if by == "" then by_policy else ok by
      ]
    ]

-- `_approve`
unfoldable pub handle_approve : Request → Fields → Decision → Try Call
handle_approve r arguments decision = do
  approved_by ← approver decision
  proposal ← text_at arguments "proposal_id"
  ok (
      run_proposal
        (words
          ("approve" ∷ proposal ∷ "--actor" ∷ approved_by ∷ option_words arguments "note" "--note"))
        (seconds 10) none)

-- `_query`
unfoldable pub handle_query : Request → Fields → Decision → Try Call
handle_query r arguments decision = do
  proposal ← text_at arguments "proposal_id"
  ok (run_proposal (words ("show" ∷ proposal ∷ [])) (seconds 10) none)

-- `_list`
unfoldable pub handle_list : Request → Fields → Decision → Try Call
handle_list r arguments decision =
    ok (run_proposal (words ("list" ∷ option_words arguments "state" "--state")) (seconds 10) none)

-- `_checkpoint_inspect`
unfoldable pub handle_checkpoint_inspect : Request → Fields → Decision → Try Call
handle_checkpoint_inspect r arguments decision = do
  timeout ← number_at arguments "timeout_seconds"
  ok (
      run_checkpoint (text "inspect" ∷ text "--timeout" ∷ number timeout ∷ [])
        (scaled timeout 4 5 10))

-- `_checkpoint_list`
unfoldable pub handle_checkpoint_list : Request → Fields → Decision → Try Call
handle_checkpoint_list r arguments decision = ok (run_checkpoint (words ("list" ∷ [])) (seconds 10))

-- `_checkpoint_query`
unfoldable pub handle_checkpoint_query : Request → Fields → Decision → Try Call
handle_checkpoint_query r arguments decision = do
  checkpoint ← text_at arguments "checkpoint_id"
  ok (run_checkpoint (words ("show" ∷ checkpoint ∷ [])) (seconds 10))

pub record Operation : Type 0 where
  pub operation_id : String
  pub effect : String
  pub authorities : List String
  pub provider : String
  pub validator : Fields → Try Fields
  pub handler : Request → Fields → Decision → Try Call

abbrev operation :
    String
    → String
    → List String
    → String
    → (Fields → Try Fields)
    → (Request → Fields → Decision → Try Call)
    → Operation
operation id effect authorities provider validator handler = record {
  operation_id = id;
  effect = effect;
  authorities = authorities;
  provider = provider;
  validator = validator;
  handler = handler;
}

-- `OPERATIONS`, less the descriptions and argument schemas that only the catalog prints.
unfoldable pub operations : List Operation
operations =
    operation "state.query" "read_only" ("machine_state.read" ∷ [])
      "jiritsu-stated with Omarchy/Linux fallback" validate_state handle_state
    ∷ operation "workload.assess" "read_only" ("workload.assessment.read" ∷ []) "jiritsu-workload"
        validate_state handle_workload
    ∷ operation "proposal.create" "durable_intent" ("proposal.intent.write" ∷ [])
        "jiritsu-proposals" validate_create handle_create
    ∷ operation "proposal.classify" "durable_classification"
        ("proposal.classification.write" ∷ "machine_state.read" ∷ "workload.assessment.read" ∷ [])
        "jiritsu-proposals" validate_timed handle_classify
    ∷ operation "proposal.approve" "durable_approval" ("proposal.approval.write" ∷ [])
        "jiritsu-proposals" validate_approve handle_approve
    ∷ operation "proposal.query" "read_only" ("proposal.read" ∷ []) "jiritsu-proposals"
        validate_query handle_query
    ∷ operation "proposal.list" "read_only" ("proposal.read" ∷ []) "jiritsu-proposals" validate_list
        handle_list
    ∷ operation "proposal.promote" "machine_change" ("user_config.write" ∷ []) "jiritsu-proposals"
        validate_timed handle_promote
    ∷ operation "checkpoint.inspect" "read_only" ("checkpoint.read" ∷ []) "jiritsu-checkpoints"
        validate_checkpoint_inspect handle_checkpoint_inspect
    ∷ operation "checkpoint.query" "read_only" ("checkpoint.read" ∷ []) "jiritsu-checkpoints"
        validate_checkpoint_query handle_checkpoint_query
    ∷ operation "checkpoint.list" "read_only" ("checkpoint.read" ∷ []) "jiritsu-checkpoints"
        validate_checkpoint_list handle_checkpoint_list
    ∷ []

-- `OPERATION_MAP.get(id)`
unfoldable pub find : List Operation → String → Option Operation
find [] id = none
find (o ∷ os) id = if o.operation_id == id then some o else find os id
