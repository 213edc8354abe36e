-- ===== src/Proposals/Model.antt =====
-- jiritsu_proposals/model.py, and the record of a proposal that operations.py fills. Times are left
-- out of the records.
use jiritsu.Base.{Bool, ℕ, ◌+◌, String, Option, none, some, List, [], ◌∷◌, ◌++◌, length, Result}
use jiritsu.Json.{Fields}

pub record ProposalError : Type 0 where
  pub code : String
  pub message : String
  pub at : Option String
  pub proposal_id : Option String

-- What an operation may raise: errors of its own, those of the operating system, and Python's
-- `TypeError` and `KeyError`.
pub data Exception : Type 0 where
  proposal : ProposalError → Exception
  os_error : (why : String) → Exception
  type_error key_error : Exception

abbrev pub Try : Type 0 → Type 0
Try A = Result Exception A

abbrev pub error : String → String → Exception
error code message =
    proposal (record { code = code; message = message; at = none; proposal_id = none })

abbrev pub error_at : String → String → String → Exception
error_at code message name =
    proposal (record { code = code; message = message; at = some name; proposal_id = none })

abbrev pub error_of : String → String → String → Exception
error_of code message id =
    proposal (record { code = code; message = message; at = none; proposal_id = some id })

-- The states of a proposal.
pub data State : Type 0 where
  draft classified approved rejected applying committed failed rolled_back : State

pub data Action : Type 0 where
  mkdir : (path mode : String) → Action
  write : (path content mode : String) (expected_sha256 : Option String) → Action

pub record Intent : Type 0 where
  pub summary : String
  pub rationale : String

pub record Origin : Type 0 where
  pub kind : String
  pub actor : String
  pub request_id : Option String

-- What `parse_definition` returns.
pub record Definition : Type 0 where
  pub intent : Intent
  pub origin : Origin
  pub actions : List Action

pub record Event : Type 0 where
  pub sequence : ℕ
  pub event_type : String
  pub actor : String
  pub from_state : Option State
  pub to_state : Option State
  pub details : Fields

-- The observation of an action's target.
pub record Target : Type 0 where
  pub action : ℕ
  pub path : String
  pub kind : String
  pub sha256 : Option String
  pub mode : Option String

-- What must hold of the targets after the actions.
pub data Check : Type 0 where
  is_directory : (path : String) → Check
  has_digest : (path expected : String) → Check

pub data Outcome : Type 0 where
  pass fail unreadable : Outcome

pub record Checked : Type 0 where
  pub check : Check
  pub outcome : Outcome

-- The record of an action that was carried out; `recovery` says how it is undone, and
-- `original_mode` belongs to a backup.
pub record Applied : Type 0 where
  pub action : ℕ
  pub path : String
  pub changed : Bool
  pub recovery : String
  pub original_mode : ℕ

pub record Restored : Type 0 where
  pub action : ℕ
  pub path : String
  pub restored : Bool

-- What the workload module reports.
pub record Workloads : Type 0 where
  pub selected_provider : String
  pub critical_failures : List String

-- The object under `recovery`: its status, and what the provider added.
pub record Recovery : Type 0 where
  pub status : String
  pub provider : Fields
  pub actions : Option Fields

pub record Classification : Type 0 where
  pub classified_by : String
  pub required_permissions : List String
  pub action_digest : String
  pub config_root : String
  pub targets : List Target
  pub machine_state : Fields
  pub workload_state : Workloads

pub data Approval : Type 0 where
  granted :
      (approved_by action_digest : String) (permissions : List String) (note : Option String)
      → Approval
  refused : (rejected_by reason : String) → Approval

-- The checkpoint of a promotion is a copy of the recovery object, or that object itself, which
-- later changes of its status reach as well.
pub data Checkpoint : Type 0 where
  copied : Recovery → Checkpoint
  shared : Checkpoint

pub record Failure : Type 0 where
  pub code : String
  pub message : String
  pub new_critical_failures : List String

pub record Promotion : Type 0 where
  pub status : String
  pub promoted_by : String
  pub machine_state_before : Fields
  pub workloads_before : Workloads
  pub checkpoint : Checkpoint
  pub failure : Option Failure
  pub applied_actions : Option (List Applied)
  pub verification : Option (List Checked)
  pub rollback : Option (List Restored)
  pub machine_state_after : Option Fields
  pub workloads_after : Option Workloads

pub record Proposal : Type 0 where
  pub id : String
  pub revision : ℕ
  pub state : State
  pub definition : Definition
  pub classification : Option Classification
  pub approval : Option Approval
  pub verification : List Check
  pub recovery : Recovery
  pub promotion : Option Promotion
  pub history : List Event

-- `event`
unfoldable pub event : ℕ → String → String → Option State → Option State → Fields → Event
event sequence event_type actor from_state to_state details = record {
  sequence = sequence;
  event_type = event_type;
  actor = actor;
  from_state = from_state;
  to_state = to_state;
  details = details;
}

-- `transition`
unfoldable pub transition : Proposal → State → String → String → Fields → Proposal
unfolding event
transition p to_state event_type actor details = record p {
  state = to_state;
  revision = p.revision + 1;
  history =
      p.history
      ++ (event (length p.history + 1) event_type actor (some p.state) (some to_state) details
          ∷ []);
}
