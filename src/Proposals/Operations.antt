-- ===== src/Proposals/Operations.antt =====
-- jiritsu_proposals/operations.py up to the promotion: the operations on a proposal, each under the lock of its
-- directory. The actions on the configuration's tree (actions.py) and the providers (providers.py)
-- are an interface.
use jiritsu.Base.{
  join, map, ℕ, String, ◌<>◌, Bool, true, false, Option, none, some, List, [], ◌∷◌, ◌==◌, eqb, any,
  if◌then◌else◌, Result, ok, err,
}
use jiritsu.Base.Ident.{lower_id}
use jiritsu.Json.{Value, str, Fields, end, field}
use jiritsu.Proposals.Model.{
  os_error, type_error, Try, error_at, error_of, State, draft, classified, approved, rejected,
  applying, committed, failed, rolled_back, Action, Definition, Target, Check, Checked, Applied,
  Restored, Workloads, Recovery, Classification, granted, refused, Proposal, event, transition,
}
use jiritsu.Proposals.Validation.{parse_definition}
use jiritsu.Proposals.Store.{Host, Op, pure, raise, lift, ◌>>=◌, ◌>>◌, lock, load, save}

-- What `inspect_actions` finds out.
pub record Inspection : Type 0 where
  pub targets : List Target
  pub verification : List Check
  pub recovery_actions : Fields

-- The actions on a tree: inspecting, applying, verifying and undoing them. `apply` returns the
-- records of all actions, or those of the actions before the one that failed and why it did
-- (`ActionApplyError`), or raises.
pub record Actions (Tree : Type 0) : Type 0 where
  pub inspect : Tree → List Action → Try Inspection
  pub apply : Tree → List Action → Try (Result (String × List Applied) (List Applied)) × Tree
  pub verify : Tree → List Check → List Checked
  pub undo : Tree → List Applied → List Restored × Tree
  pub action_digest : List Action → String
  pub same_targets : List Target → List Target → Bool

-- What surrounds an operation.
pub record World (Tree : Type 0) : Type 0 where
  pub host : Host
  pub actions : Actions Tree
  pub new_id : String
  -- the configuration's directory, resolved, and if it is one
  pub config_root : String
  pub config_root_is_dir : Bool
  -- what the providers answer to the first and to the second question of an operation
  pub machine_state : Bool → Fields
  pub workloads : Bool → Workloads
  pub recovery_provider : Recovery
  pub prepare_recovery : Proposal → Try Recovery

abbrev pub state_index : State → ℕ
state_index draft = 0
state_index classified = 1
state_index approved = 2
state_index rejected = 3
state_index applying = 4
state_index committed = 5
state_index failed = 6
state_index rolled_back = 7

abbrev pub state_eq : State → State → Bool
state_eq s t = eqb (state_index s) (state_index t)

state_name : State → String
state_name draft = "draft"
state_name classified = "classified"
state_name approved = "approved"
state_name rejected = "rejected"
state_name applying = "applying"
state_name committed = "committed"
state_name failed = "failed"
state_name rolled_back = "rolled_back"

-- `_require_state`
unfoldable pub require_state : Proposal → List State → Try Unit
unfolding state_name
require_state p states =
    if any (state_eq p.state) states
    then ok tt
    else err (
        error_of "invalid_transition"
          ("proposal must be in " <> (join ", " (map state_name states) <> " state")) p.id)

-- `proposal["classification"]`, where the code reads its entries
unfoldable pub classification_of : Option Classification → Try Classification
classification_of none = err type_error
classification_of (some c) = ok c

module _ {Tree : Type 0} (world : World Tree) where
  unfoldable pub created : String → Definition → Proposal
  unfolding event
  created id d = record {
    id = id;
    revision = 1;
    state = draft;
    definition = d;
    classification = none;
    approval = none;
    verification = [];
    recovery = record { status = "unclassified"; provider = end; actions = none };
    promotion = none;
    history = event 1 "created" d.origin.actor none (some draft) end ∷ [];
  }

  -- `proposal_id or _new_id()`
  unfoldable pub selected_id : Option String → String
  selected_id none = world.new_id
  selected_id (some id) = if id == "" then world.new_id else id

  -- The part of `create_proposal` after the definition was read.
  unfoldable pub store_new : String → Definition → Op Tree Proposal
  unfolding created
  store_new id d =
      if lower_id id
      then lock world.host id true (save world.host (created id d)) >> pure (created id d)
      else raise (
          error_at "invalid_id"
            "proposal ID must use lowercase letters, numbers, dots, underscores, or hyphens" "id")

  unfoldable pub create_proposal : Value → Option String → Op Tree Proposal
  unfolding selected_id store_new
  create_proposal definition proposal_id = do
    normalized ← lift (parse_definition definition)
    store_new (selected_id proposal_id) normalized

  -- `inspect_actions`, with an `OSError` turned into an error of the proposal.
  unfoldable pub inspected : Tree → Proposal → Try Inspection
  inspected tree p = elim (world.actions.inspect tree p.definition.actions) [
    | err (os_error why) ↦
        err (error_of "target_inspection_failed" ("cannot inspect an action target: " <> why) p.id)
    | r ↦ r
  ]

  -- The proposal with its classification.
  unfoldable pub classify_as : Proposal → String → Inspection → Proposal
  unfolding transition
  classify_as p actor inspection =
      transition
        (record p {
          classification = some (record {
            classified_by = actor;
            required_permissions = "user_config.write" ∷ [];
            action_digest = world.actions.action_digest p.definition.actions;
            config_root = world.config_root;
            targets = inspection.targets;
            machine_state = world.machine_state false;
            workload_state = world.workloads false;
          });
          verification = inspection.verification;
          recovery = record world.recovery_provider { actions = some inspection.recovery_actions };
        })
        classified "classified" actor end

  -- `save`, and the proposal as the result
  unfoldable pub save_and_return : Proposal → Op Tree Proposal
  save_and_return p = save world.host p >> pure p

  unfoldable pub config_root_present : String → Try Unit
  config_root_present proposal_id =
      if world.config_root_is_dir
      then ok tt
      else err (
          error_of "config_root_missing"
            ("user config directory does not exist: " <> world.config_root) proposal_id)

  -- The inspection of the tree, and what follows it.
  unfoldable pub inspect_and_save : Proposal → String → Op Tree Proposal
  unfolding inspected classify_as save_and_return
  inspect_and_save p actor s =
      (lift (inspected s.tree p) >>= λ inspection. save_and_return (classify_as p actor inspection))
        s

  unfoldable pub classify_proposal : String → String → Op Tree Proposal
  unfolding require_state config_root_present inspect_and_save
  classify_proposal proposal_id actor = lock world.host proposal_id false (do
    p ← load world.host proposal_id
    lift (require_state p (draft ∷ []))
    lift (config_root_present proposal_id)
    inspect_and_save p actor)

  -- `if note`
  some_note : Option String → Option String
  some_note none = none
  some_note (some n) = if n == "" then none else some n

  unfoldable pub approve_as : Proposal → String → Option String → Classification → Proposal
  unfolding transition some_note
  approve_as p actor note c =
      transition
        (record p {
          approval = some (granted actor c.action_digest c.required_permissions (some_note note));
        })
        approved "approved" actor end

  unfoldable pub approve_proposal : String → String → Option String → Op Tree Proposal
  unfolding require_state approve_as classification_of save_and_return
  approve_proposal proposal_id actor note = lock world.host proposal_id false (do
    p ← load world.host proposal_id
    lift (require_state p (classified ∷ []))
    c ← lift (classification_of p.classification)
    save_and_return (approve_as p actor note c))

  unfoldable pub reject_as : Proposal → String → String → Proposal
  unfolding transition
  reject_as p actor reason =
      transition (record p { approval = some (refused actor reason) }) rejected "rejected" actor
        (field "reason" (str reason) end)

  unfoldable pub reject_proposal : String → String → String → Op Tree Proposal
  unfolding require_state reject_as save_and_return
  reject_proposal proposal_id actor reason = lock world.host proposal_id false (do
    p ← load world.host proposal_id
    lift (require_state p (draft ∷ classified ∷ []))
    save world.host (reject_as p actor reason)
    pure (reject_as p actor reason))
