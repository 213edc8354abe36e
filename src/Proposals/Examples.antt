-- ===== src/Proposals/Examples.antt =====
-- The properties of proposals on a proposal that makes one directory: it is created, classified,
-- approved and promoted.
use jiritsu.Base.{
  join, minus, sorted, strip_is_empty, String, true, any, length, Option, none, some, List, [], ◌∷◌,
  ◌++◌, ◌≡◌, refl, ◌⊎◌, ok,
}
use jiritsu.Base.Ident.{lower_id}
use jiritsu.Json.{Fields, end, field, str, obj, arr, no_items, item, get, keys}
use jiritsu.Proposals.Model.{Definition, Proposal, is_directory, committed, Action, mkdir, write}
use jiritsu.Proposals.Validation.{is_relative, parse_definition}
use jiritsu.Proposals.Definitions.{IsDefinition, parse_definition-IsDefinition}
use jiritsu.Proposals.Store.{File, stored, Host, Session, lookup, load, lock, save, put}
use jiritsu.Proposals.Operations.{
  World, Actions, created, create_proposal, classify_proposal, approve_proposal, reject_proposal,
}
use jiritsu.Proposals.Promotion.{promote_proposal, all_passed, new_failures}
use jiritsu.Proposals.Lifecycle.{IsWellFormed, is_approval, is_granted}
use jiritsu.Proposals.Runs.{
  Command, create, classify, approve, promote, reject, run, run_all, empty_store,
  from_empty-AreSound, run_all-approved, run-CameFrom, run-terminal,
}
use jiritsu.Proposals.Moves.{CameFrom}
use jiritsu.Proposals.Safety.{IsInScope, promote_proposal-IsInScope}

-- A tree is the list of its directories; files are not written here.
abbrev path_of : Action → String
path_of (mkdir path mode) = path
path_of (write path content mode expected) = path

abbrev paths : List Action → List String
paths [] = []
paths (a ∷ rest) = path_of a ∷ paths rest

abbrev actions : Actions (List String)
actions = record {
  inspect = λ tree xs.
      ok (record { targets = []; verification = is_directory "a" ∷ []; recovery_actions = end });
  apply = λ tree xs. (ok (ok []), paths xs ++ tree);
  verify = λ tree cs. [];
  undo = λ tree rs. ([], tree);
  action_digest = λ xs. "d";
  same_targets = λ old new. true;
}

abbrev definition : Definition
definition = record {
  intent = record { summary = "make a"; rationale = "needed" };
  origin = record { kind = "human"; actor = "me"; request_id = none };
  actions = mkdir "a" "0700" ∷ [];
}

abbrev fields : Fields
fields = field "schema_version" (str "1.0") (
    field "intent" (obj (field "summary" (str "make a") (field "rationale" (str "needed") end))) (
      field "origin" (obj (field "kind" (str "human") (field "actor" (str "me") end))) (
        field "actions"
          (arr
            (item (obj (field "type" (str "config.mkdir") (field "path" (str "a") end))) no_items))
          end)))

fields-definition : parse_definition (obj fields) ≡ ok definition
unfolding parse_definition get keys minus sorted strip_is_empty join
fields-definition = refl

parse_definition-IsDefinition_example : IsDefinition definition
parse_definition-IsDefinition_example =
    parse_definition-IsDefinition (obj fields) definition fields-definition

-- The path of a single dot is accepted.
is_relative_dot : is_relative "." ≡ true
unfolding is_relative
is_relative_dot = refl

abbrev host : Host
host = record { root = none; lock_file = none; write = λ n. none }

abbrev world : World (List String)
world = record {
  host = host;
  actions = actions;
  new_id = "p-1";
  config_root = "/home/me/.config";
  config_root_is_dir = true;
  machine_state = λ b. end;
  workloads = λ b. record { selected_provider = "none"; critical_failures = [] };
  recovery_provider = record { status = "available"; provider = end; actions = none };
  prepare_recovery = λ p. ok p.recovery;
}

abbrev commands : List (Command (List String))
commands =
    create world (obj fields) none
    ∷ classify world "p-1" "me"
    ∷ approve world "p-1" "me" none
    ∷ promote world "p-1" "me"
    ∷ []

abbrev before_promotion : List (Command (List String))
before_promotion =
    create world (obj fields) none ∷ classify world "p-1" "me" ∷ approve world "p-1" "me" none ∷ []

abbrev session : List (Command (List String)) → Session (List String)
session cs = run_all cs (empty_store [])

abbrev record_of : Option File → Proposal
record_of (some (stored p)) = p
record_of f = created world "" definition

abbrev promoted : Proposal
promoted = record_of (lookup (session commands).directories "p-1")

promoted-stored : lookup (session commands).directories "p-1" ≡ some (stored promoted)
unfolding lookup create_proposal classify_proposal approve_proposal promote_proposal load lower_id
    lock save put all_passed new_failures parse_definition get keys minus sorted strip_is_empty join
promoted-stored = refl

promoted-state : promoted.state ≡ committed
unfolding lookup create_proposal classify_proposal approve_proposal promote_proposal load lower_id
    lock save put all_passed new_failures parse_definition get keys minus sorted strip_is_empty join
promoted-state = refl

run_all-approved_example :
    (any is_approval promoted.history ≡ true)
    × (is_granted promoted.approval ≡ true)
    × (promoted.revision ≡ length promoted.history)
unfolding lookup create_proposal classify_proposal approve_proposal promote_proposal load lower_id
    lock save put all_passed new_failures parse_definition get keys minus sorted strip_is_empty join
run_all-approved_example = run_all-approved commands [] "p-1" promoted promoted-stored refl

run-CameFrom_example :
    (promoted.id ≡ "p-1")
    × IsWellFormed promoted
    × CameFrom (session before_promotion).directories "p-1" promoted.state
run-CameFrom_example =
    run-CameFrom (promote world "p-1" "me") (session before_promotion)
      (from_empty-AreSound before_promotion []) "p-1" promoted promoted-stored

abbrev rejection : Command (List String)
rejection = reject world "p-1" "me" "too late"

abbrev after_rejection : Proposal
after_rejection = record_of (lookup (run rejection (session commands)).1.directories "p-1")

still-stored :
    lookup (run rejection (session commands)).1.directories "p-1" ≡ some (stored after_rejection)
unfolding lookup create_proposal classify_proposal approve_proposal promote_proposal load lower_id
    lock save put all_passed new_failures parse_definition get keys minus sorted strip_is_empty join
    reject_proposal
still-stored = refl

run-terminal_example : after_rejection.state ≡ promoted.state
unfolding lookup create_proposal classify_proposal approve_proposal promote_proposal load lower_id
    lock save put all_passed new_failures parse_definition get keys minus sorted strip_is_empty join
run-terminal_example =
    run-terminal rejection (session commands) (from_empty-AreSound commands []) "p-1" promoted
      after_rejection promoted-stored refl still-stored

promote_proposal-IsInScope_example :
    ((promote_proposal world "p-1" "me" (session before_promotion)).1.tree
      ≡ (session before_promotion).tree)
    ⊎ ((p : Proposal) × (lookup (session before_promotion).directories "p-1" ≡ some (stored p))
        × IsInScope world (session before_promotion).tree p)
promote_proposal-IsInScope_example =
    promote_proposal-IsInScope world "p-1" "me" (session before_promotion)
