-- ===== src/Broker/Examples.antt =====
-- The broker at concrete inputs: tests, and the theorems where their hypotheses hold.
use jiritsu.Base.{
  ℕ, ◌^◌, ◌≤◌, String, true, false, Option, none, some, List, [], ◌∷◌, ◌++◌, ◌==◌, ◌≡◌, ◌↔◌, ◌⊎◌,
  refl, arith, contains, length, Distinct, if◌then◌else◌, ok, err, minus, sorted, unique, decimal,
}
use jiritsu.Base.Ident.{selector_id, mixed_id}
use jiritsu.Json.{
  Number, int, float, nan, num, str, arr, obj, Items, no_items, item, Fields, end, field, get,
  get_or, keys, values, texts,
}
use jiritsu.Broker.Model.{Try, overflow_error, type_error, Request, public, parse_request}
use jiritsu.Broker.Model.Requests.{IsRequest, IsReadFrom, parse_request-public, parse_request_sound}
use jiritsu.Broker.Policy.{allow, deny, Rule, Policy, evaluate}
use jiritsu.Broker.Policy.Decisions.{IsFirst, Covers, Decides, evaluate_iff, evaluate_granted}
use jiritsu.Broker.Policy.Load.{
  Metadata, Paths, File, load, string_list, parse_policy, untrusted_owner, writable_by_others,
}
use jiritsu.Broker.Policy.Load.Sound.{IsPolicy, IsTrusted, load_sound}
use jiritsu.Broker.Approvals.{Approvals, DateTime, ahead, is_approved, check_approval}
use jiritsu.Broker.Approvals.Sound.{IsApproved, check_approval_iff}
use jiritsu.Json.Numbers.{float_limit, at_most_zero}
use jiritsu.Broker.Arguments.{above_thirty, timeout, selectors, unknown, validate_list, to_float}
use jiritsu.Broker.Arguments.Bounds.{InRange, timeout_iff, selectors_sound}
use jiritsu.Broker.Operations.{Operation, Call, operations, find}
use jiritsu.Broker.Audit.{succeeded, resulted, Journal, Files, entry, Response}
use jiritsu.Broker.Audit.Records.{terminal_count}
use jiritsu.Broker.Execute.{World, execute_request}
use jiritsu.Broker.Execute.Once.{Run, serve, empty_journal, serve_once}
use jiritsu.Broker.Execute.Replay.{is_raised, execute_request_replay}
use jiritsu.Broker.Execute.Grants.{IsPermitted, execute_request-IsPermitted}

abbrev show : Request
show = record {
  request_id = "r-1";
  actor = "agent";
  operation = "proposal.query";
  arguments = field "proposal_id" (str "p-1") end;
}

show-IsRequest : IsRequest show
unfolding mixed_id
show-IsRequest = record { request_id = refl; actor = refl; operation = refl }

parse_request-public_example : parse_request (obj (public show)) ≡ ok show
parse_request-public_example = parse_request-public show show-IsRequest

parse_request_sound_example :
    (d : Fields) × (obj (public show) ≡ obj d) × IsReadFrom d show × IsRequest show
parse_request_sound_example =
    parse_request_sound (obj (public show)) show parse_request-public_example

abbrev reader : Rule
reader = record {
  rule_id = "read";
  principals = "uid:1000" ∷ [];
  operations = "proposal.query" ∷ [];
  decision = allow;
  authorities = "proposal.read" ∷ [];
}

abbrev policy : Policy
policy = record {
  source = "/p.toml";
  default = deny;
  rules = reader ∷ [];
  approval_directory = none;
}

abbrev me : List String
me = "uid:1000" ∷ []

evaluate_iff_example :
    ((evaluate policy me "proposal.query" ("proposal.read" ∷ [])).outcome ≡ allow)
    ↔ ((rule : Rule) × Decides policy.rules me "proposal.query" ("proposal.read" ∷ []) allow rule)
evaluate_iff_example =
    evaluate_iff policy me "proposal.query" ("proposal.read" ∷ []) allow refl (λ e. cc)

evaluate_granted_example :
    ((evaluate policy me "proposal.query" ("proposal.read" ∷ [])).granted_authorities ≡ [])
    ⊎ (((evaluate policy me "proposal.query" ("proposal.read" ∷ [])).granted_authorities
          ≡ "proposal.read" ∷ [])
        × ((rule : Rule) × IsFirst policy.rules me "proposal.query" rule
            × Covers rule.authorities ("proposal.read" ∷ [])))
evaluate_granted_example = evaluate_granted policy me "proposal.query" ("proposal.read" ∷ [])

abbrev strings : List String → Items
strings [] = no_items
strings (s ∷ ss) = item (str s) (strings ss)

abbrev policy_table : Fields
policy_table = field "schema_version" (str "1.0") (
    field "default" (str "deny") (
      field "rules"
        (arr (
          item
            (obj (
              field "id" (str "read") (
                field "principals" (arr (strings ("uid:1000" ∷ []))) (
                  field "operations" (arr (strings ("proposal.query" ∷ []))) (
                    field "decision" (str "allow")
                      (field "authorities" (arr (strings ("proposal.read" ∷ []))) end))))))
            no_items))
        end))

abbrev regular : ℕ → Metadata
regular mode = record {
  is_symlink = false;
  is_regular = true;
  is_directory = false;
  uid = 1000;
  mode = mode;
}

abbrev folder : Metadata
folder = record {
  is_symlink = false;
  is_regular = false;
  is_directory = true;
  uid = 1000;
  mode = 0o700;
}

abbrev paths : Paths
paths = record { expanduser = λ p. p; is_absolute = λ p. true; beside = λ s p. p }

abbrev policy_file : File
policy_file = record { lstat = ok (regular 0o600); content = ok (obj policy_table) }

loads : load paths 1000 "/p.toml" policy_file ≡ ok policy
unfolding load parse_policy string_list get keys minus sorted untrusted_owner writable_by_others
    texts decimal
loads = refl

load_sound_example :
    IsPolicy policy × ((m : Metadata) × (policy_file.lstat ≡ ok m) × IsTrusted 1000 m)
load_sound_example = load_sound paths 1000 "/p.toml" policy_file policy loads

abbrev digest : Request → Try String
digest r = ok "d-"

abbrev times : String → Option DateTime
times s =
    if s == "later+00:00" then some (record { local_time = 20; tzinfo = some (ahead 0) }) else none

abbrev approvals : Approvals
approvals = record {
  directory = ok folder;
  file = ok (regular 0o600);
  content = ok (
      ok (
        obj (
          field "schema_version" (str "1.0") (
            field "request_id" (str "r-1") (
              field "request_sha256" (str "d-")
                (field "approved_by" (str "ops") (field "expires_at" (str "laterZ") end)))))));
  euid = 1000;
  now = 10;
}

check_approval_iff_example :
    (is_approved (check_approval digest times approvals show "/a") ≡ true)
    ↔ IsApproved digest times approvals show
check_approval_iff_example = check_approval_iff digest times approvals show "/a"

abbrev files : Files
files = record {
  euid = 1000;
  directory = ok folder;
  journal = ok (regular 0o600);
  locks = ok folder;
  lock = ok (regular 0o600);
  encodes = λ e. true;
  write = λ n. none;
  read = none;
}

abbrev world : World
world = record {
  state_directory = "/state";
  files = files;
  principals = me;
  approvals = λ d. approvals;
  sha256 = digest;
  fromisoformat = times;
  provider = λ c. ok (record {
    status = "ok";
    selected_provider = "jiritsu-proposals";
    source = none;
    fallback_errors = [];
    content = none;
  });
  describe = λ e. "";
}

abbrev run : Run
run = record { world = world; request = show; policy = policy }

serve_once_example : terminal_count "r-1" (serve (run ∷ run ∷ []) empty_journal).lines ≤ 1
serve_once_example = serve_once (run ∷ run ∷ []) "r-1"

execute_request-IsPermitted_example :
    ((execute_request world show policy empty_journal).1.calls ≡ [])
    ⊎ ((c : Call) × ((execute_request world show policy empty_journal).1.calls ≡ [] ++ (c ∷ []))
        × ((o : Operation) × (find operations "proposal.query" ≡ some o)
            × ((rule : Rule) × IsPermitted world show policy o rule)))
execute_request-IsPermitted_example =
    execute_request-IsPermitted world show policy refl empty_journal

abbrev answer : Response
answer = record {
  status = succeeded;
  request_id = "r-1";
  operation = "proposal.query";
  decision = none;
  action = none;
  result = none;
  errors = [];
}

abbrev done : Journal
done = record { lines = entry "r-1" (resulted answer) ∷ []; calls = [] }

execute_request_replay_example :
    (is_raised (execute_request world show policy done).0 ≡ true)
    × ((execute_request world show policy done).1 ≡ done)
execute_request_replay_example = execute_request_replay world show policy done (omega arith)

abbrev short_limit : Fields
short_limit = field "timeout_seconds" (num (int false 30)) end

timeout_iff_example : ((n : Number) × (timeout short_limit ≡ ok n)) ↔ (
    (v : Number) × (get_or short_limit "timeout_seconds" (num (float false 5 0)) ≡ num v)
    × (InRange v ⊎ (v ≡ nan)))
timeout_iff_example = timeout_iff short_limit

-- A NaN is accepted, and an integer that is too large for a float raises what no handler expects.
timeout_of_nan : timeout (field "timeout_seconds" (num nan) end) ≡ ok nan
unfolding timeout get to_float at_most_zero above_thirty
timeout_of_nan = refl

timeout_of_large :
    timeout (field "timeout_seconds" (num (int false (10 ^ 400))) end) ≡ err overflow_error
unfolding timeout get to_float float_limit
timeout_of_large = refl

-- A state that is an array cannot be hashed: the validator raises what no handler expects.
state_of_array : validate_list (field "state" (arr no_items) end) ≡ err type_error
unfolding validate_list unknown get keys minus sorted
state_of_array = refl

abbrev two_names : Fields
two_names = field "selectors" (arr (strings ("cpu" ∷ "cpu" ∷ []))) end

abbrev one_name : List String
one_name = "cpu" ∷ []

two_names-selectors : selectors two_names ≡ ok one_name
unfolding selectors get unique texts selector_id
two_names-selectors = refl

selectors_sound_example :
    Distinct one_name
    × (length one_name ≤ 32)
    × ((a : String) → contains one_name a ≡ true → selector_id a ≡ true)
    × ((vs : Items) × (get_or two_names "selectors" (arr no_items) ≡ arr vs)
        × ((a : String) → contains one_name a ≡ contains (texts (values vs)) a))
selectors_sound_example = selectors_sound two_names one_name two_names-selectors
