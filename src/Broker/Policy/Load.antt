-- ===== src/Broker/Policy/Load.antt =====
-- `Policy.load` of jiritsu_broker/policy.py: the checks of the file, of its table and of each rule.
-- Paths are texts; the three operations of `pathlib` on them are parameters.
pub mod Sound
use Prim.Native.Nat.{bit_and}
use jiritsu.Base.{
  ℕ, ◌+◌, String, ◌<>◌, Bool, true, false, not, ◌&&◌, ◌||◌, Option, none, some, List, [], ◌∷◌, ◌==◌,
  contains, decimal, eqb, null, any, if◌then◌else◌, Result, ok, err, ◌>>=◌, ◌>>◌, raise_if,
}
use jiritsu.Json.{
  texts, Value, null as no_value, str, arr, obj, no_items, Fields, get, get_or, values,
}
use jiritsu.Broker.Model.{Exception, type_error, Try, error, error_at, is_text, unknown_keys}
use jiritsu.Broker.Policy.{Outcome, allow, deny, require_approval, Rule, Policy}

-- What the operating system answers about a file: its metadata, and its parsed content.
pub record Metadata : Type 0 where
  pub is_symlink : Bool
  pub is_regular : Bool
  pub is_directory : Bool
  pub uid : ℕ
  pub mode : ℕ

pub data Fault : Type 0 where
  not_found : Fault
  unreadable : String → Fault

pub record File : Type 0 where
  pub lstat : Result Fault Metadata
  pub content : Result Fault Value

-- The operations of `pathlib.Path` that `load` uses.
pub record Paths : Type 0 where
  pub expanduser : String → String
  pub is_absolute : String → Bool
  pub beside : (source relative : String) → String

-- `uid not in {0, os.geteuid()}`
unfoldable pub untrusted_owner : ℕ → Metadata → Bool
untrusted_owner euid m = not (eqb m.uid 0 || eqb m.uid euid)

-- `mode & 0o022`
unfoldable pub writable_by_others : Metadata → Bool
writable_by_others m = not (eqb (bit_and m.mode 0o22) 0)

invalid : String → Exception
invalid message = error "policy_invalid" message

check_metadata : ℕ → String → Metadata → Try (Unit {0})
check_metadata euid source m = do
  raise_if (m.is_symlink || not m.is_regular) (invalid ("policy is not a regular file: " <> source))
  raise_if (untrusted_owner euid m) (invalid ("policy has an untrusted owner: " <> source))
  raise_if (writable_by_others m)
      (invalid ("policy is writable by group or other users: " <> source))

-- The handlers of `load` for what the operating system and the parser raise.
or_raise {ℓ} : {A : Type ℓ} → String → Result Fault A → Result Exception A
or_raise source (ok a) = ok a
or_raise source (err not_found) =
    err (error "policy_unavailable" ("policy file does not exist: " <> source))
or_raise source (err (unreadable why)) =
    err (invalid ("cannot read policy " <> (source <> (": " <> why))))

is_nonempty_text : Value → Bool
is_nonempty_text (str s) = not (s == "")
is_nonempty_text v = false

-- `_string_list`
unfoldable pub string_list : Option Value → String → Bool → Try (List String)
unfolding is_nonempty_text texts
string_list (some (arr vs)) name allow_empty =
    let items = values vs in
    if (null items && not allow_empty) || any (λ v. not (is_nonempty_text v)) items
    then err (error_at "policy_invalid" (name <> " must be a nonempty string array") name)
    else ok (texts items)
string_list v name allow_empty =
    err (error_at "policy_invalid" (name <> " must be a nonempty string array") name)

nonempty_text : Option Value → Exception → Try String
nonempty_text (some (str s)) e = if s == "" then err e else ok s
nonempty_text v e = err e

-- `decision not in DECISIONS`: a list or a table cannot be hashed.
decision_value : Option Value → Exception → Try Outcome
decision_value (some (str s)) e =
    if s == "allow"
    then ok allow
    else if s == "deny"
    then ok deny
    else if s == "require_approval"
    then ok require_approval
    else err e
decision_value (some (arr vs)) e = err type_error
decision_value (some (obj d)) e = err type_error
decision_value v e = err e

abbrev pub is_deny : Outcome → Bool
is_deny deny = true
is_deny o = false

reject_rule_fields : String → List String → Try (Unit {0})
reject_rule_fields location [] = ok tt
reject_rule_fields location (u ∷ us) =
    err (error_at "policy_invalid" ("unknown rule field: " <> u) (location <> ("." <> u)))

abbrev rule_fields : List String
rule_fields = "id" ∷ "principals" ∷ "operations" ∷ "decision" ∷ "authorities" ∷ []

-- The body of the loop over the rules.
parse_rule : String → List String → Fields → Try Rule
unfolding reject_rule_fields nonempty_text decision_value invalid
parse_rule location seen raw = do
  reject_rule_fields location (unknown_keys raw rule_fields)
  rule_id ← nonempty_text (get raw "id") (invalid (location <> ".id must be a nonempty string"))
  raise_if (contains seen rule_id) (invalid ("duplicate policy rule: " <> rule_id))
  decision ←
      decision_value (get raw "decision")
        (invalid (location <> ".decision must be one of ['allow', 'deny', 'require_approval']"))
  principals ← string_list (get raw "principals") (location <> ".principals") false
  operations ← string_list (get raw "operations") (location <> ".operations") false
  authorities ←
      string_list (some (get_or raw "authorities" (arr no_items))) (location <> ".authorities")
        (is_deny decision)
  ok (record {
    rule_id = rule_id;
    principals = principals;
    operations = operations;
    decision = decision;
    authorities = authorities;
  })

parse_rule_value : String → List String → Value → Try Rule
unfolding parse_rule
parse_rule_value location seen (obj raw) = parse_rule location seen raw
parse_rule_value location seen v =
    err (error_at "policy_invalid" (location <> " must be a table") location)

-- The loop, from index `i` with the identifiers seen so far.
parse_rules : ℕ → List String → List Value → Try (List Rule)
unfolding parse_rule_value
parse_rules i seen [] = ok []
parse_rules i seen (v ∷ vs) = do
  rule ← parse_rule_value ("rules[" <> (decimal i <> "]")) seen v
  rest ← parse_rules (i + 1) (rule.rule_id ∷ seen) vs
  ok (rule ∷ rest)

rules_value : Value → Try (List Value)
rules_value (arr vs) = ok (values vs)
rules_value v = err (error_at "policy_invalid" "rules must be an array" "rules")

approval_value : Option Value → Try (Option String)
approval_value none = ok none
approval_value (some no_value) = ok none
approval_value (some v) =
    elim (nonempty_text (some v) (
      error_at "policy_invalid" "approval_directory must be a nonempty path string"
        "approval_directory")) [ ok s ↦ ok (some s) | err e ↦ err e ]

reject_policy_fields : List String → Try (Unit {0})
reject_policy_fields [] = ok tt
reject_policy_fields (u ∷ us) = err (error_at "policy_invalid" ("unknown policy field: " <> u) u)

abbrev policy_fields : List String
policy_fields = "schema_version" ∷ "default" ∷ "approval_directory" ∷ "rules" ∷ []

resolve_approvals : Paths → String → Option String → Option String
resolve_approvals p source none = none
resolve_approvals p source (some value) =
    let directory = p.expanduser value in
    some (if p.is_absolute directory then directory else p.beside source directory)

unfoldable pub parse_policy : Paths → String → Fields → Try Policy
unfolding reject_policy_fields rules_value approval_value parse_rules resolve_approvals
parse_policy p source payload = do
  reject_policy_fields (unknown_keys payload policy_fields)
  raise_if (not (is_text (get payload "schema_version") "1.0"))
      (error_at "policy_invalid" "policy schema_version must be \"1.0\"" "schema_version")
  raise_if (not (is_text (get payload "default") "deny")) (
      error_at "policy_invalid"
        "policy default must be \"deny\"; each granted authority needs a rule" "default")
  approvals ← approval_value (get payload "approval_directory")
  raw_rules ← rules_value (get_or payload "rules" (arr no_items))
  rules ← parse_rules 0 [] raw_rules
  ok (record {
    source = source;
    default = deny;
    rules = rules;
    approval_directory = resolve_approvals p source approvals;
  })

parse_policy_value : Paths → String → Value → Try Policy
unfolding parse_policy
parse_policy_value p source (obj payload) = parse_policy p source payload
parse_policy_value p source v = err (invalid "policy root must be a table")

-- `Policy.load`, once the source is chosen
unfoldable pub load : Paths → ℕ → String → File → Try Policy
unfolding check_metadata or_raise parse_policy_value
load p euid source file = do
  metadata ← or_raise source file.lstat
  check_metadata euid source metadata
  payload ← or_raise source file.content
  parse_policy_value p source payload
