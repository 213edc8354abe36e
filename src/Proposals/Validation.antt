-- ===== src/Proposals/Validation.antt =====
-- jiritsu_proposals/validation.py: from JSON to the definition of a proposal. `PurePosixPath` is
-- written out for the paths that do not begin with a slash.
use jiritsu.Base.{
  split, ℕ, ◌+◌, ltb, leb, eqb, String, ◌<>◌, Bool, false, not, ◌&&◌, ◌||◌, Option, none, some,
  List, [], ◌∷◌, ◌==◌, length, null, contains, minus, sorted, join, decimal, codes, all_codes,
  starts_with, strip_is_empty, if◌then◌else◌, ok, err, ◌>>=◌, ◌>>◌,
}
use jiritsu.Json.{Value, str, arr, obj, Fields, get, get_or, keys, values}
use jiritsu.Proposals.Model.{
  Try, type_error, error, error_at, Action, mkdir, write, Intent, Origin, Definition,
}

unfoldable pub invalid : {A : Type 0} → String → String → Try A
invalid message name = err (error_at "proposal_invalid" message name)

-- `_string`
string_value : Option Value → String → Try String
unfolding invalid
string_value (some (str s)) name =
    if strip_is_empty s then invalid (name <> " must be a nonempty string") name else ok s
string_value o name = invalid (name <> " must be a nonempty string") name

-- `parts`: the pieces between slashes that are neither empty nor a dot.
unfoldable pub parts : List String → List String
parts [] = []
parts (p ∷ ps) = if (p == "") || (p == ".") then parts ps else p ∷ parts ps

unfoldable pub as_posix : List String → String
as_posix [] = "."
as_posix ps = join "/" ps

-- The tests of `_relative_config_path`
unfoldable pub is_relative : String → Bool
unfolding split parts as_posix
is_relative s =
    not (starts_with "/" s)
    && (not (starts_with "~" s)
        && (not (contains (parts (split 47 s)) "..") && (s == as_posix (parts (split 47 s)))))

unfoldable pub relative_config_path : Option Value → String → Try String
unfolding invalid is_relative
relative_config_path (some (str s)) name =
    if s == ""
    then invalid (name <> " must be a nonempty string") name
    else if is_relative s
    then ok s
    else invalid (name <> " must be a normalized path relative to the user config directory") name
relative_config_path o name = invalid (name <> " must be a nonempty string") name

is_octal : ℕ → Bool
is_octal c = leb 48 c && leb c 55

-- `MODE_PATTERN` and `SHA256_PATTERN`
unfoldable pub is_mode : String → Bool
unfolding is_octal
is_mode s = elim (codes s) [
  | [] ↦ false
  | c ∷ cs ↦ eqb c 48 && (eqb (length cs) 3 && all_codes is_octal cs)
]

is_hex : ℕ → Bool
is_hex c = (leb 48 c && leb c 57) || (leb 97 c && leb c 102)

unfoldable pub is_sha256 : String → Bool
unfolding is_hex
is_sha256 s = eqb (length (codes s)) 64 && all_codes is_hex (codes s)

-- `_mode`
unfoldable pub mode_value : Value → String → Try String
unfolding invalid is_mode
mode_value (str s) name =
    if is_mode s then ok s else invalid (name <> " must be a four-digit octal mode") name
mode_value v name = invalid (name <> " must be a four-digit octal mode") name

-- `value in {first, second}`: arrays and objects cannot be hashed.
unfoldable pub one_of : Option Value → String → String → Try (Option String)
one_of (some (str s)) first second = ok (if (s == first) || (s == second) then some s else none)
one_of (some (arr vs)) first second = err type_error
one_of (some (obj d)) first second = err type_error
one_of o first second = ok none

unfoldable pub or_invalid : Option String → String → String → Try String
unfolding invalid
or_invalid none message name = invalid message name
or_invalid (some s) message name = ok s

unfoldable pub reject_unknown : List String → String → String → Try (Unit {0})
unfolding invalid
reject_unknown [] kind location = ok tt
reject_unknown (u ∷ us) kind location =
    invalid ("unknown " <> (kind <> (" field: " <> u))) (location <> u)

unfoldable pub object_value : Option Value → String → String → Try Fields
unfolding invalid
object_value (some (obj d)) message name = ok d
object_value o message name = invalid message name

unfoldable pub content_value : Option Value → String → Try String
unfolding invalid
content_value (some (str s)) name = ok s
content_value o name = invalid (name <> " must be a string") name

unfoldable pub digest_value : Option Value → String → Try (Option String)
unfolding invalid is_sha256
digest_value none name = ok none
digest_value (some (str s)) name =
    if is_sha256 s
    then ok (some s)
    else invalid (name <> " must be a lowercase SHA-256 digest") name
digest_value (some v) name = invalid (name <> " must be a lowercase SHA-256 digest") name

unfoldable pub mkdir_action : Fields → String → String → Try Action
unfolding mode_value reject_unknown
mkdir_action d path location = do
  mode ← mode_value (get_or d "mode" (str "0700")) (location <> ".mode")
  reject_unknown (sorted (minus (keys d) ("type" ∷ "path" ∷ "mode" ∷ []))) "action"
      (location <> ".")
  ok (mkdir path mode)

unfoldable pub write_action : Fields → String → String → Try Action
unfolding content_value mode_value digest_value reject_unknown
write_action d path location = do
  content ← content_value (get d "content") (location <> ".content")
  mode ← mode_value (get_or d "mode" (str "0600")) (location <> ".mode")
  digest ← digest_value (get d "expected_sha256") (location <> ".expected_sha256")
  reject_unknown
      (sorted (minus (keys d) ("type" ∷ "path" ∷ "content" ∷ "mode" ∷ "expected_sha256" ∷ [])))
      "action" (location <> ".")
  ok (write path content mode digest)

-- The body of the loop over the actions: the path, and the action.
unfoldable pub parse_action : List String → Value → String → Try (String × Action)
unfolding object_value one_of or_invalid relative_config_path invalid mkdir_action write_action
parse_action seen v location = do
  d ← object_value (some v) (location <> " must be an object") location
  found ← one_of (get d "type") "config.mkdir" "config.write"
  kind ←
      or_invalid found (location <> ".type must be one of ['config.mkdir', 'config.write']")
        (location <> ".type")
  path ← relative_config_path (get d "path") (location <> ".path")
  if contains seen path
      then invalid ("duplicate action path: " <> path) (location <> ".path")
      else ok tt
  action ←
      if kind == "config.mkdir" then mkdir_action d path location else write_action d path location
  ok (path, action)

unfoldable pub parse_actions : ℕ → List String → List Value → Try (List Action)
unfolding parse_action
parse_actions n seen [] = ok []
parse_actions n seen (v ∷ vs) = do
  (path, action) ← parse_action seen v ("actions[" <> (decimal n <> "]"))
  rest ← parse_actions (n + 1) (path ∷ seen) vs
  ok (action ∷ rest)

unfoldable pub is_version : Option Value → Bool
is_version (some (str s)) = s == "1.0"
is_version o = false

unfoldable pub intent_value : Fields → Try Intent
unfolding reject_unknown string_value
intent_value d = do
  reject_unknown (sorted (minus (keys d) ("summary" ∷ "rationale" ∷ []))) "intent" "intent."
  summary ← string_value (get d "summary") "intent.summary"
  rationale ← string_value (get d "rationale") "intent.rationale"
  ok (record { summary = summary; rationale = rationale })

request_id_value : Option Value → Try (Option String)
unfolding string_value
request_id_value none = ok none
request_id_value (some v) = string_value (some v) "origin.request_id" >>= λ s. ok (some s)

unfoldable pub origin_value : Fields → Try Origin
unfolding reject_unknown one_of or_invalid string_value request_id_value
origin_value d = do
  reject_unknown (sorted (minus (keys d) ("kind" ∷ "actor" ∷ "request_id" ∷ []))) "origin" "origin."
  found ← one_of (get d "kind") "agent" "human"
  kind ← or_invalid found "origin.kind must be one of ['agent', 'human']" "origin.kind"
  actor ← string_value (get d "actor") "origin.actor"
  request_id ← request_id_value (get d "request_id")
  ok (record { kind = kind; actor = actor; request_id = request_id })

-- The array of the actions, which has 1 to 16 members.
unfoldable pub actions_array : Option Value → Try (List Value)
unfolding invalid
actions_array (some (arr vs)) =
    if null (values vs)
    then invalid "actions must contain at least one action" "actions"
    else if ltb 16 (length (values vs))
    then invalid "actions cannot contain more than 16 actions" "actions"
    else ok (values vs)
actions_array o = invalid "actions must contain at least one action" "actions"

unfoldable pub parse_fields : Fields → Try Definition
unfolding reject_unknown invalid object_value intent_value origin_value actions_array parse_actions
    is_version
parse_fields d = do
  reject_unknown (sorted (minus (keys d) ("schema_version" ∷ "intent" ∷ "origin" ∷ "actions" ∷ [])))
      "proposal" ""
  if is_version (get d "schema_version")
      then ok tt
      else invalid "schema_version must be \"1.0\"" "schema_version"
  intent_fields ← object_value (get d "intent") "intent must be an object" "intent"
  intent ← intent_value intent_fields
  origin_fields ← object_value (get d "origin") "origin must be an object" "origin"
  origin ← origin_value origin_fields
  vs ← actions_array (get d "actions")
  actions ← parse_actions 0 [] vs
  ok (record { intent = intent; origin = origin; actions = actions })

-- `parse_definition`
unfoldable pub parse_definition : Value → Try Definition
unfolding parse_fields
parse_definition (obj d) = parse_fields d
parse_definition v = err (error "proposal_invalid" "proposal root must be an object")
