-- ===== src/Broker/Arguments.antt =====
-- The validators of jiritsu_broker/operations.py: the typed arguments of each operation.
-- A validator takes the request's dictionary and returns the dictionary that the handler reads.
pub mod Bounds
use jiritsu.Base.{
  ℕ, ◌*◌, ◌-◌, ◌^◌, String, ◌<>◌, Bool, false, not, ◌&&◌, ◌||◌, Option, none, some, List, [], ◌∷◌,
  ltb, leb, eqb, contains, length, any, unique, codes, strip_is_empty, if◌then◌else◌, ok, err,
  ◌>>=◌, ◌>>◌, raise_if,
}
use jiritsu.Base.Ident.{lower_id, selector_id}
use jiritsu.Json.{
  texts, Number, int, float, infinity, nan, Value, null as no_value, num, str, arr, obj, Items,
  no_items, item, Fields, end, field, get, get_or, values,
}
use jiritsu.Json.Numbers.{float_limit, at_most_zero}
use jiritsu.Broker.Model.{Exception, type_error, overflow_error, Try, error_at, unknown_keys}

reject_first : List String → Try (Unit {0})
reject_first [] = ok tt
reject_first (u ∷ us) =
    err (error_at "invalid_arguments" ("unknown operation argument: " <> u) ("arguments." <> u))

-- `_unknown`
unfoldable pub unknown : Fields → List String → Try (Unit {0})
unfolding reject_first
unknown arguments allowed = reject_first (unknown_keys arguments allowed)

-- `float(value)`. A large integer is rounded, which moves it across neither 0 nor 30: the model
-- keeps the integer.
unfoldable pub to_float : Number → Try Number
to_float (int minus k) = if leb float_limit k then err overflow_error else ok (float minus k 0)
to_float n = ok n

-- `result > 30`, false of a NaN
unfoldable pub above_thirty : Number → Bool
above_thirty (int minus k) = not minus && ltb 30 k
above_thirty (float minus m s) = not minus && ltb (30 * 2 ^ s) m
above_thirty (infinity minus) = not minus
above_thirty nan = false

timeout_error : Exception
timeout_error =
    error_at "invalid_arguments" "timeout_seconds must be greater than zero and at most 30"
      "arguments.timeout_seconds"

timeout_value : Value → Try Number
unfolding timeout_error
timeout_value (num n) = do
  result ← to_float n
  raise_if (at_most_zero result || above_thirty result) timeout_error
  ok result
timeout_value v =
    err
      (error_at "invalid_arguments" "timeout_seconds must be a number" "arguments.timeout_seconds")

-- `_timeout`
unfoldable pub timeout : Fields → Try Number
unfolding timeout_value
timeout arguments = timeout_value (get_or arguments "timeout_seconds" (num (float false 5 0)))

is_selector : Value → Bool
is_selector (str s) = selector_id s
is_selector v = false

selectors_error : String → Exception
selectors_error message = error_at "invalid_arguments" message "arguments.selectors"

selectors_value : Value → Try (List String)
unfolding is_selector texts selectors_error
selectors_value (arr vs) = do
  raise_if (ltb 32 (length (values vs)))
      (selectors_error "selectors must be an array with at most 32 entries")
  raise_if (any (λ v. not (is_selector v)) (values vs))
      (selectors_error "each selector must be a supported lowercase identifier")
  ok (unique (texts (values vs)))
selectors_value v = err (selectors_error "selectors must be an array with at most 32 entries")

-- `_selectors`
unfoldable pub selectors : Fields → Try (List String)
unfolding selectors_value
selectors arguments = selectors_value (get_or arguments "selectors" (arr no_items))

identifier_value : String → Option Value → Try String
identifier_value name (some (str s)) =
    if lower_id s
    then ok s
    else err (
        error_at "invalid_arguments" (name <> " must be a supported lowercase identifier")
          ("arguments." <> name))
identifier_value name v = err (
    error_at "invalid_arguments" (name <> " must be a supported lowercase identifier")
      ("arguments." <> name))

-- `_proposal_id`
unfoldable pub proposal_id : Fields → Try String
unfolding identifier_value
proposal_id arguments = identifier_value "proposal_id" (get arguments "proposal_id")

-- `_checkpoint_id`
unfoldable pub checkpoint_id : Fields → Try String
unfolding identifier_value
checkpoint_id arguments = identifier_value "checkpoint_id" (get arguments "checkpoint_id")

abbrev text_items : List String → Items
text_items [] = no_items
text_items (s ∷ ss) = item (str s) (text_items ss)

-- `_validate_state` and `_validate_workload`
unfoldable pub validate_state : Fields → Try Fields
validate_state arguments = do
  unknown arguments ("selectors" ∷ "timeout_seconds" ∷ [])
  names ← selectors arguments
  seconds ← timeout arguments
  ok (field "selectors" (arr (text_items names)) (field "timeout_seconds" (num seconds) end))

intent_value : Option Value → Try Fields
intent_value (some (obj d)) = ok d
intent_value v = err (error_at "invalid_arguments" "intent must be an object" "arguments.intent")

actions_value : Option Value → Try Items
actions_value (some (arr (item v vs))) = ok (item v vs)
actions_value v =
    err (error_at "invalid_arguments" "actions must be a nonempty array" "arguments.actions")

optional_id : Fields → Option Value → Try Fields
optional_id arguments none = ok end
optional_id arguments (some v) = do
  selected ← proposal_id arguments
  ok (field "proposal_id" (str selected) end)

-- `_validate_create`
unfoldable pub validate_create : Fields → Try Fields
unfolding intent_value actions_value optional_id
validate_create arguments = do
  unknown arguments ("intent" ∷ "actions" ∷ "proposal_id" ∷ [])
  intent ← intent_value (get arguments "intent")
  actions ← actions_value (get arguments "actions")
  selected ← optional_id arguments (get arguments "proposal_id")
  ok (field "intent" (obj intent) (field "actions" (arr actions) selected))

-- `_validate_classify` and `_validate_promote`
unfoldable pub validate_timed : Fields → Try Fields
validate_timed arguments = do
  unknown arguments ("proposal_id" ∷ "timeout_seconds" ∷ [])
  selected ← proposal_id arguments
  seconds ← timeout arguments
  ok (field "proposal_id" (str selected) (field "timeout_seconds" (num seconds) end))

note_error : Exception
note_error =
    error_at "invalid_arguments" "note must be a nonempty string with at most 500 characters"
      "arguments.note"

note_value : Option Value → Try Fields
unfolding note_error
note_value none = ok end
note_value (some no_value) = ok end
note_value (some (str s)) =
    if strip_is_empty s || ltb 500 (length (codes s))
    then err note_error
    else ok (field "note" (str s) end)
note_value (some v) = err note_error

-- `_validate_approve`
unfoldable pub validate_approve : Fields → Try Fields
unfolding note_value
validate_approve arguments = do
  unknown arguments ("proposal_id" ∷ "note" ∷ [])
  selected ← proposal_id arguments
  note ← note_value (get arguments "note")
  ok (field "proposal_id" (str selected) note)

-- `_validate_query`
unfoldable pub validate_query : Fields → Try Fields
validate_query arguments = do
  unknown arguments ("proposal_id" ∷ [])
  selected ← proposal_id arguments
  ok (field "proposal_id" (str selected) end)

abbrev pub proposal_states : List String
proposal_states =
    "draft" ∷ "classified" ∷ "approved" ∷ "applying" ∷ "committed" ∷ "rejected" ∷ "rolled_back"
    ∷ "failed" ∷ []

state_error : Exception
state_error =
    error_at "invalid_arguments"
      "state must be one of ['applying', 'approved', 'classified', 'committed', 'draft', 'failed', 'rejected', 'rolled_back']"
      "arguments.state"

-- `state not in PROPOSAL_STATES`: an array or an object cannot be hashed.
state_value : Option Value → Try Fields
unfolding state_error
state_value none = ok end
state_value (some no_value) = ok end
state_value (some (str s)) =
    if contains proposal_states s then ok (field "state" (str s) end) else err state_error
state_value (some (arr vs)) = err type_error
state_value (some (obj d)) = err type_error
state_value (some v) = err state_error

-- `_validate_list`
unfoldable pub validate_list : Fields → Try Fields
unfolding state_value
validate_list arguments = do unknown arguments ("state" ∷ []); state_value (get arguments "state")

-- `_validate_checkpoint_inspect`
unfoldable pub validate_checkpoint_inspect : Fields → Try Fields
validate_checkpoint_inspect arguments = do
  unknown arguments ("timeout_seconds" ∷ [])
  seconds ← timeout arguments
  ok (field "timeout_seconds" (num seconds) end)

-- `_validate_checkpoint_list`
unfoldable pub validate_checkpoint_list : Fields → Try Fields
validate_checkpoint_list arguments = do unknown arguments []; ok end

-- `_validate_checkpoint_query`
unfoldable pub validate_checkpoint_query : Fields → Try Fields
validate_checkpoint_query arguments = do
  unknown arguments ("checkpoint_id" ∷ [])
  selected ← checkpoint_id arguments
  ok (field "checkpoint_id" (str selected) end)
