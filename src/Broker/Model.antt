-- ===== src/Broker/Model.antt =====
-- jiritsu_broker/model.py: errors and requests.
pub mod Requests
use jiritsu.Base.{
  String, ◌<>◌, Bool, false, not, Option, none, some, List, [], ◌∷◌, ◌==◌, minus, sorted,
  strip_is_empty, Result, ok, err, ◌>>=◌, ◌>>◌, raise_if,
}
use jiritsu.Base.Ident.{mixed_id}
use jiritsu.Json.{Value, str, obj, Fields, end, field, get, keys, get_or}

pub record BrokerError : Type 0 where
  pub code : String
  pub message : String
  pub at : Option String
  pub details : Option Fields

-- What a function of the broker may raise: its own errors, and some of Python's, which the handlers
-- of `BrokerError` do not catch.
pub data Exception : Type 0 where
  broker : BrokerError → Exception
  type_error overflow_error key_error value_error unicode_error : Exception

abbrev pub Try : Type 0 → Type 0
Try A = Result Exception A

-- `BrokerError(code, message)` and `BrokerError(code, message, field=name)`
abbrev pub error : String → String → Exception
error code message = broker (record { code = code; message = message; at = none; details = none })

abbrev pub error_at : String → String → String → Exception
error_at code message name =
    broker (record { code = code; message = message; at = some name; details = none })

abbrev schema_version : String
schema_version = "1.0"

pub record Request : Type 0 where
  pub request_id : String
  pub actor : String
  pub operation : String
  pub arguments : Fields

-- `Request.public`
unfoldable pub public : Request → Fields
public r = field "schema_version" (str schema_version) (
    field "request_id" (str r.request_id) (
      field "actor" (str r.actor)
        (field "operation" (str r.operation) (field "arguments" (obj r.arguments) end))))

-- `value == text`, for a value that need not be there
abbrev pub is_text : Option Value → String → Bool
is_text (some (str s)) t = s == t
is_text (some _) t = false
is_text none t = false

-- `sorted(set(d) - allowed)`, and an error that names the first of them
abbrev pub unknown_keys : Fields → List String → List String
unknown_keys d allowed = sorted (minus (keys d) allowed)

reject_unknown : List String → Try (Unit {0})
reject_unknown [] = ok tt
reject_unknown (u ∷ us) = err (error_at "invalid_request" ("unknown request field: " <> u) u)

-- The body of the loop over the three names.
identifier_value : String → Option Value → Try String
identifier_value name (some (str s)) = do
  raise_if (strip_is_empty s)
      (error_at "invalid_request" (name <> " must be a nonempty string") name)
  raise_if (not (mixed_id s))
      (error_at "invalid_request" (name <> " contains unsupported characters or is too long") name)
  ok s
identifier_value name _ =
    err (error_at "invalid_request" (name <> " must be a nonempty string") name)

arguments_value : Value → Try Fields
arguments_value (obj d) = ok d
arguments_value _ = err (error_at "invalid_request" "arguments must be an object" "arguments")

abbrev request_fields : List String
request_fields = "schema_version" ∷ "request_id" ∷ "actor" ∷ "operation" ∷ "arguments" ∷ []

parse_request_dict : Fields → Try Request
unfolding reject_unknown identifier_value arguments_value
parse_request_dict d = do
  reject_unknown (unknown_keys d request_fields)
  raise_if (not (is_text (get d "schema_version") schema_version))
      (error_at "invalid_request" "schema_version must be \"1.0\"" "schema_version")
  request_id ← identifier_value "request_id" (get d "request_id")
  actor ← identifier_value "actor" (get d "actor")
  operation ← identifier_value "operation" (get d "operation")
  arguments ← arguments_value (get_or d "arguments" (obj end))
  ok (record {
    request_id = request_id;
    actor = actor;
    operation = operation;
    arguments = arguments;
  })

unfoldable pub parse_request : Value → Try Request
unfolding parse_request_dict
parse_request (obj d) = parse_request_dict d
parse_request _ = err (error "invalid_request" "request root must be an object")

-- `BrokerError.public`
unfoldable pub public_error : BrokerError → Fields
public_error e =
    let rest : Fields = elim e.details [
      | some (field k v fs) ↦ field "details" (obj (field k v fs)) end
      | _ ↦ end
    ] in
    field "code" (str e.code) (
      field "message" (str e.message)
        (elim e.at [ some name ↦ field "field" (str name) rest | none ↦ rest ]))
