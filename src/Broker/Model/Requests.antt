-- ===== src/Broker/Model/Requests.antt =====
-- What `parse_request` accepts, and that it reads back what `Request.public` writes.
use Prim.Native.Char.{code}
use jiritsu.Base.{
  ℕ, ◌≤◌, and-left, String, Bool, true, false, not, ◌&&◌, Option, none, some, List, [], ◌∷◌, ◌≡◌,
  ap, ◌∙◌, refl, arith, minus, sorted, contains, contains-minus, contains-sorted, strip_is_empty,
  ok, err, ◌>>=◌, ◌>>◌, raise_if-eq-ok, is_space,
}
use jiritsu.Base.Ident.{mixed_id, mixed_end}
use jiritsu.Json.{Value, null, bool, num, str, arr, obj, Fields, end, get, keys, get_or}
use jiritsu.Broker.Model.{
  Try, Request, public, is_text, unknown_keys, reject_unknown, identifier_value, arguments_value,
  request_fields, parse_request_dict, parse_request,
}

-- The three names follow the identifier pattern.
pub record IsRequest (r : Request) : Type 0 where
  pub request_id : mixed_id r.request_id ≡ true
  pub actor : mixed_id r.actor ≡ true
  pub operation : mixed_id r.operation ≡ true

mixed_end_range : (c : ℕ) → mixed_end c ≡ true → (48 ≤ c) × (c ≤ 122)
mixed_end_range c h = ground arith

is_space_range : (c : ℕ) → 48 ≤ c → c ≤ 122 → is_space c ≡ false
unfolding is_space
is_space_range c lo hi = ground arith

mixed_end-space : (c : ℕ) (b : Bool) → mixed_end c ≡ true → (is_space c && b) ≡ false
mixed_end-space c b h = let r = mixed_end_range c h in rw (is_space_range c r.0 r.1) refl

-- An identifier has a character that is no white space.
mixed_id-strip : (s : String) → mixed_id s ≡ true → strip_is_empty s ≡ false
unfolding mixed_id strip_is_empty
mixed_id-strip String.[] h = cc
mixed_id-strip (String.◌∷◌ c String.[]) h = mixed_end-space (code c) _ h
mixed_id-strip (String.◌∷◌ c (String.◌∷◌ d s)) h =
    mixed_end-space (code c) _ (and-left (mixed_end (code c)) _ (and-left _ _ h))

identifier_value-str :
    (name s : String) → mixed_id s ≡ true → identifier_value name (some (str s)) ≡ ok s
unfolding identifier_value
identifier_value-str name s h = rw (mixed_id-strip s h, h)

-- Parsing what `public` wrote gives the request back.
pub parse_request-public : (r : Request) → IsRequest r → parse_request (obj (public r)) ≡ ok r
unfolding parse_request public get keys minus sorted
parse_request-public r h = rw (identifier_value-str "request_id" r.request_id h.request_id) (
    rw (identifier_value-str "actor" r.actor h.actor)
      (rw (identifier_value-str "operation" r.operation h.operation) refl))

identifier_value-eq-ok :
    (name : String) (o : Option Value) (s : String)
    → identifier_value name o ≡ ok s
    → (o ≡ some (str s)) × (mixed_id s ≡ true)
unfolding identifier_value
identifier_value-eq-ok name (some (str s)) s' h = ground (arith)
identifier_value-eq-ok name (some null) s' h = cc
identifier_value-eq-ok name (some (bool b)) s' h = cc
identifier_value-eq-ok name (some (num b)) s' h = cc
identifier_value-eq-ok name (some (arr b)) s' h = cc
identifier_value-eq-ok name (some (obj b)) s' h = cc
identifier_value-eq-ok name none s' h = cc

reject_unknown-eq-ok : (us : List String) → reject_unknown us ≡ ok tt → us ≡ []
unfolding reject_unknown
reject_unknown-eq-ok [] h = refl
reject_unknown-eq-ok (x ∷ us) h = cc

arguments_value-eq-ok : (v : Value) (a : Fields) → arguments_value v ≡ ok a → v ≡ obj a
unfolding arguments_value
arguments_value-eq-ok (obj d) a h = ground arith
arguments_value-eq-ok null a h = cc
arguments_value-eq-ok (bool b) a h = cc
arguments_value-eq-ok (num b) a h = cc
arguments_value-eq-ok (str b) a h = cc
arguments_value-eq-ok (arr b) a h = cc

-- The dictionary that a request was read from.
pub record IsReadFrom (d : Fields) (r : Request) : Type 0 where
  pub known : (k : String) → contains (keys d) k ≡ true → contains request_fields k ≡ true
  pub version : is_text (get d "schema_version") "1.0" ≡ true
  pub request_id : get d "request_id" ≡ some (str r.request_id)
  pub actor : get d "actor" ≡ some (str r.actor)
  pub operation : get d "operation" ≡ some (str r.operation)
  pub arguments : get_or d "arguments" (obj end) ≡ obj r.arguments

minus_nil :
    (d : Fields) (allowed : List String)
    → unknown_keys d allowed ≡ []
    → (k : String) → contains (keys d) k ≡ true
    → contains allowed k ≡ true
minus_nil d allowed h k m =
    let e = contains-sorted (minus (keys d) allowed) k ∙ contains-minus (keys d) allowed k in
    ground (arith, ap (λ (l : List String). contains l k) h)

-- A chain of six steps that returned: each step returned, and the fields are their values.
chain-eq-ok :
    (u v : Try (Unit {0})) (i a o : Try String) (g : Try Fields) (r : Request)
    → (do
      u
      v
      request_id ← i
      actor ← a
      operation ← o
      arguments ← g
      ok (record {
        request_id = request_id;
        actor = actor;
        operation = operation;
        arguments = arguments;
      }))
      ≡ ok r
    → (u ≡ ok tt)
      × (v ≡ ok tt)
      × (i ≡ ok r.request_id)
      × (a ≡ ok r.actor)
      × (o ≡ ok r.operation)
      × (g ≡ ok r.arguments)
chain-eq-ok (ok _) (ok _) (ok i) (ok a) (ok o) (ok g) r h = ground arith
chain-eq-ok (err e) v i a o g r h = cc
chain-eq-ok (ok _) (err e) i a o g r h = cc
chain-eq-ok (ok _) (ok _) (err e) a o g r h = cc
chain-eq-ok (ok _) (ok _) (ok i) (err e) o g r h = cc
chain-eq-ok (ok _) (ok _) (ok i) (ok a) (err e) g r h = cc
chain-eq-ok (ok _) (ok _) (ok i) (ok a) (ok o) (err e) r h = cc

not-false : (b : Bool) → not b ≡ false → b ≡ true
not-false b h = ground arith

parse_request_dict_sound :
    (d : Fields) (r : Request) → parse_request_dict d ≡ ok r → IsReadFrom d r × IsRequest r
unfolding parse_request_dict
parse_request_dict_sound d r h =
    let (hu, hv, hi, ha, ho, hg) = chain-eq-ok _ _ _ _ _ _ r h in
    let i = identifier_value-eq-ok "request_id" _ _ hi in
    let a = identifier_value-eq-ok "actor" _ _ ha in
    let o = identifier_value-eq-ok "operation" _ _ ho in
    (
      record {
        known = minus_nil d request_fields (reject_unknown-eq-ok _ hu);
        version = not-false _ (raise_if-eq-ok _ _ hv);
        request_id = i.0;
        actor = a.0;
        operation = o.0;
        arguments = arguments_value-eq-ok _ _ hg;
      },
      record { request_id = i.1; actor = a.1; operation = o.1 },
    )

-- An accepted request was read from a dictionary of known fields with the supported version, its
-- three names follow the identifier pattern, and missing arguments are the empty dictionary.
pub parse_request_sound :
    (v : Value) (r : Request)
    → parse_request v ≡ ok r
    → (d : Fields) × (v ≡ obj d) × IsReadFrom d r × IsRequest r
unfolding parse_request
parse_request_sound (obj d) r h = let (f, q) = parse_request_dict_sound d r h in (d, refl, f, q)
parse_request_sound null r h = cc
parse_request_sound (bool b) r h = cc
parse_request_sound (num b) r h = cc
parse_request_sound (str b) r h = cc
parse_request_sound (arr b) r h = cc
