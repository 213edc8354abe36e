-- ===== src/Proposals/Definitions.antt =====
-- What `parse_definition` accepts.
use jiritsu.Base.{
  decimal, eq_iff, minus, sorted, ◌<>◌, ℕ, ◌+◌, ◌≤◌, String, Bool, Bool-cases, true, false, List,
  [], ◌∷◌, ◌==◌, contains, Distinct, length, null, ◌≡◌, refl, sym, ap, ◌∙◌, subst, arith, ok,
  >>=-eq-ok, ok-injective, if◌then◌else◌, Option, none, some, inl, inr, ◌⊎◌, eq_refl, ◌||◌,
}
use jiritsu.Json.{Value, null as json_null, bool, num, str, arr, obj, Fields, get, get_or, keys}
use jiritsu.Proposals.Model.{Try, Action, mkdir, write, Definition}
use jiritsu.Proposals.Paths.{IsPathBelow, is_relative-IsPathBelow}
use jiritsu.Proposals.Validation.{
  is_relative, relative_config_path, parse_action, parse_actions, actions_array, parse_fields,
  parse_definition, mkdir_action, write_action, object_value, one_of, or_invalid, invalid,
  mode_value, reject_unknown, content_value, digest_value, intent_value, origin_value, is_version,
}

abbrev pub path_of : Action → String
path_of (mkdir path mode) = path
path_of (write path content mode digest) = path

abbrev pub paths : List Action → List String
paths [] = []
paths (a ∷ rest) = path_of a ∷ paths rest

relative_config_path-eq-ok :
    (o : Option Value) (name path : String)
    → relative_config_path o name ≡ ok path
    → is_relative path ≡ true
unfolding relative_config_path
relative_config_path-eq-ok (some (str s)) name path h = elim (Bool-cases (is_relative s)) [
  | inl b ↦ elim (Bool-cases (s == "")) [
    | inl c ↦ ground arith
    | inr c ↦ subst (λ x. is_relative x ≡ true) (ok-injective (rw (b, c) at h)) b
  ]
  | inr b ↦ ground arith
]
relative_config_path-eq-ok (some json_null) name path h = cc
relative_config_path-eq-ok (some (bool b)) name path h = cc
relative_config_path-eq-ok (some (num b)) name path h = cc
relative_config_path-eq-ok (some (arr b)) name path h = cc
relative_config_path-eq-ok (some (obj b)) name path h = cc
relative_config_path-eq-ok none name path h = cc

actions_array-eq-ok :
    (o : Option Value) (vs : List Value)
    → actions_array o ≡ ok vs
    → (null vs ≡ false) × (length vs ≤ 16)
unfolding actions_array
actions_array-eq-ok (some (arr vs)) ws h = ground arith
actions_array-eq-ok (some json_null) vs h = cc
actions_array-eq-ok (some (bool b)) vs h = cc
actions_array-eq-ok (some (num b)) vs h = cc
actions_array-eq-ok (some (str b)) vs h = cc
actions_array-eq-ok (some (obj b)) vs h = cc
actions_array-eq-ok none vs h = cc

mkdir_action-path :
    (d : Fields) (path location : String) (a : Action)
    → mkdir_action d path location ≡ ok a
    → path_of a ≡ path
unfolding mkdir_action
mkdir_action-path d path location a h =
    let (mode, h1, k1) =
      >>=-eq-ok (mode_value (get_or d "mode" (str "0700")) (location <> ".mode")) _ h in
    let (u, h2, k2) =
      >>=-eq-ok
        (reject_unknown (sorted (minus (keys d) ("type" ∷ "path" ∷ "mode" ∷ []))) "action"
          (location <> "."))
        _ k1 in
    sym (ap path_of (ok-injective k2))

write_action-path :
    (d : Fields) (path location : String) (a : Action)
    → write_action d path location ≡ ok a
    → path_of a ≡ path
unfolding write_action
write_action-path d path location a h =
    let (content, h1, k1) =
      >>=-eq-ok (content_value (get d "content") (location <> ".content")) _ h in
    let (mode, h2, k2) =
      >>=-eq-ok (mode_value (get_or d "mode" (str "0600")) (location <> ".mode")) _ k1 in
    let (digest, h3, k3) =
      >>=-eq-ok (digest_value (get d "expected_sha256") (location <> ".expected_sha256")) _ k2 in
    let (u, h4, k4) =
      >>=-eq-ok
        (reject_unknown
          (sorted (minus (keys d) ("type" ∷ "path" ∷ "content" ∷ "mode" ∷ "expected_sha256" ∷ [])))
          "action" (location <> "."))
        _ k3 in
    sym (ap path_of (ok-injective k4))

-- The parts of a result under a test.
if-eq-ok :
    {A : Type 0} (b : Bool) (x y : Try A) (a : A)
    → (if b then x else y) ≡ ok a
    → ((b ≡ true) × (x ≡ ok a)) ⊎ ((b ≡ false) × (y ≡ ok a))
if-eq-ok true x y a h = inl (refl, h)
if-eq-ok false x y a h = inr (refl, h)

record IsNew (seen : List String) (path : String) (a : Action) : Type 0 where
  same : path_of a ≡ path
  unseen : contains seen path ≡ false
  relative : is_relative path ≡ true

parse_action-IsNew :
    (seen : List String) (v : Value) (location path : String) (a : Action)
    → parse_action seen v location ≡ ok (path, a)
    → IsNew seen path a
unfolding parse_action invalid
parse_action-IsNew seen v location path a h =
    let (d, h1, k1) =
      >>=-eq-ok (object_value (some v) (location <> " must be an object") location) _ h in
    let (found, h2, k2) = >>=-eq-ok (one_of (get d "type") "config.mkdir" "config.write") _ k1 in
    let (kind, h3, k3) =
      >>=-eq-ok
        (or_invalid found (location <> ".type must be one of ['config.mkdir', 'config.write']")
          (location <> ".type"))
        _ k2 in
    let (p, h4, k4) = >>=-eq-ok (relative_config_path (get d "path") (location <> ".path")) _ k3 in
    let (u, h5, k5) =
      >>=-eq-ok
        (if contains seen p
          then invalid ("duplicate action path: " <> p) (location <> ".path")
          else ok tt)
        _ k4 in
    let (b, h6, k6) =
      >>=-eq-ok
        (if kind == "config.mkdir" then mkdir_action d p location else write_action d p location) _
        k5 in
    let e = ok-injective k6 in
    let ep = ap (λ x. x.0) e in
    let ea = ap (λ x. x.1) e in
    record {
      same =
          ap path_of (sym ea)
          ∙ (elim (if-eq-ok (kind == "config.mkdir") _ _ b h6) [
            | inl (t, m) ↦ mkdir_action-path d p location b m
            | inr (t, m) ↦ write_action-path d p location b m
          ])
          ∙ ep;
      unseen =
          subst (λ x. contains seen x ≡ false) ep
            (elim (if-eq-ok (contains seen p) _ _ u h5) [ inl (t, m) ↦ cc | inr (t, m) ↦ t ]);
      relative =
          subst (λ x. is_relative x ≡ true) ep (relative_config_path-eq-ok (get d "path") _ p h4);
    }

-- What the loop over the actions returns, after the paths that it has seen.
record AreNew (seen : List String) (vs : List Value) (actions : List Action) : Type 0 where
  counted : length actions ≡ length vs
  distinct : Distinct (paths actions)
  unseen : (x : String) → contains (paths actions) x ≡ true → contains seen x ≡ false
  relative : (x : String) → contains (paths actions) x ≡ true → is_relative x ≡ true

or-cases : (a b : Bool) → (a || b) ≡ true → (a ≡ true) ⊎ (b ≡ true)
or-cases true b h = inl refl
or-cases false b h = inr h

AreNew-item :
    (seen : List String) (v : Value) (vs : List Value) (path : String) (a : Action)
    (rest : List Action)
    → IsNew seen path a
    → AreNew (path ∷ seen) vs rest
    → AreNew seen (v ∷ vs) (a ∷ rest)
AreNew-item seen v vs path a rest n w = record {
  counted = omega (arith, w.counted);
  distinct = (
    elim (Bool-cases (contains (paths rest) (path_of a))) [
      | inl b ↦
          let u =
            subst (λ y. (path == y || contains seen y) ≡ false) n.same (w.unseen (path_of a) b) in
          ground (arith, u, eq_refl path)
      | inr b ↦ b
    ],
    w.distinct,
  );
  unseen = λ x h. elim (or-cases (path_of a == x) (contains (paths rest) x) h) [
    | inl e ↦
        subst (λ y. contains seen y ≡ false) (sym n.same ∙ (eq_iff (path_of a) x).0 e) n.unseen
    | inr e ↦ ground (arith, w.unseen x e)
  ];
  relative = λ x h. elim (or-cases (path_of a == x) (contains (paths rest) x) h) [
    | inl e ↦ subst (λ y. is_relative y ≡ true) (sym n.same ∙ (eq_iff (path_of a) x).0 e) n.relative
    | inr e ↦ w.relative x e
  ];
}

parse_actions-AreNew :
    (n : ℕ) (seen : List String) (vs : List Value) (actions : List Action)
    → parse_actions n seen vs ≡ ok actions
    → AreNew seen vs actions
unfolding parse_actions
parse_actions-AreNew n seen [] actions h =
    subst (AreNew seen []) (ok-injective h)
      (record { counted = refl; distinct = tt; unseen = λ x c. cc; relative = λ x c. cc })
parse_actions-AreNew n seen (v ∷ vs) actions h =
    let ((path, a), h1, k1) =
      >>=-eq-ok (parse_action seen v ("actions[" <> (decimal n <> "]"))) _ h in
    let (rest, h2, k2) = >>=-eq-ok (parse_actions (n + 1) (path ∷ seen) vs) _ k1 in
    subst (AreNew seen (v ∷ vs)) (ok-injective k2) (
      AreNew-item seen v vs path a rest (parse_action-IsNew seen v _ path a h1)
        (parse_actions-AreNew (n + 1) (path ∷ seen) vs rest h2))

-- Between 1 and 16 actions, no two on one path, and every path below the directory.
pub record IsDefinition (d : Definition) : Type 0 where
  pub some_actions : 1 ≤ length d.actions
  pub few_actions : length d.actions ≤ 16
  pub distinct : Distinct (paths d.actions)
  pub relative : (x : String) → contains (paths d.actions) x ≡ true → IsPathBelow x

null-length : {A : Type 0} (xs : List A) → null xs ≡ false → 1 ≤ length xs
null-length [] h = cc
null-length (x ∷ xs) h = omega arith

parse_fields-IsDefinition : (f : Fields) (d : Definition) → parse_fields f ≡ ok d → IsDefinition d
unfolding parse_fields
parse_fields-IsDefinition f d h =
    let (u, h1, k1) =
      >>=-eq-ok
        (reject_unknown
          (sorted (minus (keys f) ("schema_version" ∷ "intent" ∷ "origin" ∷ "actions" ∷ [])))
          "proposal" "")
        _ h in
    let (v, h2, k2) =
      >>=-eq-ok
        (if is_version (get f "schema_version")
          then ok tt
          else invalid "schema_version must be \"1.0\"" "schema_version")
        _ k1 in
    let (i, h3, k3) =
      >>=-eq-ok (object_value (get f "intent") "intent must be an object" "intent") _ k2 in
    let (intent, h4, k4) = >>=-eq-ok (intent_value i) _ k3 in
    let (o, h5, k5) =
      >>=-eq-ok (object_value (get f "origin") "origin must be an object" "origin") _ k4 in
    let (origin, h6, k6) = >>=-eq-ok (origin_value o) _ k5 in
    let (vs, h7, k7) = >>=-eq-ok (actions_array (get f "actions")) _ k6 in
    let (as_list, h8, k8) = >>=-eq-ok (parse_actions 0 [] vs) _ k7 in
    let size = actions_array-eq-ok (get f "actions") vs h7 in
    let w = parse_actions-AreNew 0 [] vs as_list h8 in
    let least = null-length vs size.0 in
    let most = size.1 in
    subst IsDefinition (ok-injective k8) (record {
      some_actions = omega (arith, w.counted, least);
      few_actions = omega (arith, w.counted, most);
      distinct = w.distinct;
      relative = λ x m. is_relative-IsPathBelow x (w.relative x m);
    })

-- A definition that was accepted has 1 to 16 actions, no two of them on one path. No path is absolute
-- or of a home directory, and no segment of it is empty, a dot or two dots, but for the path that is
-- one dot.
pub parse_definition-IsDefinition :
    (v : Value) (d : Definition) → parse_definition v ≡ ok d → IsDefinition d
unfolding parse_definition
parse_definition-IsDefinition (obj f) d h = parse_fields-IsDefinition f d h
parse_definition-IsDefinition json_null d h = cc
parse_definition-IsDefinition (bool b) d h = cc
parse_definition-IsDefinition (num b) d h = cc
parse_definition-IsDefinition (str b) d h = cc
parse_definition-IsDefinition (arr b) d h = cc
