-- ===== src/Broker/Policy/Load/Sound.antt =====
-- What `Policy.load` guarantees about a policy that it returns.
use jiritsu.Base.{
  ◌<>◌, ℕ, ◌+◌, String, Bool, true, false, not, ◌||◌, Option, none, some, List, [], ◌∷◌, ◌==◌, ◌≡◌,
  ◌⊎◌, inl, inr, refl, subst, arith, contains, null, any, All, Distinct, map, Result, ok, err,
  raise_if, >>=-eq-ok, raise_if-eq-ok, ok-injective, Bool-cases, eq_iff, eq_refl, ap,
}
use jiritsu.Json.{
  texts, Value, null as no_value, bool, num, str, arr, obj, no_items, Fields, get, get_or, values,
}
use jiritsu.Broker.Model.{Exception, Try, is_text, unknown_keys}
use jiritsu.Broker.Policy.{Outcome, allow, deny, require_approval, Rule, Policy}
use jiritsu.Broker.Policy.Load.{
  invalid, Metadata, Fault, not_found, unreadable, File, Paths, untrusted_owner, writable_by_others,
  check_metadata, or_raise, string_list, nonempty_text, decision_value, is_deny, reject_rule_fields,
  rule_fields, parse_rule, parse_rule_value, parse_rules, rules_value, approval_value, parse_policy,
  parse_policy_value, load, policy_fields, reject_policy_fields, is_nonempty_text,
}

-- A nonempty list of nonempty texts.
abbrev pub AreTexts : List String → Type 0
AreTexts l = (null l ≡ false) × All (λ s. (s == "") ≡ false) l

pub record IsRule (r : Rule) : Type 0 where
  pub named : (r.rule_id == "") ≡ false
  pub principals : AreTexts r.principals
  pub operations : AreTexts r.operations
  pub authorities : (r.decision ≡ deny) ⊎ (null r.authorities ≡ false)

pub record IsPolicy (p : Policy) : Type 0 where
  pub denies : p.default ≡ deny
  pub distinct : Distinct (map (λ (r : Rule). r.rule_id) p.rules)
  pub rules : All IsRule p.rules

texts-All :
    (vs : List Value)
    → any (λ v. not (is_nonempty_text v)) vs ≡ false
    → All (λ s. (s == "") ≡ false) (texts vs) × (null (texts vs) ≡ null vs)
unfolding is_nonempty_text texts
texts-All [] h = (tt, refl)
texts-All (str s ∷ vs) h = let r = texts-All vs (ground arith) in ((ground arith, r.0), refl)
texts-All (no_value ∷ vs) h = cc
texts-All (bool b ∷ vs) h = cc
texts-All (num b ∷ vs) h = cc
texts-All (arr b ∷ vs) h = cc
texts-All (obj b ∷ vs) h = cc

string_list-eq-ok :
    (v : Option Value) (name : String) (allow_empty : Bool) (l : List String)
    → string_list v name allow_empty ≡ ok l
    → All (λ s. (s == "") ≡ false) l × ((allow_empty ≡ true) ⊎ (null l ≡ false))
unfolding string_list
string_list-eq-ok (some (arr vs)) name e l h =
    elim (Bool-cases (any (λ v. not (is_nonempty_text v)) (values vs))) [
      | inl bad ↦ ground arith
      | inr good ↦ ground (arith, texts-All (values vs) good)
    ]
string_list-eq-ok none name e l h = cc
string_list-eq-ok (some no_value) name e l h = cc
string_list-eq-ok (some (bool b)) name e l h = cc
string_list-eq-ok (some (num b)) name e l h = cc
string_list-eq-ok (some (str b)) name e l h = cc
string_list-eq-ok (some (obj b)) name e l h = cc

nonempty_text-eq-ok :
    (v : Option Value) (e : Exception) (s : String) → nonempty_text v e ≡ ok s → (s == "") ≡ false
unfolding nonempty_text
nonempty_text-eq-ok (some (str t)) e s h = ground arith
nonempty_text-eq-ok none e s h = cc
nonempty_text-eq-ok (some no_value) e s h = cc
nonempty_text-eq-ok (some (bool b)) e s h = cc
nonempty_text-eq-ok (some (num b)) e s h = cc
nonempty_text-eq-ok (some (arr b)) e s h = cc
nonempty_text-eq-ok (some (obj b)) e s h = cc

is_deny-eq : (o : Outcome) → is_deny o ≡ true → o ≡ deny
is_deny-eq deny h = refl
is_deny-eq allow h = cc
is_deny-eq require_approval h = cc

some_left : {b : Bool} → (false ≡ true) ⊎ (b ≡ false) → b ≡ false
some_left (inl x) = cc
some_left (inr y) = y

built-IsRule :
    (id : String) (ps ops auths : List String) (d : Outcome) (r : Rule)
    → (id == "") ≡ false
    → All (λ s. (s == "") ≡ false) ps × ((false ≡ true) ⊎ (null ps ≡ false))
    → All (λ s. (s == "") ≡ false) ops × ((false ≡ true) ⊎ (null ops ≡ false))
    → All (λ s. (s == "") ≡ false) auths × ((is_deny d ≡ true) ⊎ (null auths ≡ false))
    → (seen : List String) → contains seen id ≡ false
    → Path
        (Try Rule)
        (ok (record {
          rule_id = id;
          principals = ps;
          operations = ops;
          decision = d;
          authorities = auths;
        }))
        (ok r)
    → IsRule r × (contains seen r.rule_id ≡ false)
built-IsRule id ps ops auths d r named hp ho ha seen fresh e =
    subst (λ (t : Rule). IsRule t × (contains seen t.rule_id ≡ false)) (ok-injective e)
      (
        record {
          named = named;
          principals = (some_left hp.1, hp.0);
          operations = (some_left ho.1, ho.0);
          authorities = elim ha.1 [ inl x ↦ inl (is_deny-eq d x) | inr y ↦ inr y ];
        },
        fresh,
      )

parse_rule-IsRule :
    (location : String) (seen : List String) (raw : Fields) (r : Rule)
    → parse_rule location seen raw ≡ ok r
    → IsRule r × (contains seen r.rule_id ≡ false)
unfolding parse_rule
parse_rule-IsRule location seen raw r h =
    let (u, hu, h1) = >>=-eq-ok (reject_rule_fields location (unknown_keys raw rule_fields)) _ h in
    let (id, hid, h2) = >>=-eq-ok (nonempty_text (get raw "id") _) _ h1 in
    let (u', hnew, h3) = >>=-eq-ok (raise_if (contains seen id) _) _ h2 in
    let (d, hd, h4) = >>=-eq-ok (decision_value (get raw "decision") _) _ h3 in
    let (ps, hps, h5) = >>=-eq-ok (string_list (get raw "principals") _ false) _ h4 in
    let (ops, hops, h6) = >>=-eq-ok (string_list (get raw "operations") _ false) _ h5 in
    let (as', has, h7) =
      >>=-eq-ok (string_list (some (get_or raw "authorities" (arr no_items))) _ (is_deny d)) _ h6 in
    built-IsRule id ps ops as' d r
      (nonempty_text-eq-ok (get raw "id") (invalid (location <> ".id must be a nonempty string")) id
        hid)
      (string_list-eq-ok _ _ false ps hps) (string_list-eq-ok _ _ false ops hops)
      (string_list-eq-ok _ _ (is_deny d) as' has) seen (raise_if-eq-ok _ _ hnew) h7

parse_rule_value-IsRule :
    (location : String) (seen : List String) (v : Value) (r : Rule)
    → parse_rule_value location seen v ≡ ok r
    → IsRule r × (contains seen r.rule_id ≡ false)
unfolding parse_rule_value
parse_rule_value-IsRule location seen (obj raw) r h = parse_rule-IsRule location seen raw r h
parse_rule_value-IsRule location seen no_value r h = cc
parse_rule_value-IsRule location seen (bool b) r h = cc
parse_rule_value-IsRule location seen (num b) r h = cc
parse_rule_value-IsRule location seen (str b) r h = cc
parse_rule_value-IsRule location seen (arr b) r h = cc

abbrev ids : List Rule → List String
ids rs = map (λ (r : Rule). r.rule_id) rs

-- Each rule is valid, the identifiers differ, and none of them was seen before.
record AreRules (seen : List String) (rs : List Rule) : Type 0 where
  each : All IsRule rs
  distinct : Distinct (ids rs)
  fresh : (a : String) → contains seen a ≡ true → contains (ids rs) a ≡ false

add_rule :
    (seen : List String) (r : Rule) (rs : List Rule)
    → IsRule r
    → contains seen r.rule_id ≡ false
    → AreRules (r.rule_id ∷ seen) rs
    → AreRules seen (r ∷ rs)
add_rule seen r rs valid new w = record {
  each = (valid, w.each);
  distinct = (w.fresh r.rule_id (rw (eq_refl r.rule_id) refl), w.distinct);
  fresh = λ a m. ground (arith, eq_iff r.rule_id a, w.fresh a);
}

parse_rules-AreRules :
    (i : ℕ) (seen : List String) (vs : List Value) (rs : List Rule)
    → parse_rules i seen vs ≡ ok rs
    → AreRules seen rs
unfolding parse_rules
parse_rules-AreRules i seen [] rs h =
    subst (AreRules seen) (ok-injective h)
      (record { each = tt; distinct = tt; fresh = λ a m. refl })
parse_rules-AreRules i seen (v ∷ vs) rs h =
    let (r', hr, h1) = >>=-eq-ok (parse_rule_value _ seen v) _ h in
    let (rs', hrs, h2) = >>=-eq-ok (parse_rules (i + 1) (r'.rule_id ∷ seen) vs) _ h1 in
    let one = parse_rule_value-IsRule _ seen v r' hr in
    let more = parse_rules-AreRules (i + 1) (r'.rule_id ∷ seen) vs rs' hrs in
    subst (AreRules seen) (ok-injective h2) (add_rule seen r' rs' one.0 one.1 more)

parse_policy-IsPolicy :
    (p : Paths) (source : String) (payload : Fields) (policy : Policy)
    → parse_policy p source payload ≡ ok policy
    → IsPolicy policy
unfolding parse_policy
parse_policy-IsPolicy p source payload policy h =
    let (u, hu, h1) = >>=-eq-ok (reject_policy_fields (unknown_keys payload policy_fields)) _ h in
    let (u1, hv, h2) =
      >>=-eq-ok (raise_if (not (is_text (get payload "schema_version") "1.0")) _) _ h1 in
    let (u2, hd, h3) = >>=-eq-ok (raise_if (not (is_text (get payload "default") "deny")) _) _ h2 in
    let (a, ha, h4) = >>=-eq-ok (approval_value (get payload "approval_directory")) _ h3 in
    let (raw, hraw, h5) = >>=-eq-ok (rules_value (get_or payload "rules" (arr no_items))) _ h4 in
    let (rs, hrs, h6) = >>=-eq-ok (parse_rules 0 [] raw) _ h5 in
    let w = parse_rules-AreRules 0 [] raw rs hrs in
    subst IsPolicy (ok-injective h6)
      (record { denies = refl; distinct = w.distinct; rules = w.each })

-- The file of a policy that was loaded: a regular file, owned by root or the user, which no one
-- else may write.
pub record IsTrusted (euid : ℕ) (m : Metadata) : Type 0 where
  pub regular : (m.is_symlink ≡ false) × (m.is_regular ≡ true)
  pub owner : untrusted_owner euid m ≡ false
  pub protected : writable_by_others m ≡ false

check_metadata-IsTrusted :
    (euid : ℕ) (source : String) (m : Metadata)
    → check_metadata euid source m ≡ ok tt
    → IsTrusted euid m
unfolding check_metadata
check_metadata-IsTrusted euid source m h =
    let (u, hr, h1) = >>=-eq-ok (raise_if (m.is_symlink || not m.is_regular) _) _ h in
    let (u1, ho, h2) = >>=-eq-ok (raise_if (untrusted_owner euid m) _) _ h1 in
    record {
      regular = (ground (arith, raise_if-eq-ok _ _ hr), ground (arith, raise_if-eq-ok _ _ hr));
      owner = raise_if-eq-ok _ _ ho;
      protected = raise_if-eq-ok _ _ h2;
    }

or_raise-eq-ok {ℓ} :
    {A : Type ℓ} (source : String) (r : Result Fault A) (a : A)
    → or_raise source r ≡ ok a
    → r ≡ ok a
unfolding or_raise
or_raise-eq-ok source (ok b) a h = ap ok (ok-injective h)
or_raise-eq-ok source (err not_found) a h = cc
or_raise-eq-ok source (err (unreadable why)) a h = cc

parse_policy_value-IsPolicy :
    (p : Paths) (source : String) (v : Value) (policy : Policy)
    → parse_policy_value p source v ≡ ok policy
    → IsPolicy policy
unfolding parse_policy_value
parse_policy_value-IsPolicy p source (obj d) policy h = parse_policy-IsPolicy p source d policy h
parse_policy_value-IsPolicy p source no_value policy h = cc
parse_policy_value-IsPolicy p source (bool b) policy h = cc
parse_policy_value-IsPolicy p source (num b) policy h = cc
parse_policy_value-IsPolicy p source (str b) policy h = cc
parse_policy_value-IsPolicy p source (arr b) policy h = cc

-- A policy that was loaded came from a trusted regular file, denies by default, its rules have
-- different identifiers, and each names principals and operations, and authorities unless it denies.
pub load_sound :
    (p : Paths) (euid : ℕ) (source : String) (file : File) (policy : Policy)
    → load p euid source file ≡ ok policy
    → IsPolicy policy × ((m : Metadata) × (file.lstat ≡ ok m) × IsTrusted euid m)
unfolding load
load_sound p euid source file policy h =
    let (m, hm, h1) = >>=-eq-ok (or_raise source file.lstat) _ h in
    let (u, hc, h2) = >>=-eq-ok (check_metadata euid source m) _ h1 in
    let (payload, hp, h3) = >>=-eq-ok (or_raise source file.content) _ h2 in
    (
      parse_policy_value-IsPolicy p source payload policy h3,
      (m, or_raise-eq-ok source file.lstat m hm, check_metadata-IsTrusted euid source m hc),
    )
