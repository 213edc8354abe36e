-- ===== src/Workload/Contracts/Sound.antt =====
-- jiritsu_workload/contracts.py: what a contract that was read satisfies.
use jiritsu.Base.{
  ℕ, ◌+◌, String, ◌<>◌, true, false, Option, List, [], ◌∷◌, map, ◌≡◌, refl, ◌∙◌, subst, arith,
  decimal, null, contains, All, Distinct, ok, ok-injective, >>=-eq-ok, eq_iff, if◌then◌else◌,
}
use jiritsu.Base.Ident.{lower_id}
use jiritsu.Json.{Value, null as no_value, bool, num, str, arr, obj, Fields, get, get_or}
use jiritsu.Workload.Model.{invalid, Check, Capability, WorkloadContract}
use jiritsu.Workload.Checks.{require_string, require_id, choice, no_other}
use jiritsu.Workload.StatedChecks.{check_parameters}
use jiritsu.Workload.Contracts.{
  table, nonempty_array, new_id, parse_check, parse_checks, parse_capability, parse_capabilities,
  schema_matches, parse_table, parse_contract,
}
use jiritsu.Workload.Contracts.Parsed.{IsText, require_string-eq-ok, require_id-eq-ok, choice-eq-ok}
use jiritsu.Workload.Contracts.ParsedFacts.{IsParameters, check_parameters-IsParameters}

pub record IsCheck (c : Check) : Type 0 where
  pub check_id : lower_id c.check_id ≡ true
  pub description : IsText c.description
  pub parameters : IsParameters c.parameters

abbrev pub check_ids : List Check → List String
check_ids = map (λ (c : Check). c.check_id)

pub record IsCapability (c : Capability) : Type 0 where
  pub capability_id : lower_id c.capability_id ≡ true
  pub title : IsText c.title
  pub description : IsText c.description
  pub importance : contains ("critical" ∷ "useful" ∷ []) c.importance ≡ true
  pub nonempty : null c.checks ≡ false
  pub distinct : Distinct (check_ids c.checks)
  pub checks : All IsCheck c.checks

abbrev pub capability_ids : List Capability → List String
capability_ids = map (λ (c : Capability). c.capability_id)

pub record IsContract (w : WorkloadContract) : Type 0 where
  pub contract_id : lower_id w.contract_id ≡ true
  pub title : IsText w.title
  pub description : IsText w.description
  pub nonempty : null w.capabilities ≡ false
  pub distinct : Distinct (capability_ids w.capabilities)
  pub capabilities : All IsCapability w.capabilities

-- Texts that are not in a list, nor twice among themselves.
abbrev AreNew : List String → List String → Type 0
AreNew seen xs = Distinct xs × All (λ x. contains seen x ≡ false) xs

cons-AreNew :
    (x : String) (seen xs : List String)
    → contains seen x ≡ false
    → AreNew (x ∷ seen) xs
    → AreNew seen (x ∷ xs)
cons-AreNew x seen xs h (d, a) = ((absent x seen xs a, d), (h, others x seen xs a))
  where
    absent :
        (x : String) (seen xs : List String)
        → All (λ y. contains (x ∷ seen) y ≡ false) xs
        → contains xs x ≡ false
    absent x seen [] a = refl
    absent x seen (y ∷ ys) (b, bs) = ground (arith, absent x seen ys bs, eq_iff x y, eq_iff y x)

    others :
        (x : String) (seen xs : List String)
        → All (λ y. contains (x ∷ seen) y ≡ false) xs
        → All (λ y. contains seen y ≡ false) xs
    others x seen [] a = tt
    others x seen (y ∷ ys) (b, bs) = (ground arith, others x seen ys bs)

module _ (file : String) where
  new_id-eq-ok :
      (seen : List String) (d : Fields) (kind name id : String)
      → new_id file seen d kind name ≡ ok id
      → (lower_id id ≡ true) × (contains seen id ≡ false)
  unfolding new_id
  new_id-eq-ok seen d kind name id h =
      let (i, p, h1) = >>=-eq-ok (require_id file d "id") _ h in
      ground (arith, require_id-eq-ok file d "id" i p)

  parse_check-IsCheck :
      (seen : List String) (name : String) (v : Value) (c : Check)
      → parse_check file seen name v ≡ ok c
      → IsCheck c × (contains seen c.check_id ≡ false)
  unfolding parse_check
  parse_check-IsCheck seen name v c h =
      let (d, _, h1) = >>=-eq-ok (table file v "check" name) _ h in
      let (id, i, h2) = >>=-eq-ok (new_id file seen d "check" name) _ h1 in
      let (kind, _, h3) = >>=-eq-ok (choice file (get_or d "type" no_value) _ _ _) _ h2 in
      let (description, t, h4) = >>=-eq-ok (require_string file d "description") _ h3 in
      let (parameters, p, h5) = >>=-eq-ok (check_parameters file d kind) _ h4 in
      let (named, fresh) = new_id-eq-ok seen d "check" name id i in
      subst (λ (c : Check). IsCheck c × (contains seen c.check_id ≡ false)) (ok-injective h5)
        (
          record {
            check_id = named;
            description = require_string-eq-ok file d "description" description t;
            parameters = check_parameters-IsParameters file d kind parameters p;
          },
          fresh,
        )

  parse_checks-All :
      (n : ℕ) (seen : List String) (name : String) (vs : List Value) (cs : List Check)
      → parse_checks file n seen name vs ≡ ok cs
      → All IsCheck cs × AreNew seen (check_ids cs) × (null cs ≡ null vs)
  unfolding parse_checks
  parse_checks-All n seen name [] cs h =
      subst (λ (cs : List Check). All IsCheck cs × AreNew seen (check_ids cs) × (null cs ≡ true))
        (ok-injective h) (tt, (tt, tt), refl)
  parse_checks-All n seen name (v ∷ vs) cs h =
      let (c, p, h1) =
        >>=-eq-ok (parse_check file seen (name <> (".checks[" <> (decimal n <> "]"))) v) _ h in
      let (rest, q, h2) = >>=-eq-ok (parse_checks file (n + 1) (c.check_id ∷ seen) name vs) _ h1 in
      let (is, fresh) = parse_check-IsCheck seen _ v c p in
      let (all_checks, new, _) = parse_checks-All (n + 1) (c.check_id ∷ seen) name vs rest q in
      subst (λ (cs : List Check). All IsCheck cs × AreNew seen (check_ids cs) × (null cs ≡ false))
        (ok-injective h2)
        ((is, all_checks), cons-AreNew c.check_id seen (check_ids rest) fresh new, refl)

  nonempty_array-eq-ok :
      (o : Option Value) (message name : String) (vs : List Value)
      → nonempty_array file o message name ≡ ok vs
      → null vs ≡ false
  unfolding nonempty_array
  nonempty_array-eq-ok o message name vs h = ground arith

  parse_capability-IsCapability :
      (seen : List String) (name : String) (v : Value) (c : Capability)
      → parse_capability file seen name v ≡ ok c
      → IsCapability c × (contains seen c.capability_id ≡ false)
  unfolding parse_capability
  parse_capability-IsCapability seen name v c h =
      let (d, _, h1) = >>=-eq-ok (table file v "capability" name) _ h in
      let (id, i, h2) = >>=-eq-ok (new_id file seen d "capability" name) _ h1 in
      let (importance, m, h3) =
        >>=-eq-ok (choice file (get_or d "importance" no_value) ("critical" ∷ "useful" ∷ []) _ _) _
          h2 in
      let (raw, r, h4) = >>=-eq-ok (nonempty_array file (get d "checks") _ _) _ h3 in
      let (u, _, h5) = >>=-eq-ok (no_other file d _ "capability" (name <> ".")) _ h4 in
      let (checks, k, h6) = >>=-eq-ok (parse_checks file 0 [] name raw) _ h5 in
      let (title, t, h7) = >>=-eq-ok (require_string file d "title") _ h6 in
      let (description, e, h8) = >>=-eq-ok (require_string file d "description") _ h7 in
      let (named, fresh) = new_id-eq-ok seen d "capability" name id i in
      let (every, (distinct, _), size) = parse_checks-All 0 [] name raw checks k in
      subst (λ (c : Capability). IsCapability c × (contains seen c.capability_id ≡ false))
        (ok-injective h8)
        (
          record {
            capability_id = named;
            title = require_string-eq-ok file d "title" title t;
            description = require_string-eq-ok file d "description" description e;
            importance =
                choice-eq-ok file (get_or d "importance" no_value) ("critical" ∷ "useful" ∷ [])
                  "importance must be one of ['critical', 'useful']" (name <> ".importance")
                  importance m;
            nonempty =
                size
                ∙ nonempty_array-eq-ok (get d "checks") "checks must contain at least one check"
                    (name <> ".checks") raw r;
            distinct = distinct;
            checks = every;
          },
          fresh,
        )

  parse_capabilities-All :
      (n : ℕ) (seen : List String) (vs : List Value) (cs : List Capability)
      → parse_capabilities file n seen vs ≡ ok cs
      → All IsCapability cs × AreNew seen (capability_ids cs) × (null cs ≡ null vs)
  unfolding parse_capabilities
  parse_capabilities-All n seen [] cs h =
      subst
        (λ (cs : List Capability).
          All IsCapability cs × AreNew seen (capability_ids cs) × (null cs ≡ true))
        (ok-injective h) (tt, (tt, tt), refl)
  parse_capabilities-All n seen (v ∷ vs) cs h =
      let (c, p, h1) =
        >>=-eq-ok (parse_capability file seen ("capabilities[" <> (decimal n <> "]")) v) _ h in
      let (rest, q, h2) =
        >>=-eq-ok (parse_capabilities file (n + 1) (c.capability_id ∷ seen) vs) _ h1 in
      let (is, fresh) = parse_capability-IsCapability seen _ v c p in
      let (every, new, _) = parse_capabilities-All (n + 1) (c.capability_id ∷ seen) vs rest q in
      subst
        (λ (cs : List Capability).
          All IsCapability cs × AreNew seen (capability_ids cs) × (null cs ≡ false))
        (ok-injective h2)
        ((is, every), cons-AreNew c.capability_id seen (capability_ids rest) fresh new, refl)

  parse_table_sound :
      (d : Fields) (kind : String) (w : WorkloadContract)
      → parse_table file d kind ≡ ok w
      → IsContract w × (w.source ≡ file) × (w.source_kind ≡ kind)
  unfolding parse_table
  parse_table_sound d kind w h =
      let (u, _, h1) =
        >>=-eq-ok (if schema_matches file (get d "schema_version") then ok tt else invalid file _ _)
          _ h in
      let (id, i, h2) = >>=-eq-ok (require_id file d "id") _ h1 in
      let (title, t, h3) = >>=-eq-ok (require_string file d "title") _ h2 in
      let (description, e, h4) = >>=-eq-ok (require_string file d "description") _ h3 in
      let (raw, r, h5) = >>=-eq-ok (nonempty_array file (get d "capabilities") _ _) _ h4 in
      let (u', _, h6) = >>=-eq-ok (no_other file d _ "contract" "") _ h5 in
      let (capabilities, k, h7) = >>=-eq-ok (parse_capabilities file 0 [] raw) _ h6 in
      let (every, (distinct, _), size) = parse_capabilities-All 0 [] raw capabilities k in
      subst (λ (w : WorkloadContract). IsContract w × (w.source ≡ file) × (w.source_kind ≡ kind))
        (ok-injective h7)
        (
          record {
            contract_id = require_id-eq-ok file d "id" id i;
            title = require_string-eq-ok file d "title" title t;
            description = require_string-eq-ok file d "description" description e;
            nonempty =
                size
                ∙ nonempty_array-eq-ok (get d "capabilities")
                    "capabilities must contain at least one capability" "capabilities" raw r;
            distinct = distinct;
            capabilities = every;
          },
          refl,
          refl,
        )

  -- A contract that `parse_contract` returns has identifiers where they belong, texts that are not
  -- blank, at least one capability with at least one check each, no capability's and, in a
  -- capability, no check's identifier twice, an importance that is `critical` or `useful`, and
  -- parameters that fit the types of the checks; its source is the file and the kind given.
  pub parse_contract_sound :
      (v : Value) (kind : String) (w : WorkloadContract)
      → parse_contract file v kind ≡ ok w
      → IsContract w × (w.source ≡ file) × (w.source_kind ≡ kind)
  unfolding parse_contract
  parse_contract_sound (obj d) kind w h = parse_table_sound d kind w h
  parse_contract_sound no_value kind w h = cc
  parse_contract_sound (bool b) kind w h = cc
  parse_contract_sound (num b) kind w h = cc
  parse_contract_sound (str b) kind w h = cc
  parse_contract_sound (arr b) kind w h = cc
