-- ===== src/Workload/State/Coverage.antt =====
-- jiritsu_workload/state.py: which facts a snapshot has.
use jiritsu.Base.{
  String, Bool, true, false, not, ◌&&◌, ◌||◌, Option, none, some, List, [], ◌∷◌, ◌≡◌, refl, ap,
  subst, arith, inl, inr, null, contains, minus, contains-minus, sorted, contains-sorted, eq_iff,
  Bool-cases, List-cases, ok, err, ok-injective,
}
use jiritsu.Json.{
  Value, null as no_value, bool, num, str, arr, obj, Fields, end, field, get, keys, values,
}
use jiritsu.Workload.Model.{Try}
use jiritsu.Workload.State.{
  Status, used, StatedSnapshot, Completed, Run, completed, file_not_found, timeout_expired,
  os_error, StatedHost, empty, valid_facts, query_result, answer, all_objects, bad_response,
  bad_schema, is_version, read_status, read_errors, read_response, read_payload, read_run, query,
  collect_stated_facts,
}

abbrev is_used : Status → Bool
is_used used = true
is_used s = false

-- A fact of the snapshot was asked for, and a used snapshot has each fact that was.
abbrev pub covers : List String → StatedSnapshot → String → Bool
covers requested s k =
    (not (contains (keys s.facts) k) || contains requested k)
    && (not (is_used s.status) || (not (contains requested k) || contains (keys s.facts) k))

module _ (requested : List String) (k : String) where
  valid_facts-requested :
      (fs : Fields)
      → (not (contains (keys (valid_facts requested fs)) k) || contains requested k) ≡ true
  unfolding valid_facts keys
  valid_facts-requested end = refl
  valid_facts-requested (field id (obj d) fs) =
      elim (Bool-cases (contains requested id && contains (keys d) "value")) [
        | inl q ↦ ground (arith, valid_facts-requested fs, eq_iff id k)
        | inr q ↦ ground (arith, valid_facts-requested fs)
      ]
  valid_facts-requested (field id no_value fs) = valid_facts-requested fs
  valid_facts-requested (field id (bool b) fs) = valid_facts-requested fs
  valid_facts-requested (field id (num b) fs) = valid_facts-requested fs
  valid_facts-requested (field id (str b) fs) = valid_facts-requested fs
  valid_facts-requested (field id (arr b) fs) = valid_facts-requested fs

  query_result-used :
      (c : Completed) (status : String) (facts : Fields)
      → (not (is_used (query_result requested c status facts))
          || (not (contains requested k) || contains (keys facts) k))
        ≡ true
  unfolding query_result
  query_result-used c status facts = elim (List-cases (minus requested (keys facts))) [
    | inl q ↦ ground (arith, ap (λ xs. contains xs k) q, contains-minus requested (keys facts) k)
    | inr (x, xs, q) ↦ ground arith
  ]

  module _ (host : StatedHost) (executable : String) where
    -- A snapshot that was returned covers what it says.
    abbrev Covers : Try StatedSnapshot → Type 0
    Covers (ok s) = covers requested s k ≡ true
    Covers (err e) = Unit

    answer-covers :
        (c : Completed) (facts : Fields) (errors : List Value) (status : String)
        → covers requested (answer requested host executable c facts errors status) k ≡ true
    unfolding answer
    answer-covers c facts errors status = ground (
      arith,
      valid_facts-requested facts,
      query_result-used c status (valid_facts requested facts),
    )

    bad_response-covers : covers requested (bad_response requested host executable) k ≡ true
    unfolding bad_response empty keys
    bad_response-covers = refl

    read_status-Covers :
        (c : Completed) (facts : Fields) (errors : List Value) (o : Option Value)
        → Covers (read_status requested host executable c facts errors o)
    unfolding read_status
    read_status-Covers c facts errors (some (str s)) =
        elim (Bool-cases (contains ("ok" ∷ "partial" ∷ "error" ∷ []) s)) [
          | inl q ↦ ground (arith, answer-covers c facts errors s)
          | inr q ↦ ground (arith, bad_response-covers)
        ]
    read_status-Covers c facts errors (some (arr vs)) = tt
    read_status-Covers c facts errors (some (obj d)) = tt
    read_status-Covers c facts errors (some no_value) = bad_response-covers
    read_status-Covers c facts errors (some (bool b)) = bad_response-covers
    read_status-Covers c facts errors (some (num b)) = bad_response-covers
    read_status-Covers c facts errors none = bad_response-covers

    read_errors-Covers :
        (c : Completed) (facts : Fields) (o status : Option Value)
        → Covers (read_errors requested host executable c facts o status)
    unfolding read_errors
    read_errors-Covers c facts (some (arr errors)) status =
        elim (Bool-cases (all_objects requested (values errors))) [
          | inl q ↦ rw q (read_status-Covers c facts (values errors) status)
          | inr q ↦ rw q bad_response-covers
        ]
    read_errors-Covers c facts (some (obj d)) status = bad_response-covers
    read_errors-Covers c facts (some no_value) status = bad_response-covers
    read_errors-Covers c facts (some (bool b)) status = bad_response-covers
    read_errors-Covers c facts (some (num b)) status = bad_response-covers
    read_errors-Covers c facts (some (str b)) status = bad_response-covers
    read_errors-Covers c facts none status = bad_response-covers

    read_response-Covers :
        (c : Completed) (o errors status : Option Value)
        → Covers (read_response requested host executable c o errors status)
    unfolding read_response
    read_response-Covers c (some (obj facts)) errors status =
        read_errors-Covers c facts errors status
    read_response-Covers c (some (arr d)) errors status = bad_response-covers
    read_response-Covers c (some no_value) errors status = bad_response-covers
    read_response-Covers c (some (bool b)) errors status = bad_response-covers
    read_response-Covers c (some (num b)) errors status = bad_response-covers
    read_response-Covers c (some (str b)) errors status = bad_response-covers
    read_response-Covers c none errors status = bad_response-covers

    bad_schema-covers : covers requested (bad_schema requested host executable) k ≡ true
    unfolding bad_schema empty keys
    bad_schema-covers = refl

    read_payload-Covers :
        (c : Completed) (o : Option Value) → Covers (read_payload requested host executable c o)
    unfolding read_payload empty keys
    read_payload-Covers c (some (obj d)) =
        elim (Bool-cases (is_version requested host (get d "schema_version"))) [
          | inl q ↦ rw q (read_response-Covers c (get d "facts") (get d "errors") (get d "status"))
          | inr q ↦ rw q bad_schema-covers
        ]
    read_payload-Covers c none = refl
    read_payload-Covers c (some (arr d)) = bad_schema-covers
    read_payload-Covers c (some no_value) = bad_schema-covers
    read_payload-Covers c (some (bool b)) = bad_schema-covers
    read_payload-Covers c (some (num b)) = bad_schema-covers
    read_payload-Covers c (some (str b)) = bad_schema-covers

    read_run-Covers : (r : Run) → Covers (read_run requested host executable r)
    unfolding read_run empty keys
    read_run-Covers (completed c) = read_payload-Covers c (host.loads c.stdout)
    read_run-Covers file_not_found = refl
    read_run-Covers timeout_expired = refl
    read_run-Covers (os_error why) = refl

  query-Covers :
      (host : StatedHost) (o : Option String) (s : StatedSnapshot)
      → query requested host o ≡ ok s
      → covers requested s k ≡ true
  unfolding query empty keys
  query-Covers host none s h = subst (λ s. covers requested s k ≡ true) (ok-injective h) refl
  query-Covers host (some executable) s h =
      subst (Covers host executable) h
        (read_run-Covers host executable (host.run executable requested))

same-covers :
    (fact_ids : List String) (s : StatedSnapshot) (k : String)
    → covers (sorted fact_ids) s k ≡ true
    → covers fact_ids s k ≡ true
same-covers fact_ids s k h =
    subst
      (λ b.
        ((not (contains (keys s.facts) k) || b)
          && (not (is_used s.status) || (not b || contains (keys s.facts) k)))
        ≡ true)
      (contains-sorted fact_ids k) h

-- A snapshot that the collection returns has only facts that were asked for, and where its status is
-- `used` it has all of them.
pub collect_stated_facts-covers :
    (host : StatedHost) (fact_ids : List String) (enabled : Bool) (s : StatedSnapshot) (k : String)
    → collect_stated_facts host fact_ids enabled ≡ ok s
    → covers fact_ids s k ≡ true
unfolding collect_stated_facts empty keys
collect_stated_facts-covers host fact_ids enabled s k h =
    elim (Bool-cases (null (sorted fact_ids))) [
      | inl q ↦ ground (arith, h)
      | inr q ↦ elim (Bool-cases enabled) [
        | inl p ↦
            same-covers fact_ids s k
              (query-Covers (sorted fact_ids) k host host.command s (ground (arith, h)))
        | inr p ↦ ground (arith, h)
      ]
    ]
