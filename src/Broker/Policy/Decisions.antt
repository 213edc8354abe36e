-- ===== src/Broker/Policy/Decisions.antt =====
-- `Policy.evaluate` against a description of its own: the first rule that matches decides, and it
-- must grant every authority that the operation needs.
use jiritsu.Base.{
  String, true, false, Option, none, some, List, [], ◌∷◌, ◌++◌, ◌≡◌, ◌≢◌, ◌↔◌, refl, ap, ◌∙◌, sym,
  arith, minus, sorted, contains, contains-minus, contains-sorted, eq_iff, eq_refl, All, null,
  Bool-cases, Option-cases, ◌⊎◌, inl, inr,
}
use jiritsu.Broker.Policy.{
  Outcome, deny, Rule, matches, Policy, first_match, principal_of, decide_found, evaluate,
}

-- `rule` is the first of `rules` that matches.
pub record IsFirst (rules : List Rule) (principals : List String) (operation : String) (rule : Rule)
    : Type 0 where
  pub before : List Rule
  pub after : List Rule
  pub splits : rules ≡ before ++ (rule ∷ after)
  pub skipped : All (λ r. matches r principals operation ≡ false) before
  pub matching : matches rule principals operation ≡ true

abbrev pub Covers : List String → List String → Type 0
Covers granted required = All (λ a. contains granted a ≡ true) required

module _ (ps : List String) (op : String) where
  first_match-IsFirst :
      (rules : List Rule) (rule : Rule)
      → first_match rules ps op ≡ some rule
      → IsFirst rules ps op rule
  unfolding first_match
  first_match-IsFirst [] rule h = cc
  first_match-IsFirst (r ∷ rs) rule h = elim (Bool-cases (matches r ps op)) [
    | inl m ↦
        let e : r ≡ rule = ground arith in
        record { before = []; after = rs; splits = rw e; skipped = tt; matching = rw (← e) m }
    | inr m ↦
        let found = first_match-IsFirst rs rule (ground arith) in
        record {
          before = r ∷ found.before;
          after = found.after;
          splits = ap (λ (t : List Rule). r ∷ t) found.splits;
          skipped = (m, found.skipped);
          matching = found.matching;
        }
  ]

  first_match_skips :
      (before : List Rule) (rule : Rule) (after : List Rule)
      → All (λ r. matches r ps op ≡ false) before
      → matches rule ps op ≡ true
      → first_match (before ++ (rule ∷ after)) ps op ≡ some rule
  unfolding first_match
  first_match_skips [] rule after h m = rw m
  first_match_skips (b ∷ bs) rule after h m = rw (h.0) (first_match_skips bs rule after h.1 m)

  first_match-of-IsFirst :
      (rules : List Rule) (rule : Rule)
      → IsFirst rules ps op rule
      → first_match rules ps op ≡ some rule
  first_match-of-IsFirst rules rule f =
      ap (λ (l : List Rule). first_match l ps op) f.splits
      ∙ first_match_skips f.before rule f.after f.skipped f.matching

Covers-of_contains :
    (required granted : List String)
    → ((a : String) → contains required a ≡ true → contains granted a ≡ true)
    → Covers granted required
Covers-of_contains [] granted h = tt
Covers-of_contains (x ∷ xs) granted h =
    (h x (rw (eq_refl x) refl), Covers-of_contains xs granted (λ a m. h a (rw m (ground arith))))

contains-of_Covers :
    (required granted : List String) (a : String)
    → Covers granted required
    → contains required a ≡ true
    → contains granted a ≡ true
contains-of_Covers [] granted a c h = cc
contains-of_Covers (x ∷ xs) granted a c h =
    ground (arith, eq_iff x a, contains-of_Covers xs granted a c.1)

null-of_absent : (l : List String) → ((a : String) → contains l a ≡ false) → null l ≡ true
null-of_absent [] h = refl
null-of_absent (x ∷ xs) h = cc (h x, eq_refl x)

contains-null : (l : List String) (a : String) → null l ≡ true → contains l a ≡ false
contains-null [] a h = refl
contains-null (x ∷ xs) a h = cc

-- Nothing is missing exactly if the rule covers what is required.
missing_iff :
    (required granted : List String)
    → (null (sorted (minus required granted)) ≡ true) ↔ Covers granted required
missing_iff required granted = (
  λ h. Covers-of_contains required granted λ a m. ground (
    arith,
    contains-null (sorted (minus required granted)) a h,
    contains-sorted (minus required granted) a,
    contains-minus required granted a,
  ),
  λ c. null-of_absent _ λ a. ground (
    arith,
    contains-sorted (minus required granted) a,
    contains-minus required granted a,
    contains-of_Covers required granted a c,
  ),
)

-- The rule that decides in favour of an outcome: the first that matches, and it covers the
-- authorities that are required.
pub record Decides (rules : List Rule) (ps : List String) (op : String) (required : List String)
    (o : Outcome) (rule : Rule) : Type 0 where
  pub first : IsFirst rules ps op rule
  pub covers : Covers rule.authorities required
  pub decision : rule.decision ≡ o

module _ (policy : Policy) (ps : List String) (op : String) (required : List String) where
  decide_found_grants :
      (found : Option Rule) (o : Outcome)
      → o ≢ deny
      → (decide_found found deny (principal_of ps) required).outcome ≡ o
      → (rule : Rule) × (found ≡ some rule)
        × (null (sorted (minus required rule.authorities)) ≡ true)
        × (rule.decision ≡ o)
  unfolding decide_found
  decide_found_grants none o ne h = absurd (ne (sym h))
  decide_found_grants (some rule) o ne h =
      elim (Bool-cases (null (sorted (minus required rule.authorities)))) [
        | inl c ↦ (rule, refl, c, ground arith)
        | inr c ↦ absurd (ne (ground arith))
      ]

  -- Under a default of deny, the outcome is allow (or require_approval) exactly if the first rule
  -- that matches covers the required authorities and has that decision.
  pub evaluate_iff :
      (o : Outcome)
      → policy.default ≡ deny
      → o ≢ deny
      → ((evaluate policy ps op required).outcome ≡ o)
        ↔ ((rule : Rule) × Decides policy.rules ps op required o rule)
  unfolding evaluate
  evaluate_iff o d ne = (
    λ h.
        let (rule, f, c, e) =
          decide_found_grants (first_match policy.rules ps op) o ne (rw d at h) in
        (
          rule,
          record {
            first = first_match-IsFirst ps op policy.rules rule f;
            covers = (missing_iff required rule.authorities).0 c;
            decision = e;
          },
        ),
    λ (rule, w).
        rw (first_match-of-IsFirst ps op policy.rules rule w.first)
          (rw ((missing_iff required rule.authorities).1 w.covers) w.decision),
  )

  -- What a decision grants is nothing, or exactly what is required, and then the first rule that
  -- matches covers it.
  pub evaluate_granted :
      ((evaluate policy ps op required).granted_authorities ≡ [])
      ⊎ (((evaluate policy ps op required).granted_authorities ≡ required)
          × ((rule : Rule) × IsFirst policy.rules ps op rule × Covers rule.authorities required))
  unfolding evaluate
  evaluate_granted = elim (Option-cases (first_match policy.rules ps op)) [
    | inl none_found ↦ inl (rw none_found)
    | inr (rule, f) ↦ elim (Bool-cases (null (sorted (minus required rule.authorities)))) [
      | inl c ↦ inr (
        rw f (rw c),
        (
          rule,
          first_match-IsFirst ps op policy.rules rule f,
          (missing_iff required rule.authorities).0 c,
        ),
      )
      | inr c ↦ inl (rw f (rw c))
    ]
  ]
