-- ===== src/Broker/Arguments/Bounds.antt =====
-- What the validators let through: bounded time limits and bounded sets of selectors.
use jiritsu.Base.{
  ℕ, ◌*◌, ◌^◌, ◌≤◌, ◌<◌, String, Bool, true, false, not, List, [], ◌∷◌, ◌==◌, ◌≡◌, ◌↔◌, ◌⊎◌, refl,
  subst, sym, ap, ◌∙◌, arith, ltb, leb, contains, Distinct, All, length, any, contains-unique,
  unique-Distinct, length-unique, ok, raise_if, >>=-eq-ok, raise_if-eq-ok, ok-injective, Bool-cases,
  inl, inr, eq_iff,
}
use jiritsu.Base.Ident.{selector_id}
use jiritsu.Json.{
  Number, int, float, infinity, nan, Value, null as no_value, bool, num, str, arr, obj, Items,
  no_items, Fields, get_or, values, texts,
}
use jiritsu.Json.Numbers.{float_limit, at_most_zero}
use jiritsu.Broker.Arguments.{
  to_float, above_thirty, timeout_value, timeout, is_selector, selectors_value, selectors,
}

-- A number of seconds above 0 and at most 30.
abbrev pub InRange : Number → Type 0
InRange (int false k) = (0 < k) × (k ≤ 30)
InRange (float false m s) = (0 < m) × (m ≤ 30 * 2 ^ s)
InRange n = ⊥

small_int : (k : ℕ) → k ≤ 30 → leb float_limit k ≡ false
unfolding float_limit
small_int k h = ground arith

as_number : Value → Number
as_number (num n) = n
as_number v = nan

num-injective : {a b : Number} → num a ≡ num b → a ≡ b
unfolding as_number
num-injective h = ap as_number h

accepts : (k : Number) → (InRange k ⊎ (k ≡ nan)) → (n : Number) × (timeout_value (num k) ≡ ok n)
unfolding timeout_value to_float at_most_zero above_thirty
accepts (int false k) (inl h) =
    (float false k 0, rw (small_int k h.1, timeout_value) (ground arith))
accepts (int minus k) (inr e) = cc
accepts (int true k) (inl h) = absurd h
accepts (float false m s) (inl h) = (float false m s, ground arith)
accepts (float true m s) (inl h) = absurd h
accepts (float minus m s) (inr e) = cc
accepts (infinity minus) (inl h) = absurd h
accepts (infinity minus) (inr e) = cc
accepts nan h = (nan, refl)

accepted_range : (k n : Number) → timeout_value (num k) ≡ ok n → InRange k ⊎ (k ≡ nan)
unfolding timeout_value to_float at_most_zero above_thirty
accepted_range (int false k) n h = inl (ground arith, ground arith)
accepted_range (int true k) n h = ground arith
accepted_range (float false m s) n h = inl (ground arith, ground arith)
accepted_range (float true m s) n h = cc
accepted_range (infinity false) n h = cc
accepted_range (infinity true) n h = cc
accepted_range nan n h = inr refl

timeout_value_iff :
    (v : Value)
    → ((n : Number) × (timeout_value v ≡ ok n))
      ↔ ((k : Number) × (v ≡ num k) × (InRange k ⊎ (k ≡ nan)))
unfolding timeout_value
timeout_value_iff (num k) = (
  λ (n, h). (k, refl, accepted_range k n h),
  λ (k', e, h). accepts k (subst (λ (t : Number). InRange t ⊎ (t ≡ nan)) (sym (num-injective e)) h),
)
timeout_value_iff no_value = (λ (n, h). cc, λ (k, e, h). cc)
timeout_value_iff (bool b) = (λ (n, h). cc, λ (k, e, h). cc)
timeout_value_iff (str b) = (λ (n, h). cc, λ (k, e, h). cc)
timeout_value_iff (arr b) = (λ (n, h). cc, λ (k, e, h). cc)
timeout_value_iff (obj b) = (λ (n, h). cc, λ (k, e, h). cc)

-- A time limit is accepted exactly if it is missing (and is then 5.0), or a number that is in the
-- range, or a NaN, which both comparisons let through.
pub timeout_iff :
    (d : Fields)
    → ((n : Number) × (timeout d ≡ ok n)) ↔ (
        (v : Number) × (get_or d "timeout_seconds" (num (float false 5 0)) ≡ num v)
        × (InRange v ⊎ (v ≡ nan)))
unfolding timeout
timeout_iff d = timeout_value_iff (get_or d "timeout_seconds" (num (float false 5 0)))

selected_All :
    (vs : List Value)
    → any (λ v. not (is_selector v)) vs ≡ false
    → All (λ x. selector_id x ≡ true) (texts vs) × (length (texts vs) ≡ length vs)
unfolding is_selector texts
selected_All [] h = (tt, refl)
selected_All (str x ∷ vs) h =
    let r = selected_All vs (ground arith) in ((ground arith, r.0), omega (arith, r.1))
selected_All (no_value ∷ vs) h = cc
selected_All (bool b ∷ vs) h = cc
selected_All (num b ∷ vs) h = cc
selected_All (arr b ∷ vs) h = cc
selected_All (obj b ∷ vs) h = cc

All-contains :
    (p : String → Bool) (xs : List String) (a : String)
    → All (λ x. p x ≡ true) xs
    → contains xs a ≡ true
    → p a ≡ true
All-contains p [] a h m = cc
All-contains p (x ∷ xs) a h m = elim (Bool-cases (x == a)) [
  | inl e ↦ rw (← (eq_iff x a).0 e) h.0
  | inr e ↦ All-contains p xs a h.1 (ground arith)
]

value_sound :
    (v : Value) (names : List String)
    → selectors_value v ≡ ok names
    → Distinct names
      × (length names ≤ 32)
      × ((a : String) → contains names a ≡ true → selector_id a ≡ true)
      × ((vs : Items) × (v ≡ arr vs)
          × ((a : String) → contains names a ≡ contains (texts (values vs)) a))
unfolding selectors_value
value_sound (arr vs) names h =
    let (u, hl, h1) = >>=-eq-ok (raise_if (ltb 32 (length (values vs))) _) _ h in
    let (u1, ha, h2) = >>=-eq-ok (raise_if (any (λ v. not (is_selector v)) (values vs)) _) _ h1 in
    let s = selected_All (values vs) (raise_if-eq-ok _ _ ha) in
    let short = raise_if-eq-ok _ _ hl in
    subst
      (λ (t : List String).
        Distinct t
        × (length t ≤ 32)
        × ((a : String) → contains t a ≡ true → selector_id a ≡ true)
        × ((ws : Items) × (arr vs ≡ arr ws)
            × ((a : String) → contains t a ≡ contains (texts (values ws)) a)))
      (ok-injective h2)
      (
        unique-Distinct (texts (values vs)),
        ground (arith, length-unique (texts (values vs)), s.1, short),
        λ a m.
            All-contains selector_id (texts (values vs)) a s.0
              (sym (contains-unique (texts (values vs)) a) ∙ m),
        (vs, refl, λ a. contains-unique (texts (values vs)) a),
      )
value_sound no_value names h = cc
value_sound (bool b) names h = cc
value_sound (num b) names h = cc
value_sound (str b) names h = cc
value_sound (obj b) names h = cc

-- Selectors that are accepted are an array of at most 32 identifiers, each taken once.
pub selectors_sound :
    (d : Fields) (names : List String)
    → selectors d ≡ ok names
    → Distinct names
      × (length names ≤ 32)
      × ((a : String) → contains names a ≡ true → selector_id a ≡ true)
      × ((vs : Items) × (get_or d "selectors" (arr no_items) ≡ arr vs)
          × ((a : String) → contains names a ≡ contains (texts (values vs)) a))
unfolding selectors
selectors_sound d names h = value_sound (get_or d "selectors" (arr no_items)) names h
