-- ===== src/Workload/Catalog/Selection.antt =====
-- jiritsu_workload/contracts.py: what `select_contracts` returns, and when it fails.
use jiritsu.Base.{
  String, Bool, true, Option, none, some, List, [], ◌∷◌, ◌==◌, ◌≡◌, ◌↔◌, refl, ◌∙◌, sym, ap, subst,
  arith, inl, inr, contains, contains-sorted, contains-unique, sorted, unique, null, All, is_some,
  eq_iff, eq_refl, Bool-cases, List-cases, ok, ok-injective, if◌then◌else◌,
}
use jiritsu.Workload.Model.{WorkloadContract}
use jiritsu.Workload.Catalog.{Contracts, find, ids, take_all, by_id, missing, select_contracts}
use jiritsu.Workload.Catalog.Dict.{
  contract_ids, or_else, last_named, contains-ids, take_all-ids, take_all-found, by_id-IsKeyed,
  find-by_id,
}

missing-eq :
    (cs : Contracts) (ss : List String)
    → (missing cs ss ≡ [] ↔ All (λ s. contains (ids cs) s ≡ true) ss)
unfolding missing
missing-eq cs [] = (λ h. tt, λ h. refl)
missing-eq cs (s ∷ ss) =
    let (f, g) = missing-eq cs ss in
    elim (Bool-cases (contains (ids cs) s)) [ inl q ↦ ground (arith, f, g) | inr q ↦ ground arith ]

pub or_else-none : (o : Option WorkloadContract) → or_else o none ≡ o
or_else-none none = refl
or_else-none (some w) = refl

find-last : (ws : List WorkloadContract) (id : String) → find (by_id ws []) id ≡ last_named ws id
unfolding find
find-last ws id = find-by_id ws [] id ∙ or_else-none (last_named ws id)

-- Each contract is the last one of a list with its identifier.
abbrev pub AreLast : List WorkloadContract → List WorkloadContract → Type 0
AreLast contracts = All (λ (w : WorkloadContract). last_named contracts w.contract_id ≡ some w)

pub All-map :
    {A : Type 0} (P Q : A → Type 0) (xs : List A) → ((x : A) → P x → Q x) → All P xs → All Q xs
All-map P Q [] f h = tt
All-map P Q (x ∷ xs) f (h, hs) = (f x h, All-map P Q xs f hs)

taken-AreLast :
    (contracts : List WorkloadContract) (is : List String)
    → AreLast contracts (take_all (by_id contracts []) is)
taken-AreLast contracts is =
    All-map (λ (w : WorkloadContract). find (by_id contracts []) w.contract_id ≡ some w)
      (λ (w : WorkloadContract). last_named contracts w.contract_id ≡ some w)
      (take_all (by_id contracts []) is) (λ w h. sym (find-last contracts w.contract_id) ∙ h)
      (take_all-found (by_id contracts []) is (by_id-IsKeyed contracts [] tt))

-- `All` on the members of a list of texts.
All-at :
    (p : String → Bool) (xs : List String) (x : String)
    → All (λ y. p y ≡ true) xs
    → contains xs x ≡ true
    → p x ≡ true
All-at p [] x h m = cc
All-at p (y ∷ ys) x (h, hs) m = elim (Bool-cases (y == x)) [
  | inl q ↦ ground (arith, eq_iff y x)
  | inr q ↦ ground (arith, All-at p ys x hs)
]

All-from :
    (p : String → Bool) (xs : List String)
    → ((x : String) → contains xs x ≡ true → p x ≡ true)
    → All (λ y. p y ≡ true) xs
All-from p [] f = tt
All-from p (x ∷ xs) f =
    (f x (ground (arith, eq_refl x)), All-from p xs (λ y m. f y (ground (arith, m))))

All-contains :
    (p : String → Bool) (xs ys : List String)
    → ((x : String) → contains xs x ≡ contains ys x)
    → All (λ x. p x ≡ true) ys
    → All (λ x. p x ≡ true) xs
All-contains p xs ys e h = All-from p xs (λ x m. All-at p ys x h (sym (e x) ∙ m))

unique-here :
    (cs : Contracts) (ss : List String)
    → All (λ s. contains (ids cs) s ≡ true) ss
    → All (λ s. contains (ids cs) s ≡ true) (unique ss)
unique-here cs ss h = All-contains (λ s. contains (ids cs) s) (unique ss) ss (contains-unique ss) h

pub sorted-here : (cs : Contracts) → All (λ s. contains (ids cs) s ≡ true) (sorted (ids cs))
sorted-here cs =
    All-from (λ s. contains (ids cs) s) (sorted (ids cs))
      (λ x m. sym (contains-sorted (ids cs) x) ∙ m)

here-eq :
    (contracts : List WorkloadContract) (ss : List String)
    → (All (λ s. contains (ids (by_id contracts [])) s ≡ true) ss
        ↔ All (λ s. is_some (last_named contracts s) ≡ true) ss)
here-eq contracts [] = (λ h. h, λ h. h)
here-eq contracts (s ∷ ss) =
    let (f, g) = here-eq contracts ss in
    let e = contains-ids (by_id contracts []) s ∙ ap is_some (find-last contracts s) in
    (λ (h, hs). (sym e ∙ h, f hs), λ (h, hs). (e ∙ h, g hs))

chosen-eq :
    (contracts : List WorkloadContract) (s : String) (ss : List String)
    → missing (by_id contracts []) (s ∷ ss) ≡ []
    → select_contracts contracts (s ∷ ss) ≡ ok (take_all (by_id contracts []) (unique (s ∷ ss)))
unfolding select_contracts
chosen-eq contracts s ss q = rw (select_contracts, q)

all_eq :
    (contracts : List WorkloadContract)
    → select_contracts contracts []
      ≡ ok (take_all (by_id contracts []) (sorted (ids (by_id contracts []))))
unfolding select_contracts
all_eq contracts = refl

missing_raises :
    (contracts ws : List WorkloadContract) (s : String) (ss : List String)
    → select_contracts contracts (s ∷ ss) ≡ ok ws
    → missing (by_id contracts []) (s ∷ ss) ≡ []
unfolding select_contracts
missing_raises contracts ws s ss h = elim (List-cases (missing (by_id contracts []) (s ∷ ss))) [
  | inl q ↦ q
  | inr (u, us, q) ↦ ground arith
]

-- Contracts that were selected are, without repetition, those that the selectors name, in the order
-- of their first occurrence, or all of them in the order of their identifiers where there is no
-- selector; each is the last contract given with its identifier.
pub select_contracts_sound :
    (contracts : List WorkloadContract) (selectors : List String) (ws : List WorkloadContract)
    → select_contracts contracts selectors ≡ ok ws
    → (contract_ids ws
        ≡ (if null selectors then sorted (ids (by_id contracts [])) else unique selectors))
      × AreLast contracts ws
unfolding select_contracts
select_contracts_sound contracts [] ws h =
    subst (λ ws. (contract_ids ws ≡ sorted (ids (by_id contracts []))) × AreLast contracts ws)
      (ok-injective h)
      (
        take_all-ids (by_id contracts []) (sorted (ids (by_id contracts [])))
            (by_id-IsKeyed contracts [] tt) (sorted-here (by_id contracts [])),
        taken-AreLast contracts _,
      )
select_contracts_sound contracts (s ∷ ss) ws h =
    let q = missing_raises contracts ws s ss h in
    let here = (missing-eq (by_id contracts []) (s ∷ ss)).0 q in
    subst (λ ws. (contract_ids ws ≡ unique (s ∷ ss)) × AreLast contracts ws)
      (ok-injective (sym (chosen-eq contracts s ss q) ∙ h))
      (
        take_all-ids (by_id contracts []) (unique (s ∷ ss)) (by_id-IsKeyed contracts [] tt)
            (unique-here (by_id contracts []) (s ∷ ss) here),
        taken-AreLast contracts _,
      )

-- Selecting succeeds exactly when every selector is the identifier of a contract given.
pub select_contracts_iff :
    (contracts : List WorkloadContract) (selectors : List String)
    → (((ws : List WorkloadContract) × (select_contracts contracts selectors ≡ ok ws))
        ↔ All (λ s. is_some (last_named contracts s) ≡ true) selectors)
select_contracts_iff contracts [] = (λ h. tt, λ h. (_, all_eq contracts))
select_contracts_iff contracts (s ∷ ss) =
    let (f, g) = here-eq contracts (s ∷ ss) in
    let (m, n) = missing-eq (by_id contracts []) (s ∷ ss) in
    (
      λ (ws, h). f (m (missing_raises contracts ws s ss h)),
      λ h. (_, chosen-eq contracts s ss (n (g h))),
    )
