-- ===== src/Workload/Catalog/Dict.antt =====
-- jiritsu_workload/contracts.py: dictionaries of contracts by their identifiers.
use jiritsu.Base.{
  String, true, Option, none, some, List, [], ◌∷◌, map, ◌==◌, ◌≡◌, refl, arith, inl, inr, contains,
  All, Distinct, is_some, eq_iff, ◌||◌, Bool-cases, Option-cases, if◌then◌else◌,
}
use jiritsu.Workload.Model.{WorkloadContract}
use jiritsu.Workload.Catalog.{Contracts, find, put, ids, take_all, by_id}

abbrev pub contract_ids : List WorkloadContract → List String
contract_ids = map (λ (w : WorkloadContract). w.contract_id)

abbrev pub or_else : Option WorkloadContract → Option WorkloadContract → Option WorkloadContract
or_else none o = o
or_else (some w) o = some w

-- The last contract of a list with an identifier.
abbrev pub last_named : List WorkloadContract → String → Option WorkloadContract
last_named [] id = none
last_named (w ∷ ws) id = or_else (last_named ws id) (if w.contract_id == id then some w else none)

pub or_else_assoc :
    (a b c : Option WorkloadContract) → or_else (or_else a b) c ≡ or_else a (or_else b c)
or_else_assoc none b c = refl
or_else_assoc (some a) b c = refl

pub find-put :
    (w : WorkloadContract) (cs : Contracts) (id : String)
    → find (put w cs) id ≡ or_else (if w.contract_id == id then some w else none) (find cs id)
unfolding find put
find-put w [] id = ground arith
find-put w ((i, c) ∷ cs) id = elim (Bool-cases (i == w.contract_id)) [
  | inl q ↦ ground (arith, eq_iff i w.contract_id, eq_iff i id, eq_iff w.contract_id id)
  | inr q ↦
      ground (arith, eq_iff i w.contract_id, eq_iff i id, eq_iff w.contract_id id, find-put w cs id)
]

-- A dictionary keeps each contract under its identifier.
abbrev pub IsKeyed : Contracts → Type 0
IsKeyed = All (λ (p : String × WorkloadContract). p.0 ≡ p.1.contract_id)

pub put-IsKeyed : (w : WorkloadContract) (cs : Contracts) → IsKeyed cs → IsKeyed (put w cs)
unfolding put
put-IsKeyed w [] h = (refl, tt)
put-IsKeyed w ((i, c) ∷ cs) (h, hs) = elim (Bool-cases (i == w.contract_id)) [
  | inl q ↦ ground (arith, eq_iff i w.contract_id)
  | inr q ↦ ground (arith, put-IsKeyed w cs hs)
]

pub find-IsKeyed :
    (cs : Contracts) (id : String) (w : WorkloadContract)
    → IsKeyed cs
    → find cs id ≡ some w
    → w.contract_id ≡ id
unfolding find
find-IsKeyed [] id w h e = cc
find-IsKeyed ((i, c) ∷ cs) id w (h, hs) e = ground (arith, eq_iff i id, find-IsKeyed cs id w hs)

pub contains-ids : (cs : Contracts) (id : String) → contains (ids cs) id ≡ is_some (find cs id)
unfolding find ids
contains-ids [] id = refl
contains-ids ((i, c) ∷ cs) id = ground (arith, contains-ids cs id)

contains-put :
    (w : WorkloadContract) (cs : Contracts) (x : String)
    → contains (ids (put w cs)) x ≡ (w.contract_id == x) || contains (ids cs) x
unfolding ids put
contains-put w [] x = ground (arith, eq_iff w.contract_id x, eq_iff x w.contract_id)
contains-put w ((i, c) ∷ cs) x = elim (Bool-cases (i == w.contract_id)) [
  | inl q ↦ ground (arith, eq_iff i w.contract_id, eq_iff i x, eq_iff w.contract_id x, eq_iff x i)
  | inr q ↦ ground (arith, eq_iff w.contract_id x, eq_iff x i, contains-put w cs x)
]

put-Distinct :
    (w : WorkloadContract) (cs : Contracts) → Distinct (ids cs) → Distinct (ids (put w cs))
unfolding ids put
put-Distinct w [] h = (refl, tt)
put-Distinct w ((i, c) ∷ cs) (h, hs) = elim (Bool-cases (i == w.contract_id)) [
  | inl q ↦ rw q (h, hs)
  | inr q ↦ rw q (
    ground (arith, eq_iff i w.contract_id, eq_iff w.contract_id i, contains-put w cs i),
    put-Distinct w cs hs,
  )
]

-- A dictionary has each identifier once.
abbrev pub IsDictionary : Contracts → Type 0
IsDictionary cs = IsKeyed cs × Distinct (ids cs)

pub put-IsDictionary :
    (w : WorkloadContract) (cs : Contracts) → IsDictionary cs → IsDictionary (put w cs)
put-IsDictionary w cs (k, d) = (put-IsKeyed w cs k, put-Distinct w cs d)

-- Taking contracts by identifiers that are there gives those identifiers.
pub take_all-ids :
    (cs : Contracts) (is : List String)
    → IsKeyed cs
    → All (λ i. contains (ids cs) i ≡ true) is
    → contract_ids (take_all cs is) ≡ is
unfolding take_all
take_all-ids cs [] h e = refl
take_all-ids cs (i ∷ is) h (e, es) = elim (Option-cases (find cs i)) [
  | inl q ↦ ground (arith, contains-ids cs i)
  | inr (w, q) ↦ ground (arith, find-IsKeyed cs i w h q, take_all-ids cs is h es)
]

pub by_id-IsKeyed :
    (ws : List WorkloadContract) (cs : Contracts) → IsKeyed cs → IsKeyed (by_id ws cs)
unfolding by_id
by_id-IsKeyed [] cs h = h
by_id-IsKeyed (w ∷ ws) cs h = by_id-IsKeyed ws (put w cs) (put-IsKeyed w cs h)

-- The dictionary of a list finds the last contract with an identifier.
pub find-by_id :
    (ws : List WorkloadContract) (cs : Contracts) (id : String)
    → find (by_id ws cs) id ≡ or_else (last_named ws id) (find cs id)
unfolding by_id
find-by_id [] cs id = refl
find-by_id (w ∷ ws) cs id = rw (find-by_id ws (put w cs) id, find-put w cs id, or_else_assoc)

-- Each contract that was taken is the one that its identifier finds.
pub take_all-found :
    (cs : Contracts) (is : List String)
    → IsKeyed cs
    → All (λ (w : WorkloadContract). find cs w.contract_id ≡ some w) (take_all cs is)
unfolding take_all
take_all-found cs [] h = tt
take_all-found cs (i ∷ is) h = elim (Option-cases (find cs i)) [
  | inl q ↦ ground (arith, take_all-found cs is h)
  | inr (w, q) ↦ ground (arith, find-IsKeyed cs i w h q, take_all-found cs is h)
]
