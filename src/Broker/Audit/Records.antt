-- ===== src/Broker/Audit/Records.antt =====
-- What the journal holds of one request, and what `is_complete` tells of it.
use jiritsu.Base.{
  ℕ, ◌+◌, ◌<◌, String, Bool, true, false, ◌&&◌, List, [], ◌∷◌, ◌++◌, ◌==◌, ◌≡◌, refl, arith,
  if◌then◌else◌, ok, Result-cases, inl, inr, ok-injective, List-cases,
}
use jiritsu.Broker.Audit.{
  Line, entry, not_json, not_object, Event, Journal, Files, records, select, is_complete,
  any_terminal, terminal_event,
}

-- How many terminal results the request `id` has.
abbrev pub terminal_count : String → List Line → ℕ
terminal_count id [] = 0
terminal_count id (entry i e ∷ ls) =
    (if i == id && terminal_event e then 1 else 0) + terminal_count id ls
terminal_count id (not_json why ∷ ls) = terminal_count id ls
terminal_count id (not_object ∷ ls) = terminal_count id ls

pub terminal_count-append :
    (id : String) (ls ms : List Line)
    → terminal_count id (ls ++ ms) ≡ terminal_count id ls + terminal_count id ms
terminal_count-append id [] ms = omega arith
terminal_count-append id (entry i e ∷ ls) ms = omega (arith, terminal_count-append id ls ms)
terminal_count-append id (not_json why ∷ ls) ms = terminal_count-append id ls ms
terminal_count-append id (not_object ∷ ls) ms = terminal_count-append id ls ms

-- The events that are selected tell whether there is a terminal one.
select-count :
    (n : ℕ) (id : String) (ls : List Line) (es : List Event)
    → select n id ls ≡ ok es
    → (any_terminal es ≡ false → terminal_count id ls ≡ 0)
      × (any_terminal es ≡ true → 0 < terminal_count id ls)
unfolding select
select-count n id [] es h = (λ e. refl, λ e. cc (ok-injective h))
select-count n id (not_json why ∷ ls) es h = cc
select-count n id (not_object ∷ ls) es h = cc
select-count n id (entry i e ∷ ls) es h = elim (Result-cases (select (n + 1) id ls)) [
  | inl (x, p) ↦ absurd (ground arith)
  | inr (more, p) ↦ ground (arith, select-count (n + 1) id ls more p)
]

module _ (path : String) (files : Files) where
  records_keeps : (id : String) (j : Journal) → (records path files id j).1 ≡ j
  unfolding records
  records_keeps id j = ground arith

  records-select :
      (id : String) (j : Journal) (es : List Event)
      → (records path files id j).0 ≡ ok es
      → select 1 id j.lines ≡ ok es
  unfolding records
  records-select id j es h = elim (List-cases j.lines) [
    | inl e ↦ rw e (unfold select in ground arith)
    | inr (l, ls, e) ↦ ground arith
  ]

  -- Asking changes nothing.
  pub is_complete_keeps : (id : String) (j : Journal) → (is_complete path files id j).1 ≡ j
  unfolding is_complete
  is_complete_keeps id j = ground (arith, records_keeps id j)

  is_complete-records :
      (id : String) (j : Journal) (b : Bool)
      → (is_complete path files id j).0 ≡ ok b
      → (es : List Event) × ((records path files id j).0 ≡ ok es) × (any_terminal es ≡ b)
  unfolding is_complete
  is_complete-records id j b h = elim (Result-cases (records path files id j).0) [
    | inl (x, p) ↦ absurd (ground arith)
    | inr (es, p) ↦ (es, p, ground arith)
  ]

  -- A request that is not complete has no terminal result in the journal.
  pub is_complete-eq-false :
      (id : String) (j : Journal)
      → (is_complete path files id j).0 ≡ ok false
      → terminal_count id j.lines ≡ 0
  is_complete-eq-false id j h =
      let (es, p, q) = is_complete-records id j false h in
      (select-count 1 id j.lines es (records-select id j es p)).0 q

  -- One that is complete has a terminal result.
  pub is_complete-eq-true :
      (id : String) (j : Journal)
      → (is_complete path files id j).0 ≡ ok true
      → 0 < terminal_count id j.lines
  is_complete-eq-true id j h =
      let (es, p, q) = is_complete-records id j true h in
      (select-count 1 id j.lines es (records-select id j es p)).1 q

-- Every line is a record.
abbrev pub AreEntries : List Line → Type 0
AreEntries [] = Unit
AreEntries (entry i e ∷ ls) = AreEntries ls
AreEntries (not_json why ∷ ls) = ⊥
AreEntries (not_object ∷ ls) = ⊥

pub select_answers :
    (n : ℕ) (id : String) (ls : List Line)
    → AreEntries ls
    → (es : List Event) × (select n id ls ≡ ok es)
unfolding select
select_answers n id [] h = ([], refl)
select_answers n id (entry i e ∷ ls) h =
    let (es, q) = select_answers (n + 1) id ls h in (if i == id then e ∷ es else es, rw q refl)
select_answers n id (not_json why ∷ ls) h = absurd h
select_answers n id (not_object ∷ ls) h = absurd h
