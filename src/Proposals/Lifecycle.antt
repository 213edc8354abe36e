-- ===== src/Proposals/Lifecycle.antt =====
-- The life of a proposal as a relation on its states, and the histories that follow it.
use jiritsu.Base.{
  ℕ, ◌+◌, String, Bool, Bool-cases, true, false, ◌||◌, eqb, Option, none, some, List, [], ◌∷◌, ◌++◌,
  length, length-append, any, if◌then◌else◌, ◌≡◌, refl, sym, ap, ◌∙◌, ◌⊎◌, inl, inr, arith, ok,
}
use jiritsu.Json.{Fields, end}
use jiritsu.Proposals.Model.{
  State, draft, classified, approved, rejected, applying, committed, failed, rolled_back, Event,
  Approval, granted, Proposal, event,
}
use jiritsu.Proposals.Operations.{state_index, state_eq, require_state}

-- The steps from one state to the next.
pub data Step : State → State → Type 0 where
  classify : Step draft classified
  approve : Step classified approved
  reject_draft : Step draft rejected
  reject_classified : Step classified rejected
  start : Step approved applying
  commit : Step applying committed
  restore : Step applying rolled_back
  give_up : Step applying failed

pub data Reach : State → State → Type 0 where
  here : {s : State} → Reach s s
  later : {s t u : State} → Reach s t → Step t u → Reach s u

-- The event of a step, at the end of a history.
abbrev pub step_event : List Event → State → State → String → String → Fields → Event
step_event es s t kind actor details = event (length es + 1) kind actor (some s) (some t) details

-- A history that begins with a draft, numbers its events from 1 and follows the steps.
pub data History : List Event → State → Type 0 where
  begun : (actor : String) → History (event 1 "created" actor none (some draft) end ∷ []) draft
  extended :
      {es : List Event} {s t : State}
      → History es s
      → Step s t
      → (kind actor : String) → (details : Fields)
      → History (es ++ (step_event es s t kind actor details ∷ [])) t

-- The states after the approval.
abbrev pub needs_approval : State → Bool
needs_approval draft = false
needs_approval classified = false
needs_approval rejected = false
needs_approval s = true

abbrev pub is_granted : Option Approval → Bool
is_granted (some (granted by digest permissions _)) = true
is_granted o = false

-- A proposal's number of revisions, state, approval and history fit together.
pub record IsSound (revision : ℕ) (state : State) (approval : Option Approval) (events : List Event)
    : Type 0 where
  pub counted : revision ≡ length events
  pub history : History events state
  pub has_approval : needs_approval state ≡ true → is_granted approval ≡ true

abbrev pub IsWellFormed : Proposal → Type 0
IsWellFormed p = IsSound p.revision p.state p.approval p.history

-- The event of an approval.
abbrev pub is_approval : Event → Bool
is_approval e = elim e.to_state [ none ↦ false | some t ↦ state_eq t approved ]

any-append :
    {A : Type 0} (f : A → Bool) (xs ys : List A) → any f (xs ++ ys) ≡ (any f xs || any f ys)
any-append f [] ys = refl
any-append f (x ∷ xs) ys = ground (arith, any-append f xs ys)

any-earlier :
    {A : Type 0} (f : A → Bool) (xs ys : List A) → any f xs ≡ true → any f (xs ++ ys) ≡ true
any-earlier f xs ys h = rw (any-append f xs ys, h) refl

any-last :
    {A : Type 0} (f : A → Bool) (xs : List A) (y : A) → f y ≡ true → any f (xs ++ (y ∷ [])) ≡ true
any-last f xs y h = rw (any-append f xs (y ∷ []), h) ground arith

-- A state that was reached after the approval has its event in the history.
pub History-approved :
    {es : List Event} {s : State}
    → History es s
    → needs_approval s ≡ true
    → any is_approval es ≡ true
unfolding event
History-approved (begun actor) h = cc
History-approved (extended past classify kind actor details) h = cc
History-approved (extended {es} past approve kind actor details) h =
    any-last is_approval es (step_event es classified approved kind actor details) refl
History-approved (extended past reject_draft kind actor details) h = cc
History-approved (extended past reject_classified kind actor details) h = cc
History-approved (extended {es} past start kind actor details) h =
    any-earlier is_approval es (step_event es approved applying kind actor details ∷ [])
      (History-approved past refl)
History-approved (extended {es} past commit kind actor details) h =
    any-earlier is_approval es (step_event es applying committed kind actor details ∷ [])
      (History-approved past refl)
History-approved (extended {es} past restore kind actor details) h =
    any-earlier is_approval es (step_event es applying rolled_back kind actor details ∷ [])
      (History-approved past refl)
History-approved (extended {es} past give_up kind actor details) h =
    any-earlier is_approval es (step_event es applying failed kind actor details ∷ [])
      (History-approved past refl)

-- No step leaves the states in which a proposal ends.
abbrev pub is_terminal : State → Bool
is_terminal rejected = true
is_terminal committed = true
is_terminal failed = true
is_terminal rolled_back = true
is_terminal s = false

Step-not-terminal : {s t : State} → Step s t → is_terminal s ≡ false
Step-not-terminal classify = refl
Step-not-terminal approve = refl
Step-not-terminal reject_draft = refl
Step-not-terminal reject_classified = refl
Step-not-terminal start = refl
Step-not-terminal commit = refl
Step-not-terminal restore = refl
Step-not-terminal give_up = refl

pub Reach-terminal : {s t : State} → Reach s t → is_terminal s ≡ true → t ≡ s
Reach-terminal here h = refl
Reach-terminal (later past step) h =
    let e = Reach-terminal past h in
    let q = Step-not-terminal step in let r = ap is_terminal e in cc

-- A transition along a step keeps revision, history and approval together.
pub IsSound-Step :
    {revision : ℕ} {s : State} {a b : Option Approval} {es : List Event} (t : State)
    (kind actor : String) (details : Fields)
    → Step s t
    → (needs_approval t ≡ true → is_granted b ≡ true)
    → IsSound revision s a es
    → IsSound (revision + 1) t b (es ++ (step_event es s t kind actor details ∷ []))
IsSound-Step t kind actor details step g w = record {
  counted = ap (λ n. n + 1) w.counted ∙ sym (length-append _ _);
  history = extended w.history step kind actor details;
  has_approval = g;
}

state_of : ℕ → State
state_of n =
    if eqb n 0
    then draft
    else if eqb n 1
    then classified
    else if eqb n 2
    then approved
    else if eqb n 3
    then rejected
    else if eqb n 4
    then applying
    else if eqb n 5
    then committed
    else if eqb n 6
    then failed
    else rolled_back

state_of-state_index : (s : State) → state_of (state_index s) ≡ s
unfolding state_of
state_of-state_index draft = refl
state_of-state_index classified = refl
state_of-state_index approved = refl
state_of-state_index rejected = refl
state_of-state_index applying = refl
state_of-state_index committed = refl
state_of-state_index failed = refl
state_of-state_index rolled_back = refl

eqb-eq : (m n : ℕ) → eqb m n ≡ true → m ≡ n
eqb-eq m n h = ground arith

pub state_eq-eq : (s t : State) → state_eq s t ≡ true → s ≡ t
state_eq-eq s t h =
    sym (state_of-state_index s)
    ∙ ap state_of (eqb-eq (state_index s) (state_index t) h)
    ∙ state_of-state_index t

pub require_state-eq-ok :
    (p : Proposal) (s : State) → require_state p (s ∷ []) ≡ ok tt → p.state ≡ s
unfolding require_state
require_state-eq-ok p s h = state_eq-eq p.state s (ground arith)

pub require_state-eq-ok-either :
    (p : Proposal) (s t : State)
    → require_state p (s ∷ t ∷ []) ≡ ok tt
    → (p.state ≡ s) ⊎ (p.state ≡ t)
unfolding require_state
require_state-eq-ok-either p s t h = elim (Bool-cases (state_eq p.state s)) [
  | inl e ↦ inl (state_eq-eq p.state s e)
  | inr e ↦ inr (state_eq-eq p.state t (ground arith))
]
