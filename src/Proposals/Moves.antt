-- ===== src/Proposals/Moves.antt =====
-- Every operation up to the promotion moves proposals along the steps of their life, and keeps
-- their records sound.
use jiritsu.Base.{
  ℕ, ◌+◌, String, true, Option, some, List, [], ◌∷◌, ◌++◌, ◌≡◌, ◌≢◌, refl, sym, subst, ◌⊎◌, inl,
  inr,
}
use jiritsu.Json.{Fields, end}
use jiritsu.Proposals.Model.{
  State, draft, classified, approved, rejected, Event, Approval, Proposal, transition,
}
use jiritsu.Proposals.Store.{File, stored, pure, lift, lookup, save}
use jiritsu.Proposals.Operations.{
  World, require_state, inspected, classify_as, approve_as, reject_as, classify_proposal,
  approve_proposal, reject_proposal, save_and_return, inspect_and_save, config_root_present,
  classification_of,
}
use jiritsu.Proposals.Lifecycle.{
  Step, classify, approve, reject_draft, reject_classified, Reach, later, IsSound, IsSound-Step,
  needs_approval, is_granted, step_event, require_state-eq-ok, require_state-eq-ok-either,
}
use jiritsu.Proposals.Kept.{
  Keeps, Keeps-lift, Keeps-lift->>=, Keeps->>=, save-Keeps, load->>=-Keeps, lock-Keeps,
}

-- A state that was reached from that of the record that the store had.
abbrev pub Reached : List (String × File) → String → State → Type 0
Reached ds id t = (p : Proposal) × (lookup ds id ≡ some (stored p)) × Reach p.state t

-- How a record came to be in a state: from the record that the store had, or as a new draft.
abbrev pub CameFrom : List (String × File) → String → State → Type 0
CameFrom ds id t =
    Reached ds id t ⊎ (((p : Proposal) → lookup ds id ≢ some (stored p)) × (t ≡ draft))

module _ (ds : List (String × File)) where
  pub record IsAllowed (id name : String) (revision : ℕ) (state : State)
      (approval : Option Approval) (events : List Event) : Type 0 where
    pub named : name ≡ id
    pub sound : IsSound revision state approval events
    pub came : Reached ds id state

  abbrev pub Allowed : String → Proposal → Type 0
  Allowed id p = IsAllowed id p.id p.revision p.state p.approval p.history

  pub IsAllowed-Step :
      {id name : String} {revision : ℕ} {s : State} {a b : Option Approval} {es : List Event}
      (t : State) (kind actor : String) (details : Fields)
      → Step s t
      → (needs_approval t ≡ true → is_granted b ≡ true)
      → IsAllowed id name revision s a es
      → IsAllowed id name (revision + 1) t b (es ++ (step_event es s t kind actor details ∷ []))
  IsAllowed-Step t kind actor details step g w = record {
    named = w.named;
    sound = IsSound-Step t kind actor details step g w.sound;
    came = let (p, l, r) = w.came in (p, l, later r step);
  }

  module _ {Tree : Type 0} (world : World Tree) where
    pub save_and_return-Keeps :
        (id : String) (p : Proposal) → Allowed id p → Keeps Allowed (save_and_return world p)
    unfolding save_and_return
    save_and_return-Keeps id p a =
        Keeps->>= Allowed (save world.host p) (λ _. pure p)
          (save-Keeps Allowed world.host p (subst (λ i. Allowed i p) (sym a.named) a)) (λ _ s h. h)

    inspect_and_save-Keeps :
        (id actor : String) (p : Proposal)
        → p.state ≡ draft
        → Allowed id p
        → Keeps Allowed (inspect_and_save world p actor)
    unfolding inspect_and_save classify_as transition
    inspect_and_save-Keeps id actor p e a s =
        Keeps-lift->>= Allowed (inspected world s.tree p)
          (λ i. save_and_return world (classify_as world p actor i))
          (λ i g. save_and_return-Keeps id (classify_as world p actor i) (
            IsAllowed-Step classified "classified" actor end
              (subst (λ x. Step x classified) (sym e) classify) (λ c. cc) a))
          s

    pub classify_proposal-Keeps :
        (id actor : String) → Keeps Allowed (classify_proposal world id actor)
    unfolding classify_proposal
    classify_proposal-Keeps id actor = lock-Keeps Allowed world.host id _ (
        load->>=-Keeps Allowed world.host id _ λ p i a.
          Keeps-lift->>= Allowed (require_state p (draft ∷ [])) _ λ u e.
            Keeps->>= Allowed (lift (config_root_present world id))
              (λ _. inspect_and_save world p actor)
              (Keeps-lift Allowed (config_root_present world id))
              (λ _. inspect_and_save-Keeps id actor p (require_state-eq-ok p draft e) a))

    pub approve_proposal-Keeps :
        (id actor : String) (text : Option String)
        → Keeps Allowed (approve_proposal world id actor text)
    unfolding approve_proposal approve_as transition
    approve_proposal-Keeps id actor text = lock-Keeps Allowed world.host id _ (
        load->>=-Keeps Allowed world.host id _ λ p i a.
          Keeps-lift->>= Allowed (require_state p (classified ∷ [])) _ λ u e.
            Keeps-lift->>= Allowed (classification_of p.classification)
              (λ c. save_and_return world (approve_as world p actor text c))
              λ c f. save_and_return-Keeps id (approve_as world p actor text c) (
                IsAllowed-Step approved "approved" actor end
                  (subst (λ x. Step x approved) (sym (require_state-eq-ok p classified e)) approve)
                  (λ c. refl) a))

    pub reject_proposal-Keeps :
        (id actor reason : String) → Keeps Allowed (reject_proposal world id actor reason)
    unfolding reject_proposal reject_as transition
    reject_proposal-Keeps id actor reason = lock-Keeps Allowed world.host id _ (
        load->>=-Keeps Allowed world.host id _ λ p i a.
          Keeps-lift->>= Allowed (require_state p (draft ∷ classified ∷ [])) _ λ u e.
            save_and_return-Keeps id (reject_as world p actor reason) (
              IsAllowed-Step rejected "rejected" actor _
                (elim (require_state-eq-ok-either p draft classified e) [
                  | inl q ↦ subst (λ x. Step x rejected) (sym q) reject_draft
                  | inr q ↦ subst (λ x. Step x rejected) (sym q) reject_classified
                ])
                (λ c. cc) a))
