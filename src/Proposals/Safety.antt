-- ===== src/Proposals/Safety.antt =====
-- What a promotion asks for before it touches the configuration's tree.
use jiritsu.Base.{
  String, Bool, true, false, not, Option, none, some, Option-cases, List, [], ◌∷◌, ◌==◌, eq_iff,
  ◌≡◌, refl, ap, ◌∙◌, ◌⊎◌, inl, inr, ok, err, >>=-eq-ok, raise_if, raise_if-eq-ok, ok-injective,
}
use jiritsu.Proposals.Model.{Try, approved, Approval, granted, refused, Classification, Proposal}
use jiritsu.Proposals.Store.{
  stored, Session, Host, Op, lift, continue, ◌>>=◌, ◌>>◌, lookup, lock, directory, unless, opened,
  load,
}
use jiritsu.Proposals.Operations.{World, Inspection, require_state, inspected, classification_of}
use jiritsu.Proposals.Scope.{approved_digest, check_promotion}
use jiritsu.Proposals.Promotion.{promote_proposal, start_promotion}
use jiritsu.Proposals.Lifecycle.{require_state-eq-ok}
use jiritsu.Proposals.Kept.{load-eq-ok}

-- The proposal is approved, its actions are those that the approval was given for, the tree is the
-- one of its classification, and every target is as it was then.
pub record IsInScope {Tree : Type 0} (world : World Tree) (tree : Tree) (p : Proposal)
    : Type 0 where
  pub classification : Classification
  pub inspection : Inspection
  pub approved_by : String
  pub permissions : List String
  pub text : Option String
  pub is_approved : p.state ≡ approved
  pub is_classified : p.classification ≡ some classification
  pub same_root : world.config_root ≡ classification.config_root
  pub is_granted :
      p.approval
      ≡ some
          (granted approved_by (world.actions.action_digest p.definition.actions) permissions text)
  pub is_inspected : inspected world tree p ≡ ok inspection
  pub same_targets : world.actions.same_targets inspection.targets classification.targets ≡ true

classification_of-eq-ok :
    (o : Option Classification) (c : Classification) → classification_of o ≡ ok c → o ≡ some c
unfolding classification_of
classification_of-eq-ok none c h = cc
classification_of-eq-ok (some x) c h = cc

approved_digest-eq-ok :
    (o : Option Approval) (d : String)
    → approved_digest o ≡ ok d
    → (by : String) × (ps : List String) × (t : Option String) × (o ≡ some (granted by d ps t))
unfolding approved_digest
approved_digest-eq-ok none d h = cc
approved_digest-eq-ok (some (refused by reason)) d h = cc
approved_digest-eq-ok (some (granted by x ps t)) d h =
    (by, ps, t, ap (λ y. some (granted by y ps t)) (ok-injective h))

not-false : (b : Bool) → not b ≡ false → b ≡ true
not-false true h = refl
not-false false h = cc

check_promotion-IsInScope :
    {Tree : Type 0} (world : World Tree) (tree : Tree) (p : Proposal)
    → check_promotion world tree p ≡ ok tt
    → IsInScope world tree p
unfolding check_promotion
check_promotion-IsInScope world tree p h =
    let (u, e1, h1) = >>=-eq-ok (require_state p (approved ∷ [])) _ h in
    let (c, e2, h2) = >>=-eq-ok (classification_of p.classification) _ h1 in
    let (v, e3, h3) = >>=-eq-ok (raise_if (not (world.config_root == c.config_root)) _) _ h2 in
    let (d, e4, h4) = >>=-eq-ok (approved_digest p.approval) _ h3 in
    let (w, e5, h5) =
      >>=-eq-ok (raise_if (not (d == world.actions.action_digest p.definition.actions)) _) _ h4 in
    let (i, e6, h6) = >>=-eq-ok (inspected world tree p) _ h5 in
    let (by, ps, t, g) = approved_digest-eq-ok p.approval d e4 in
    let same =
      (eq_iff d (world.actions.action_digest p.definition.actions)).0
        (not-false _ (raise_if-eq-ok _ _ e5)) in
    record {
      classification = c;
      inspection = i;
      approved_by = by;
      permissions = ps;
      text = t;
      is_approved = require_state-eq-ok p approved e1;
      is_classified = classification_of-eq-ok p.classification c e2;
      same_root = (eq_iff world.config_root c.config_root).0 (not-false _ (raise_if-eq-ok _ _ e3));
      is_granted = g ∙ ap (λ y. some (granted by y ps t)) same;
      is_inspected = e6;
      same_targets = not-false _ (raise_if-eq-ok _ _ h6);
    }

-- A body under the lock of a directory that has to be there runs on the session as it is.
lock-session :
    {Tree : Type 0} {A : Type 0} (host : Host) (id : String) (body : Op Tree A) (s : Session Tree)
    → ((lock host id false body s).1 ≡ s) ⊎ ((lock host id false body s).1 ≡ (body s).1)
unfolding lock directory unless opened
lock-session host id body s = elim (Option-cases host.root) [
  | inr (x, r) ↦ inl (rw (lock, r) refl)
  | inl r ↦ elim (Option-cases (lookup s.directories id)) [
    | inl q ↦ inl (rw (lock, r, directory, q) refl)
    | inr (f, q) ↦ elim (Option-cases host.lock_file) [
      | inr (y, o) ↦ inl (rw (lock, r, directory, q, o) refl)
      | inl o ↦ inr (rw (lock, r, directory, q, o) refl)
    ]
  ]
]

-- What follows a result runs if it is no error, on the session as it is.
continue-session :
    {Tree A B : Type 0} (r : Try A) (next : A → Op Tree B) (s : Session Tree)
    → ((continue r next s).1 ≡ s) ⊎ ((a : A) × (r ≡ ok a) × ((continue r next s).1 ≡ (next a s).1))
continue-session (err e) next s = inl refl
continue-session (ok a) next s = inr (a, refl, refl)

module _ {Tree : Type 0} (world : World Tree) (id actor : String) where
  checked : Proposal → Op Tree Proposal
  checked p s = (lift (check_promotion world s.tree p) >> start_promotion world p actor) s

  promote-body :
      (s : Session Tree)
      → (((load world.host id >>= checked) s).1.tree ≡ s.tree)
        ⊎ ((p : Proposal) × (lookup s.directories id ≡ some (stored p)) × IsInScope world s.tree p)
  unfolding load checked
  promote-body s = elim (continue-session (load world.host id s).0 checked s) [
    | inl same ↦ inl (ap (λ t. t.tree) same)
    | inr (p, l, e) ↦
        elim (continue-session (check_promotion world s.tree p) (λ _. start_promotion world p actor)
          s) [
            | inl same ↦ inl (ap (λ t. t.tree) (e ∙ same))
            | inr (u, c, d) ↦
                inr (
                  p,
                  (load-eq-ok world.host id s p l).0,
                  check_promotion-IsInScope world s.tree p c,
                )
          ]
  ]

  -- A promotion leaves the configuration's tree as it is, or the store has the record of a proposal
  -- that is in scope on that tree.
  pub promote_proposal-IsInScope :
      (s : Session Tree)
      → ((promote_proposal world id actor s).1.tree ≡ s.tree)
        ⊎ ((p : Proposal) × (lookup s.directories id ≡ some (stored p)) × IsInScope world s.tree p)
  unfolding promote_proposal checked
  promote_proposal-IsInScope s =
      elim (lock-session world.host id (load world.host id >>= checked) s) [
        | inl same ↦ inl (ap (λ t. t.tree) same)
        | inr body ↦ elim (promote-body s) [
          | inl same ↦ inl (ap (λ t. t.tree) body ∙ same)
          | inr found ↦ inr found
        ]
      ]
