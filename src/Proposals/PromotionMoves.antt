-- ===== src/Proposals/PromotionMoves.antt =====
-- A promotion moves its proposal along the steps of its life, whatever becomes of it.
use jiritsu.Base.{
  String, Bool, true, false, not, null, if◌then◌else◌, Option, none, some, List, [], ◌∷◌, ◌≡◌, refl,
  sym, ap, subst, Result, ok, err, >>=-eq-ok,
}
use jiritsu.Json.{field, str, end}
use jiritsu.Proposals.Model.{
  proposal, os_error, type_error, key_error, approved, applying, committed, failed, rolled_back,
  Proposal, Applied, Checked, Restored, Promotion, Failure, Recovery, shared, Try, transition,
}
use jiritsu.Proposals.Store.{File, save}
use jiritsu.Proposals.Operations.{World, require_state}
use jiritsu.Proposals.Scope.{check_promotion}
use jiritsu.Proposals.Promotion.{
  all_restored, all_passed, undone_as, store_undone, finish_rollback, committed_as, unverified,
  regressed, accepted, conclude, with_checks, with_after, new_failures, after_apply, carry_out,
  prepared_as, after_prepare, started_as, start_promotion, promotion_of, promote_proposal,
}
use jiritsu.Proposals.Lifecycle.{
  Step, start, commit, restore, give_up, needs_approval, require_state-eq-ok,
}
use jiritsu.Proposals.Kept.{
  Keeps, Keeps-lift->>=, Keeps->>=, save-Keeps, load->>=-Keeps, lock-Keeps, Keeps-if,
}
use jiritsu.Proposals.Moves.{Allowed, IsAllowed-Step, save_and_return-Keeps}

rollback-Step : (good : Bool) → Step applying (if good then rolled_back else failed)
rollback-Step true = restore
rollback-Step false = give_up

check_promotion-approved :
    {Tree : Type 0} (world : World Tree) (tree : Tree) (p : Proposal)
    → check_promotion world tree p ≡ ok tt
    → p.state ≡ approved
unfolding check_promotion
check_promotion-approved world tree p h =
    let (u, e, h1) = >>=-eq-ok (require_state p (approved ∷ [])) _ h in
    require_state-eq-ok p approved e

module _ (ds : List (String × File)) {Tree : Type 0} (world : World Tree) where
  -- From the record that a promotion has begun, with the proposal in the state of being applied.
  store_undone-Keeps :
      (id actor : String) (p : Proposal) (o : Option Promotion) (done : List Applied)
      (failure : Failure) (rs : List Restored)
      → p.state ≡ applying
      → Allowed ds id p
      → Keeps (Allowed ds) (store_undone world p o actor done failure rs)
  unfolding store_undone undone_as transition
  store_undone-Keeps id actor p none done failure rs e a = λ s h. h
  store_undone-Keeps id actor p (some m) done failure rs e a =
      save_and_return-Keeps ds world id (undone_as world p m actor done failure rs) (
        IsAllowed-Step ds (if all_restored rs then rolled_back else failed)
          (if all_restored rs then "rolled_back" else "rollback_failed") actor
          (field "failure_code" (str failure.code) end)
          (subst (λ x. Step x (if all_restored rs then rolled_back else failed)) (sym e)
            (rollback-Step (all_restored rs)))
          (λ c. a.sound.has_approval (ap needs_approval e)) a)

  finish_rollback-Keeps :
      (id actor : String) (p : Proposal) (done : List Applied) (failure : Failure)
      → p.state ≡ applying
      → Allowed ds id p
      → Keeps (Allowed ds) (finish_rollback world p actor done failure)
  unfolding finish_rollback
  finish_rollback-Keeps id actor p done failure e a s =
      store_undone-Keeps id actor p p.promotion done failure (world.actions.undo s.tree done).0 e a
        _

  unverified-Keeps :
      (id actor : String) (p : Proposal) (m : Promotion) (done : List Applied)
      (checks : List Checked)
      → p.state ≡ applying
      → Allowed ds id p
      → Keeps (Allowed ds) (unverified world p m actor done checks)
  unfolding unverified with_checks
  unverified-Keeps id actor p m done checks e a =
      finish_rollback-Keeps id actor (record p { promotion = some (with_checks world checks m) })
        done _ e a

  regressed-Keeps :
      (id actor : String) (p : Proposal) (m : Promotion) (done : List Applied)
      (checks : List Checked) (found : List String)
      → p.state ≡ applying
      → Allowed ds id p
      → Keeps (Allowed ds) (regressed world p m actor done checks found)
  unfolding regressed with_checks with_after
  regressed-Keeps id actor p m done checks found e a =
      finish_rollback-Keeps id actor
        (record p { promotion = some (with_after world (with_checks world checks m)) }) done _ e a

  accepted-Keeps :
      (id actor : String) (p : Proposal) (m : Promotion) (done : List Applied)
      (checks : List Checked)
      → p.state ≡ applying
      → Allowed ds id p
      → Keeps (Allowed ds) (accepted world p m actor done checks)
  unfolding accepted committed_as transition
  accepted-Keeps id actor p m done checks e a =
      save_and_return-Keeps ds world id (committed_as world p m actor done checks) (
        IsAllowed-Step ds committed "committed" actor end
          (subst (λ x. Step x committed) (sym e) commit)
          (λ c. a.sound.has_approval (ap needs_approval e)) a)

  conclude-Keeps :
      (id actor : String) (p : Proposal) (m : Promotion) (done : List Applied)
      (checks : List Checked)
      → p.state ≡ applying
      → Allowed ds id p
      → Keeps (Allowed ds) (conclude world p m actor done checks)
  unfolding conclude
  conclude-Keeps id actor p m done checks e a =
      let found = new_failures (world.workloads false) (world.workloads true) in
      Keeps-if (Allowed ds) (not (all_passed checks)) (unverified world p m actor done checks)
        (if not (null found)
          then regressed world p m actor done checks found
          else accepted world p m actor done checks)
        (unverified-Keeps id actor p m done checks e a)
        (Keeps-if (Allowed ds) (not (null found)) (regressed world p m actor done checks found)
          (accepted world p m actor done checks)
          (regressed-Keeps id actor p m done checks found e a)
          (accepted-Keeps id actor p m done checks e a))

  after_apply-Keeps :
      (id actor : String) (p : Proposal) (m : Promotion)
      (r : Try (Result (String × List Applied) (List Applied)))
      → p.state ≡ applying
      → Allowed ds id p
      → Keeps (Allowed ds) (after_apply world p m actor r)
  unfolding after_apply
  after_apply-Keeps id actor p m (err x) e a = λ s h. h
  after_apply-Keeps id actor p m (ok (err (why, done))) e a =
      finish_rollback-Keeps id actor p done _ e a
  after_apply-Keeps id actor p m (ok (ok done)) e a =
      λ s. conclude-Keeps id actor p m done (world.actions.verify s.tree p.verification) e a s

  carry_out-Keeps :
      (id actor : String) (p : Proposal) (m : Promotion)
      → p.state ≡ applying
      → Allowed ds id p
      → Keeps (Allowed ds) (carry_out world p m actor)
  unfolding carry_out
  carry_out-Keeps id actor p m e a s =
      after_apply-Keeps id actor p m (world.actions.apply s.tree p.definition.actions).0 e a _

  after_prepare-Keeps :
      (id actor : String) (p : Proposal) (m : Promotion) (r : Try Recovery)
      → p.state ≡ applying
      → Allowed ds id p
      → Keeps (Allowed ds) (after_prepare world p m actor r)
  unfolding after_prepare prepared_as
  after_prepare-Keeps id actor p m (err (os_error why)) e a =
      finish_rollback-Keeps id actor p [] _ e a
  after_prepare-Keeps id actor p m (err (proposal x)) e a = λ s h. h
  after_prepare-Keeps id actor p m (err type_error) e a = λ s h. h
  after_prepare-Keeps id actor p m (err key_error) e a = λ s h. h
  after_prepare-Keeps id actor p m (ok r) e a =
      Keeps->>= (Allowed ds) (save world.host (prepared_as world p m r))
        (λ _. carry_out world (prepared_as world p m r) (record m { checkpoint = shared }) actor)
        (save-Keeps (Allowed ds) world.host (prepared_as world p m r)
          (subst (λ i. Allowed ds i (prepared_as world p m r)) (sym a.named) a))
        (λ _.
          carry_out-Keeps id actor (prepared_as world p m r) (record m { checkpoint = shared }) e a)

  start_promotion-Keeps :
      (id actor : String) (p : Proposal)
      → p.state ≡ approved
      → Allowed ds id p
      → Keeps (Allowed ds) (start_promotion world p actor)
  unfolding start_promotion started_as transition
  start_promotion-Keeps id actor p e a =
      let q = started_as world p actor in
      let b : Allowed ds id q =
        IsAllowed-Step ds applying "promotion_started" actor end
          (subst (λ x. Step x applying) (sym e) start)
          (λ c. a.sound.has_approval (ap needs_approval e)) a in
      Keeps->>= (Allowed ds) (save world.host q)
        (λ _. after_prepare world q (promotion_of world p actor) actor (world.prepare_recovery q))
        (save-Keeps (Allowed ds) world.host q (subst (λ i. Allowed ds i q) (sym a.named) b))
        (λ _.
          after_prepare-Keeps id actor q (promotion_of world p actor) (world.prepare_recovery q)
            refl b)

  pub promote_proposal-Keeps :
      (id actor : String) → Keeps (Allowed ds) (promote_proposal world id actor)
  unfolding promote_proposal
  promote_proposal-Keeps id actor = lock-Keeps (Allowed ds) world.host id _ (
      load->>=-Keeps (Allowed ds) world.host id _ λ p i a s.
        Keeps-lift->>= (Allowed ds) (check_promotion world s.tree p)
          (λ _. start_promotion world p actor)
          (λ u e. start_promotion-Keeps id actor p (check_promotion-approved world s.tree p e) a) s)
