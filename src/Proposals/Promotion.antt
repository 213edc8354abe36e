-- ===== src/Proposals/Promotion.antt =====
-- jiritsu_proposals/operations.py: `promote_proposal`, from its record that a promotion has
-- begun to the commit of the actions, or to their rollback.
use jiritsu.Base.{
  String, Bool, true, false, not, ◌&&◌, Option, none, some, List, [], ◌==◌, all, null, minus,
  sorted, if◌then◌else◌, Result, ok, err,
}
use jiritsu.Json.{str, end, field}
use jiritsu.Proposals.Model.{
  os_error, type_error, Try, applying, committed, failed, rolled_back, Outcome, pass, Checked,
  Applied, Restored, Workloads, Recovery, copied, shared, Failure, Promotion, Proposal, transition,
}
use jiritsu.Proposals.Store.{Op, raise, lift, ◌>>=◌, ◌>>◌, lock, load, save}
use jiritsu.Proposals.Scope.{check_promotion}
use jiritsu.Proposals.Operations.{save_and_return, World}

abbrev pub all_restored : List Restored → Bool
all_restored rs = all (λ r. r.restored) rs

is_pass : Outcome → Bool
is_pass pass = true
is_pass o = false

unfoldable pub all_passed : List Checked → Bool
unfolding is_pass
all_passed cs = all (λ c. is_pass c.outcome) cs

-- The critical failures that only the second report has, if both are the workload module's.
unfoldable pub new_failures : Workloads → Workloads → List String
new_failures before after =
    if (before.selected_provider == "jiritsu-workload")
      && (after.selected_provider == "jiritsu-workload")
    then sorted (minus after.critical_failures before.critical_failures)
    else []

failure_of : String → String → Failure
failure_of code message = record { code = code; message = message; new_critical_failures = [] }

-- `proposal["recovery"]["status"] = status`
with_status : String → Recovery → Recovery
with_status status r = record r { status = status }

module _ {Tree : Type 0} (world : World Tree) where
  -- The proposal after its rollback.
  unfoldable pub undone_as :
      Proposal → Promotion → String → List Applied → Failure → List Restored → Proposal
  unfolding transition with_status
  undone_as p promotion actor applied failure rollback =
      let good = all_restored rollback in
      transition
        (record p {
          promotion = some (record promotion {
            status = if good then "rolled_back" else "failed";
            failure = some failure;
            applied_actions = some applied;
            rollback = some rollback;
          });
          recovery = with_status (if good then "restored" else "failed") p.recovery;
        })
        (if good then rolled_back else failed) (if good then "rolled_back" else "rollback_failed")
        actor (field "failure_code" (str failure.code) end)

  unfoldable pub store_undone :
      Proposal
      → Option Promotion
      → String
      → List Applied
      → Failure
      → List Restored
      → Op Tree Proposal
  unfolding undone_as save_and_return
  store_undone p none actor applied failure rollback = raise type_error
  store_undone p (some promotion) actor applied failure rollback =
      save_and_return world (undone_as p promotion actor applied failure rollback)

  unfoldable pub finish_rollback : Proposal → String → List Applied → Failure → Op Tree Proposal
  unfolding store_undone
  finish_rollback p actor applied failure s =
      let (rollback, tree) = world.actions.undo s.tree applied in
      store_undone p p.promotion actor applied failure rollback (record s { tree = tree })

  -- `proposal["promotion"].update(...)` before a rollback
  unfoldable pub with_checks : List Checked → Promotion → Promotion
  with_checks checks promotion = record promotion { verification = some checks }

  unfoldable pub with_after : Promotion → Promotion
  with_after promotion = record promotion {
    machine_state_after = some (world.machine_state true);
    workloads_after = some (world.workloads true);
  }

  -- The proposal after its commit.
  unfoldable pub committed_as :
      Proposal → Promotion → String → List Applied → List Checked → Proposal
  unfolding transition with_status with_checks with_after
  committed_as p promotion actor applied checks =
      transition
        (record p {
          promotion = some (record (with_after (with_checks checks promotion)) {
            status = "committed";
            applied_actions = some applied;
          });
          recovery = with_status "available" p.recovery;
        })
        committed "committed" actor end

  -- The three ends of a promotion whose actions were all applied: a check failed, a workload
  -- fails that did not before, or the commit.
  unfoldable pub unverified :
      Proposal → Promotion → String → List Applied → List Checked → Op Tree Proposal
  unfolding failure_of with_checks finish_rollback
  unverified p promotion actor applied checks =
      finish_rollback (record p { promotion = some (with_checks checks promotion) }) actor applied
        (failure_of "verification_failed" "one or more deterministic verification checks failed")

  unfoldable pub regressed :
      Proposal → Promotion → String → List Applied → List Checked → List String → Op Tree Proposal
  unfolding failure_of with_checks with_after finish_rollback
  regressed p promotion actor applied checks found =
      finish_rollback (record p { promotion = some (with_after (with_checks checks promotion)) })
        actor applied
        (record (failure_of "workload_regression"
          "promotion introduced a critical workload failure") { new_critical_failures = found })

  unfoldable pub accepted :
      Proposal → Promotion → String → List Applied → List Checked → Op Tree Proposal
  unfolding committed_as save_and_return
  accepted p promotion actor applied checks =
      save_and_return world (committed_as p promotion actor applied checks)

  unfoldable pub conclude :
      Proposal → Promotion → String → List Applied → List Checked → Op Tree Proposal
  unfolding unverified regressed accepted
  conclude p promotion actor applied checks =
      let found = new_failures (world.workloads false) (world.workloads true) in
      if not (all_passed checks)
      then unverified p promotion actor applied checks
      else if not (null found)
      then regressed p promotion actor applied checks found
      else accepted p promotion actor applied checks

  unfoldable pub after_apply :
      Proposal
      → Promotion
      → String
      → Try (Result (String × List Applied) (List Applied))
      → Op Tree Proposal
  unfolding failure_of finish_rollback conclude
  after_apply p promotion actor (err e) = raise e
  after_apply p promotion actor (ok (err (why, applied))) =
      finish_rollback p actor applied (failure_of "action_failed" why)
  after_apply p promotion actor (ok (ok applied)) =
      λ s. conclude p promotion actor applied (world.actions.verify s.tree p.verification) s

  -- `apply_actions`, on the tree of the session
  unfoldable pub carry_out : Proposal → Promotion → String → Op Tree Proposal
  unfolding after_apply
  carry_out p promotion actor s =
      let (r, tree) = world.actions.apply s.tree p.definition.actions in
      after_apply p promotion actor r (record s { tree = tree })

  -- The proposal whose recovery was prepared. The checkpoint is that object from now on.
  unfoldable pub prepared_as : Proposal → Promotion → Recovery → Proposal
  prepared_as p promotion r = record p {
    promotion = some (record promotion { checkpoint = shared });
    recovery = r;
  }

  unfoldable pub after_prepare : Proposal → Promotion → String → Try Recovery → Op Tree Proposal
  unfolding failure_of finish_rollback prepared_as carry_out
  after_prepare p promotion actor (err (os_error why)) =
      finish_rollback p actor [] (failure_of "recovery_preparation_failed" why)
  after_prepare p promotion actor (err e) = raise e
  after_prepare p promotion actor (ok r) =
      save world.host (prepared_as p promotion r)
      >> carry_out (prepared_as p promotion r) (record promotion { checkpoint = shared }) actor

  unfoldable pub promotion_of : Proposal → String → Promotion
  promotion_of p actor = record {
    status = "applying";
    promoted_by = actor;
    machine_state_before = world.machine_state false;
    workloads_before = world.workloads false;
    checkpoint = copied p.recovery;
    failure = none;
    applied_actions = none;
    verification = none;
    rollback = none;
    machine_state_after = none;
    workloads_after = none;
  }

  -- The proposal whose promotion has begun.
  unfoldable pub started_as : Proposal → String → Proposal
  unfolding transition promotion_of
  started_as p actor =
      transition (record p { promotion = some (promotion_of p actor) }) applying "promotion_started"
        actor end

  -- From the record that a promotion has begun.
  unfoldable pub start_promotion : Proposal → String → Op Tree Proposal
  unfolding started_as promotion_of after_prepare
  start_promotion p actor =
      save world.host (started_as p actor)
      >> after_prepare (started_as p actor) (promotion_of p actor) actor
          (world.prepare_recovery (started_as p actor))

  unfoldable pub promote_proposal : String → String → Op Tree Proposal
  unfolding check_promotion start_promotion
  promote_proposal proposal_id actor = lock world.host proposal_id false (do
    p ← load world.host proposal_id
    (λ s. (lift (check_promotion world s.tree p) >> start_promotion p actor) s))
