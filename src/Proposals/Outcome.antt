-- ===== src/Proposals/Outcome.antt =====
-- How a promotion that returns a proposal has ended.
use jiritsu.Base.{String, true, false, if◌then◌else◌, List, [], ◌≡◌, ◌⊎◌, ok, err}
use jiritsu.Proposals.Model.{os_error, committed, failed, rolled_back, Applied, Promotion, Proposal}
use jiritsu.Proposals.Store.{Session, Op}
use jiritsu.Proposals.Operations.{World}
use jiritsu.Proposals.Promotion.{all_restored, all_passed, new_failures}

-- An operation that leaves the tree as it is.
abbrev Keeps : {Tree A : Type 0} → Op Tree A → Type 0
Keeps {Tree} m = (s : Session Tree) → (m s).1.tree ≡ s.tree

-- The tree that the promotion finds is `start`.
module _ {Tree : Type 0} (world : World Tree) (start : Tree) where
  -- What a rollback starts from: the tree and the records that applying the proposal's actions gave,
  -- all of them or those before one that failed; or the recovery could not be prepared, and nothing
  -- was applied.
  abbrev pub HasApplied : Proposal → Tree → List Applied → Type 0
  HasApplied q t done =
      (world.actions.apply start q.definition.actions ≡ (ok (ok done), t))
      ⊎ ((why : String) × (world.actions.apply start q.definition.actions
            ≡ (ok (err (why, done)), t)))
      ⊎ ((p : Proposal) × (why : String) × (p.definition ≡ q.definition)
          × (world.prepare_recovery p ≡ err (os_error why))
          × (done ≡ [])
          × (t ≡ start))

  -- The proposal is committed, all its actions were applied, which gave the tree, its checks pass on
  -- it, and no workload fails that did not before; or the tree is what the rollback of the applied
  -- actions left, and the state says if everything was restored.
  abbrev pub HasEnded : Proposal → Tree → Type 0
  HasEnded q tree =
      ((q.state ≡ committed)
        × ((done : List Applied) × (world.actions.apply start q.definition.actions
              ≡ (ok (ok done), tree)))
        × (all_passed (world.actions.verify tree q.verification) ≡ true)
        × (new_failures (world.workloads false) (world.workloads true) ≡ []))
      ⊎ ((t : Tree) × (done : List Applied) × HasApplied q t done
          × (tree ≡ (world.actions.undo t done).1)
          × (q.state
              ≡ (if all_restored (world.actions.undo t done).0 then rolled_back else failed)))

  abbrev Ends : Op Tree Proposal → Type 0
  Ends m =
      (s : Session Tree) (q : Proposal) → s.tree ≡ start → (m s).0 ≡ ok q → HasEnded q (m s).1.tree
