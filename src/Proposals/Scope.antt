-- ===== src/Proposals/Scope.antt =====
-- jiritsu_proposals/operations.py: the checks of `promote_proposal` before it changes anything.
use jiritsu.Base.{String, not, Option, none, some, [], ◌∷◌, ◌==◌, ok, err, ◌>>=◌, ◌>>◌, raise_if}
use jiritsu.Proposals.Model.{
  type_error, key_error, Try, error_of, approved, Approval, granted, refused, Proposal,
}
use jiritsu.Proposals.Operations.{World, require_state, inspected, classification_of}

-- `proposal["approval"]["action_digest"]`
unfoldable pub approved_digest : Option Approval → Try String
approved_digest none = err type_error
approved_digest (some (refused by reason)) = err key_error
approved_digest (some (granted by digest permissions _)) = ok digest

-- The checks, on the tree as it is.
unfoldable pub check_promotion : {Tree : Type 0} → World Tree → Tree → Proposal → Try (Unit {0})
unfolding require_state classification_of approved_digest inspected
check_promotion world tree p = do
  require_state p (approved ∷ [])
  c ← classification_of p.classification
  raise_if (not (world.config_root == c.config_root)) (
      error_of "config_root_changed"
        "promotion must use the config directory used for classification" p.id)
  digest ← approved_digest p.approval
  raise_if (not (digest == world.actions.action_digest p.definition.actions))
      (error_of "approval_scope_changed" "approved actions no longer match the proposal" p.id)
  inspection ← inspected world tree p
  raise_if (not (world.actions.same_targets inspection.targets c.targets)) (
      error_of "target_state_changed"
        "an action target changed after classification; classify a new proposal" p.id)
