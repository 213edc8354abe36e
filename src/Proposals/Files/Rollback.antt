-- ===== src/Proposals/Files/Rollback.antt =====
-- jiritsu_proposals/actions.py: undoing what was applied gives all files back, or says that it did not.
use jiritsu.Base.{
  ℕ, ◌+◌, String, Bool, true, none, ◌&&◌, Option, List, [], ◌∷◌, ◌++◌, all, ◌≡◌, refl, ap, subst,
  sym, ◌∙◌, arith, ◌⊎◌, inl, inr, Result, Result-cases, ok, err, false,
}
use jiritsu.Proposals.Model.{Action, Applied, Restored}
use jiritsu.Proposals.Files.Tree.{Names, IsTree}
use jiritsu.Proposals.Files.{
  Disk, continued, backup, Refusals, apply_action, apply_actions, undo_action, restored, undo_step,
  rollback_actions,
}
use jiritsu.Proposals.Files.Restore.{Keeps, Refuses, IsStep, apply_action-IsStep}

abbrev pub all_restored : List Restored → Bool
all_restored = all (λ (r : Restored). r.restored)

module _ (refuses undoing : Refusals) where
  -- Undoing the records gives the nodes back and says so of every record; or the operating system
  -- refuses something, and it is not so of every record. The backups are kept.
  abbrev IsUndone : ℕ → Disk → (Option String × List Applied) × Disk → Type 0
  IsUndone n d r =
      Keeps n d r.1
      × ((rollback_actions undoing r.0.1 r.1).1.backups ≡ r.1.backups)
      × ((((rollback_actions undoing r.0.1 r.1).1.nodes ≡ d.nodes)
            × (all_restored (rollback_actions undoing r.0.1 r.1).0 ≡ true))
          ⊎ (Refuses undoing × (all_restored (rollback_actions undoing r.0.1 r.1).0 ≡ false)))

  step-IsTree :
      (n : ℕ) (d : Disk) (s : Result String Applied × Disk)
      → IsTree d.nodes
      → IsStep refuses undoing n d s
      → IsTree s.1.nodes
  step-IsTree n d (err why, e) h (same, k) = subst IsTree (sym same) h
  step-IsTree n d (ok r, e) h (t, k, u) = t

  all-append :
      (xs ys : List Restored) → all_restored (xs ++ ys) ≡ (all_restored xs && all_restored ys)
  all-append [] ys = refl
  all-append (x ∷ xs) ys = ground (arith, all-append xs ys)

  append-restored :
      (out : List Restored) (o : Restored)
      → all_restored out ≡ true
      → o.restored ≡ true
      → all_restored (out ++ (o ∷ [])) ≡ true
  append-restored out o h k = rw (all-append, h, k) refl

  append-first :
      (out : List Restored) (o : Restored)
      → all_restored out ≡ false
      → all_restored (out ++ (o ∷ [])) ≡ false
  append-first out o h = rw (all-append, h) refl

  append-last :
      (out : List Restored) (o : Restored)
      → o.restored ≡ false
      → all_restored (out ++ (o ∷ [])) ≡ false
  append-last out o h = ground (arith, all-append out (o ∷ []), h)

  undone-step :
      (r : Applied) (d f : Disk)
      → undo_action undoing r f ≡ ok d.nodes
      → undo_step undoing r f ≡ (restored undoing r true, record f { nodes = d.nodes })
  unfolding undo_step
  undone-step r d f h = rw (undo_step, h) refl

  refused-step :
      (r : Applied) (why : String) (f : Disk)
      → undo_action undoing r f ≡ err why
      → undo_step undoing r f ≡ (restored undoing r false, f)
  unfolding undo_step
  refused-step r why f h = rw (undo_step, h) refl

  step-backups : (r : Applied) (f : Disk) → (undo_step undoing r f).1.backups ≡ f.backups
  unfolding undo_step
  step-backups r f = elim (Result-cases (undo_action undoing r f)) [
    | inl (why, e) ↦ rw (undo_step, e) refl
    | inr (t, e) ↦ rw (undo_step, e) refl
  ]

  cons-IsUndone :
      (n : ℕ) (d : Disk) (s : Result String Applied × Disk)
      → IsStep refuses undoing n d s
      → (r : (Option String × List Applied) × Disk) → IsUndone (n + 1) s.1 r
      → IsUndone n d (continued s r)
  unfolding rollback_actions restored
  cons-IsUndone n d (err why, e) (same, k) r u = (k, refl, inl (same, refl))
  cons-IsUndone n d (ok x, e) (t, k, undoes) r (later, backups, inr (some_refused, bad)) = (
    λ m l. later m (omega (arith, l)) ∙ k m l,
    step-backups x (rollback_actions undoing r.0.1 r.1).1 ∙ backups,
    inr (
      some_refused,
      append-first (rollback_actions undoing r.0.1 r.1).0
          (undo_step undoing x (rollback_actions undoing r.0.1 r.1).1).0 bad,
    ),
  )
  cons-IsUndone n d (ok x, e) (t, k, undoes) r (later, backups, inl (nodes, good)) =
      let out = (rollback_actions undoing r.0.1 r.1).0 in
      let f = (rollback_actions undoing r.0.1 r.1).1 in
      (
        λ m l. later m (omega (arith, l)) ∙ k m l,
        step-backups x f ∙ backups,
        elim (undoes f nodes (ap (λ bs. backup bs n) backups ∙ later n (omega arith))) [
          | inl done ↦ inl (
            ap (λ (s : Restored × Disk). s.1.nodes) (undone-step x d f done),
            append-restored out (undo_step undoing x f).0 good
                (ap (λ (s : Restored × Disk). s.0.restored) (undone-step x d f done)),
          )
          | inr (refused, (why, failed)) ↦ inr (
            refused,
            append-last out (undo_step undoing x f).0
                (ap (λ (s : Restored × Disk). s.0.restored) (refused-step x why f failed)),
          )
        ],
      )

  apply_actions-IsUndone :
      (n : ℕ) (actions : List Action) (d : Disk)
      → ((p : Names) → refuses.mode p ≡ none)
      → IsTree d.nodes
      → IsUndone n d (apply_actions refuses n actions d)
  unfolding apply_actions rollback_actions
  apply_actions-IsUndone n [] d calm h = (λ m l. refl, refl, inl (refl, refl))
  apply_actions-IsUndone n (a ∷ rest) d calm h =
      let s = apply_action-IsStep refuses undoing n a d calm h in
      cons-IsUndone n d (apply_action refuses n a d) s
        (apply_actions refuses (n + 1) rest (apply_action refuses n a d).1)
        (apply_actions-IsUndone (n + 1) rest (apply_action refuses n a d).1 calm
          (step-IsTree n d (apply_action refuses n a d) h s))

-- On a tree where no directory that an action makes is refused its mode, rolling back the records of
-- the actions that were applied, all of them or those before one that failed, gives every file and
-- directory back as it was, with its content and its mode, and each record is reported as restored.
-- Or else the operating system refuses, for the rollback, to change some path or to read some backup,
-- and some record is reported as not restored.
pub rollback_actions-apply_actions :
    (refuses undoing : Refusals) (actions : List Action) (d : Disk)
    → ((p : Names) → refuses.mode p ≡ none)
    → IsTree d.nodes
    → (((rollback_actions undoing
            (apply_actions refuses 0 actions d).0.1
            (apply_actions refuses 0 actions d).1).1.nodes
          ≡ d.nodes)
        × (all_restored
              (rollback_actions undoing
                (apply_actions refuses 0 actions d).0.1
                (apply_actions refuses 0 actions d).1).0
            ≡ true))
      ⊎ (Refuses undoing
          × (all_restored
                (rollback_actions undoing
                  (apply_actions refuses 0 actions d).0.1
                  (apply_actions refuses 0 actions d).1).0
              ≡ false))
rollback_actions-apply_actions refuses undoing actions d calm h =
    let (k, backups, r) = apply_actions-IsUndone refuses undoing 0 actions d calm h in r
