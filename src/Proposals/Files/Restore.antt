-- ===== src/Proposals/Files/Restore.antt =====
-- jiritsu_proposals/actions.py: the record of each action undoes it.
use jiritsu.Base.{
  ℕ, ◌<◌, String, true, false, Option, none, some, List, [], ◌∷◌, null, ◌≡◌, refl, ap, subst, sym,
  ◌∙◌, arith, ◌⊎◌, inl, inr, Bool-cases, Option-cases, Result-cases, Result, ok, err, ok-injective,
}
use jiritsu.Proposals.Model.{Action, mkdir, write, Applied}
use jiritsu.Proposals.Files.Tree.{
  Node, file, directory, Names, Nodes, same, parent, node, is_directory, has_child, set, remove,
  IsTree, same_refl, parent-same, no_child, cons-IsTree, set-IsTree, is_directory-set, node-set,
  set-set,
}
use jiritsu.Proposals.Files.{
  Disk, backup, names, Refusals, replaced, guarded, atomic_bytes, make_directory, recorded,
  unchanged, made, written_back, apply_mkdir, replace_file, apply_write, apply_action, unlinked,
  unlink, removed, remove_directory, restore_backup, undo_action,
}

-- The backups of earlier actions are kept.
abbrev pub Keeps : ℕ → Disk → Disk → Type 0
Keeps n d e = (m : ℕ) → m < n → backup e.backups m ≡ backup d.backups m

-- Something that the operating system refuses to write or to read.
abbrev pub Refuses : Refusals → Type 0
Refuses u =
    ((p : Names) × (why : String) × (u.path p ≡ some why))
    ⊎ ((n : ℕ) × (why : String) × (u.copy n ≡ some why))

module _ (refuses : Refusals) where
  pub guarded-eq-ok :
      (t : Nodes) (p : Names) (change : Result String Nodes) (u : Nodes)
      → guarded refuses t p change ≡ ok u
      → (refuses.path p ≡ none) × (is_directory t (parent p) ≡ true) × (change ≡ ok u)
  unfolding guarded
  guarded-eq-ok t p change u h = ground arith

-- What undoing gives: the nodes, or the error of something that is refused.
abbrev Gives : Refusals → Result String Nodes → Nodes → Type 0
Gives u r t = (r ≡ ok t) ⊎ (Refuses u × ((why : String) × (r ≡ err why)))

by_path :
    (u : Refusals) (p : Names) (r : Result String Nodes) (t : Nodes)
    → (u.path p ≡ none → r ≡ ok t)
    → ((why : String) → u.path p ≡ some why → r ≡ err why)
    → Gives u r t
by_path u p r t f g = elim (Option-cases (u.path p)) [
  | inl q ↦ inl (f q)
  | inr (why, q) ↦ inr (inl (p, why, q), (why, g why q))
]

by_copy :
    (u : Refusals) (n : ℕ) (r : Result String Nodes) (t : Nodes)
    → (u.copy n ≡ none → Gives u r t)
    → ((why : String) → u.copy n ≡ some why → r ≡ err why)
    → Gives u r t
by_copy u n r t f g = elim (Option-cases (u.copy n)) [
  | inl q ↦ f q
  | inr (why, q) ↦ inr (inr (n, why, q), (why, g why q))
]

along : (u : Refusals) (r s : Result String Nodes) (t : Nodes) → r ≡ s → Gives u s t → Gives u r t
along u r s t e = subst (λ x. Gives u x t) (sym e)

-- `refuses` is of the time of the actions, `undoing` of the time of the rollback.
module _ (refuses undoing : Refusals) where
  -- A record undoes a change wherever the nodes and the backup of its action are those it left, if
  -- nothing is refused then.
  abbrev pub Undoes : ℕ → Disk → Applied → Disk → Type 0
  Undoes n d r e =
      (f : Disk)
      → f.nodes ≡ e.nodes
      → backup f.backups n ≡ backup e.backups n
      → Gives undoing (undo_action undoing r f) d.nodes

  -- What an action leaves: where it fails, the nodes; where it works, a tree and a record that undoes it.
  abbrev pub IsStep : ℕ → Disk → Result String Applied × Disk → Type 0
  IsStep n d (err why, e) = (e.nodes ≡ d.nodes) × Keeps n d e
  IsStep n d (ok r, e) = IsTree e.nodes × Keeps n d e × Undoes n d r e

  -- Removing what was put on a new path.
  remove_new_directory :
      (t : Nodes) (p : Names) (m : ℕ)
      → same p p ≡ true
      → same (parent p) p ≡ false
      → has_child t p ≡ false
      → Gives undoing (remove_directory undoing ((p, directory m) ∷ t) p) t
  unfolding remove_directory removed node has_child remove
  remove_new_directory t p m s c h =
      by_path undoing p (remove_directory undoing ((p, directory m) ∷ t) p) t (λ q. ground arith)
        (λ why q. ground arith)

  unlink_new :
      (t : Nodes) (p : Names) (c : String) (m : ℕ)
      → same p p ≡ true
      → Gives undoing (unlink undoing ((p, file c m) ∷ t) p) t
  unfolding unlink unlinked node remove
  unlink_new t p c m s =
      by_path undoing p (unlink undoing ((p, file c m) ∷ t) p) t (λ q. ground arith)
        (λ why q. ground arith)

  -- Writing back over a file that was replaced.
  write_back :
      (t : Nodes) (p : Names) (c d : String) (m k : ℕ)
      → node t p ≡ some (file c m)
      → is_directory (set t p (file d k)) (parent p) ≡ true
      → Gives undoing (atomic_bytes undoing (set t p (file d k)) p c m) t
  unfolding atomic_bytes guarded replaced
  write_back t p c d m k h i =
      by_path undoing p (atomic_bytes undoing (set t p (file d k)) p c m) t
        (λ q.
          rw (atomic_bytes, guarded, q, i, node-set t p (file d k) (file c m) h)
            (ap ok (set-set t p (file d k) (file c m) h)))
        (λ why q. rw (atomic_bytes, guarded, q) refl)

  restore_written :
      (t : Nodes) (p : Names) (n : ℕ) (c d : String) (m k : ℕ)
      → node t p ≡ some (file c m)
      → is_directory (set t p (file d k)) (parent p) ≡ true
      → Gives undoing (restore_backup undoing (set t p (file d k)) p n m (some c)) t
  unfolding restore_backup written_back
  restore_written t p n c d m k h i =
      by_copy undoing n (restore_backup undoing (set t p (file d k)) p n m (some c)) t
        (λ q.
          along undoing (restore_backup undoing (set t p (file d k)) p n m (some c))
            (atomic_bytes undoing (set t p (file d k)) p c m) t (rw (restore_backup, q) refl)
            (write_back t p c d m k h i))
        (λ why q. rw (restore_backup, q) refl)

  -- The record of a change.
  abbrev change_of : ℕ → String → String → ℕ → Applied
  change_of n path recovery mode = record {
    action = n;
    path = path;
    changed = true;
    recovery = recovery;
    original_mode = mode;
  }

  parent-other : (p : Names) → null p ≡ false → same (parent p) p ≡ false
  parent-other [] h = cc
  parent-other (x ∷ xs) h = parent-same x xs

  -- Where there is no node there is no directory, but for the root.
  absent : (t : Nodes) (p : Names) → null p ≡ false → node t p ≡ none → is_directory t p ≡ false
  absent t p h q = rw (h, q) refl

  undo_unchanged :
      (n : ℕ) (path : String) (f : Disk)
      → null (names path) ≡ false
      → undo_action undoing (unchanged refuses n path) f ≡ ok f.nodes
  unfolding undo_action unchanged
  undo_unchanged n path f h = rw (undo_action, h) refl

  undo_made :
      (n : ℕ) (path : String) (f : Disk)
      → null (names path) ≡ false
      → undo_action undoing (change_of n path "remove_created_directory" 0) f
        ≡ remove_directory undoing f.nodes (names path)
  unfolding undo_action
  undo_made n path f h = rw (undo_action, h) refl

  undo_created :
      (n : ℕ) (path : String) (f : Disk)
      → null (names path) ≡ false
      → undo_action undoing (change_of n path "remove_created_file" 0) f
        ≡ unlink undoing f.nodes (names path)
  unfolding undo_action
  undo_created n path f h = rw (undo_action, h) refl

  undo_replaced :
      (n : ℕ) (path : String) (mode : ℕ) (f : Disk)
      → null (names path) ≡ false
      → undo_action undoing (change_of n path "restore_backup" mode) f
        ≡ restore_backup undoing f.nodes (names path) n mode (backup f.backups n)
  unfolding undo_action
  undo_replaced n path mode f h = rw (undo_action, h) refl

  made-IsStep :
      (n : ℕ) (path : String) (mode : ℕ) (d : Disk) (t : Nodes)
      → null (names path) ≡ false
      → IsTree d.nodes
      → node d.nodes (names path) ≡ none
      → make_directory refuses d.nodes (names path) mode ≡ ok t
      → IsStep n d (ok (change_of n path "remove_created_directory" 0), record d { nodes = t })
  unfolding make_directory
  made-IsStep n path mode d t nonempty h q e =
      let p = names path in
      let (free, dir, c) =
        guarded-eq-ok refuses d.nodes p (ok ((p, directory mode) ∷ d.nodes)) t e in
      let gone = absent d.nodes p nonempty q in
      (
        subst IsTree (ok-injective c) (cons-IsTree d.nodes p (directory mode) gone dir h),
        λ m l. refl,
        λ f a b.
            along undoing (undo_action undoing (change_of n path "remove_created_directory" 0) f)
              (remove_directory undoing ((p, directory mode) ∷ d.nodes) p) d.nodes
              (undo_made n path f nonempty
                ∙ ap (λ u. remove_directory undoing u p) (a ∙ sym (ok-injective c)))
              (remove_new_directory d.nodes p mode (same_refl p) (parent-other p nonempty)
                (no_child d.nodes d.nodes p h gone)),
      )

  apply_mkdir-IsStep :
      (n : ℕ) (path : String) (mode : ℕ) (d : Disk)
      → refuses.mode (names path) ≡ none
      → null (names path) ≡ false
      → IsTree d.nodes
      → IsStep n d (apply_mkdir refuses n path mode d (node d.nodes (names path)))
  unfolding apply_mkdir recorded made
  apply_mkdir-IsStep n path mode d calm nonempty h =
      elim (Option-cases (node d.nodes (names path))) [
        | inr (x, q) ↦
            rw q (h, λ m l. refl, λ f a b. inl (undo_unchanged n path f nonempty ∙ ap ok a))
        | inl q ↦ elim (Result-cases (make_directory refuses d.nodes (names path) mode)) [
          | inl (why, e) ↦ rw (q, e, calm) (refl, λ m l. refl)
          | inr (t, e) ↦ rw (q, e, calm) (made-IsStep n path mode d t nonempty h q e)
        ]
      ]

  created-IsStep :
      (n : ℕ) (path content : String) (mode : ℕ) (d : Disk) (t : Nodes)
      → null (names path) ≡ false
      → IsTree d.nodes
      → node d.nodes (names path) ≡ none
      → atomic_bytes refuses d.nodes (names path) content mode ≡ ok t
      → IsStep n d (ok (change_of n path "remove_created_file" 0), record d { nodes = t })
  unfolding atomic_bytes replaced
  created-IsStep n path content mode d t nonempty h q e =
      let p = names path in
      let (free, dir, c) =
        guarded-eq-ok refuses d.nodes p (replaced refuses d.nodes p content mode (node d.nodes p)) t
          e in
      let made = sym (ap (replaced refuses d.nodes p content mode) q) ∙ c in
      (
        subst IsTree (ok-injective made)
            (cons-IsTree d.nodes p (file content mode) (absent d.nodes p nonempty q) dir h),
        λ m l. refl,
        λ f a b.
            along undoing (undo_action undoing (change_of n path "remove_created_file" 0) f)
              (unlink undoing ((p, file content mode) ∷ d.nodes) p) d.nodes
              (undo_created n path f nonempty
                ∙ ap (λ u. unlink undoing u p) (a ∙ sym (ok-injective made)))
              (unlink_new d.nodes p content mode (same_refl p)),
      )

  keep_earlier :
      (n : ℕ) (c : String) (bs : List (ℕ × String)) (m : ℕ)
      → m < n
      → backup ((n, c) ∷ bs) m ≡ backup bs m
  unfolding backup
  keep_earlier n c bs m l = ground arith

  backup-here : (n : ℕ) (c : String) (bs : List (ℕ × String)) → backup ((n, c) ∷ bs) n ≡ some c
  unfolding backup
  backup-here n c bs = ground arith

  replaced-IsStep :
      (n : ℕ) (path content : String) (mode : ℕ) (d : Disk) (old : String) (original : ℕ)
      (t : Nodes)
      → null (names path) ≡ false
      → IsTree d.nodes
      → node d.nodes (names path) ≡ some (file old original)
      → atomic_bytes refuses d.nodes (names path) content mode ≡ ok t
      → IsStep n d (
        ok (change_of n path "restore_backup" original),
        record d { nodes = t; backups = (n, old) ∷ d.backups },
      )
  unfolding atomic_bytes replaced
  replaced-IsStep n path content mode d old original t nonempty h q e =
      let p = names path in
      let (free, dir, c) =
        guarded-eq-ok refuses d.nodes p (replaced refuses d.nodes p content mode (node d.nodes p)) t
          e in
      let made = sym (ap (replaced refuses d.nodes p content mode) q) ∙ c in
      (
        subst IsTree (ok-injective made) (set-IsTree d.nodes p old content original mode q h),
        λ m l. keep_earlier n old d.backups m l,
        λ f a b.
            along undoing (undo_action undoing (change_of n path "restore_backup" original) f)
              (restore_backup undoing (set d.nodes p (file content mode)) p n original (some old))
              d.nodes
              (undo_replaced n path original f nonempty
                ∙ ap (λ u. restore_backup undoing u p n original (backup f.backups n))
                    (a ∙ sym (ok-injective made))
                ∙ ap (restore_backup undoing (set d.nodes p (file content mode)) p n original)
                    (b ∙ backup-here n old d.backups))
              (restore_written d.nodes p n old content original mode q
                (is_directory-set d.nodes p (parent p) old content original mode q ∙ dir)),
      )

  replace_file-IsStep :
      (n : ℕ) (path content : String) (mode : ℕ) (d : Disk) (old : String) (original : ℕ)
      → null (names path) ≡ false
      → IsTree d.nodes
      → node d.nodes (names path) ≡ some (file old original)
      → (o : Option String) → IsStep n d (replace_file refuses n path content mode d old original o)
  unfolding replace_file recorded
  replace_file-IsStep n path content mode d old original nonempty h q (some why) =
      (refl, λ m l. refl)
  replace_file-IsStep n path content mode d old original nonempty h q none =
      elim (Result-cases (atomic_bytes refuses d.nodes (names path) content mode)) [
        | inl (why, e) ↦ rw e (refl, λ m l. keep_earlier n old d.backups m l)
        | inr (t, e) ↦ rw e (replaced-IsStep n path content mode d old original t nonempty h q e)
      ]

  apply_write-IsStep :
      (n : ℕ) (path content : String) (mode : ℕ) (d : Disk)
      → null (names path) ≡ false
      → IsTree d.nodes
      → (o : Option Node) → node d.nodes (names path) ≡ o
      → IsStep n d (apply_write refuses n path content mode d o)
  unfolding apply_write recorded
  apply_write-IsStep n path content mode d nonempty h none q =
      elim (Result-cases (atomic_bytes refuses d.nodes (names path) content mode)) [
        | inl (why, e) ↦ rw e (refl, λ m l. refl)
        | inr (t, e) ↦ rw e (created-IsStep n path content mode d t nonempty h q e)
      ]
  apply_write-IsStep n path content mode d nonempty h (some (file old original)) q =
      replace_file-IsStep n path content mode d old original nonempty h q (refuses.copy n)
  apply_write-IsStep n path content mode d nonempty h (some (directory m)) q = (refl, λ m l. refl)

  pub apply_action-IsStep :
      (n : ℕ) (a : Action) (d : Disk)
      → ((p : Names) → refuses.mode p ≡ none)
      → IsTree d.nodes
      → IsStep n d (apply_action refuses n a d)
  unfolding apply_action
  apply_action-IsStep n (mkdir path mode) d calm h = elim (Bool-cases (null (names path))) [
    | inl q ↦ rw q (refl, λ m l. refl)
    | inr q ↦ rw q (apply_mkdir-IsStep n path _ d (calm (names path)) q h)
  ]
  apply_action-IsStep n (write path content mode expected) d calm h =
      elim (Bool-cases (null (names path))) [
        | inl q ↦ rw q (refl, λ m l. refl)
        | inr q ↦ rw q (apply_write-IsStep n path content _ d q h (node d.nodes (names path)) refl)
      ]
