-- ===== src/Proposals/Files.antt =====
-- jiritsu_proposals/actions.py: applying actions to the files of the configuration, and undoing
-- them. The texts of the operating system's errors are shortened, digests are left out of the
-- records, and there are no symbolic links and no temporary files.
pub mod Tree
pub mod Restore
pub mod Rollback
pub mod Inspect
pub mod Verified
pub mod Passing
mod Examples
use jiritsu.Base.{
  ℕ, ◌+◌, ◌-◌, ◌*◌, eqb, String, ◌==◌, Bool, true, false, not, ◌&&◌, ◌||◌, Option, none, some, List,
  [], ◌∷◌, ◌++◌, null, split, codes, is_some, Result, ok, err, if◌then◌else◌,
}
use jiritsu.Proposals.Model.{Action, mkdir, write, Applied, Restored}
use jiritsu.Proposals.Files.Tree.{
  Node, file, directory, Names, Nodes, parent, node, is_directory, has_child, set, remove,
}

-- The tree below the configuration's directory, and the files of the recovery directory by the
-- number of their action.
pub record Disk : Type 0 where
  pub nodes : Nodes
  pub backups : List (ℕ × String)

unfoldable pub backup : List (ℕ × String) → ℕ → Option String
backup [] n = none
backup ((m, c) ∷ bs) n = if eqb m n then some c else backup bs n

-- `PurePosixPath(path).parts`, of a normalized path. Without symbolic links `target_path` rejects the
-- directory of the configuration itself, which has no names, and nothing else.
unfoldable pub names : String → Names
unfolding split
names path = if path == "." then [] else split 47 path

octal_from : ℕ → List ℕ → ℕ
octal_from n [] = n
octal_from n (c ∷ cs) = octal_from (n * 8 + (c - 48)) cs

-- `int(mode, 8)`
octal : String → ℕ
unfolding octal_from
octal s = octal_from 0 (codes s)

-- What the operating system refuses, and why: to change a path of the tree, to set the mode of a
-- directory that was just made, and to write or to read the backup of an action. `masked` is what
-- the umask leaves of a mode.
pub record Refusals : Type 0 where
  pub path : Names → Option String
  pub mode : Names → Option String
  pub copy : ℕ → Option String
  pub masked : ℕ → ℕ

-- The first action that fails ends the loop.
abbrev pub continued :
    Result String Applied × Disk
    → (Option String × List Applied) × Disk
    → (Option String × List Applied) × Disk
continued (err why, e) r = ((some why, []), e)
continued (ok x, e) r = ((r.0.0, x ∷ r.0.1), r.1)

module _ (refuses : Refusals) where
  replaced : Nodes → Names → String → ℕ → Option Node → Result String Nodes
  replaced t p content mode none = ok ((p, file content mode) ∷ t)
  replaced t p content mode (some (file c m)) = ok (set t p (file content mode))
  replaced t p content mode (some (directory m)) = err "Is a directory"

  -- A change in a directory that is there.
  unfoldable pub guarded : Nodes → Names → Result String Nodes → Result String Nodes
  guarded t p change = elim (refuses.path p) [
    | some why ↦ err why
    | none ↦ if is_directory t (parent p) then change else err "No such file or directory"
  ]

  -- `_atomic_bytes`
  unfoldable pub atomic_bytes : Nodes → Names → String → ℕ → Result String Nodes
  unfolding guarded replaced
  atomic_bytes t p content mode = guarded t p (replaced t p content mode (node t p))

  -- `target.mkdir` and `os.chmod`, where there is no such path
  unfoldable pub make_directory : Nodes → Names → ℕ → Result String Nodes
  unfolding guarded
  make_directory t p mode = guarded t p (ok ((p, directory mode) ∷ t))

  -- The record of an action, if its change worked.
  unfoldable pub recorded :
      ℕ → String → String → ℕ → Disk → Result String Nodes → Result String Applied × Disk
  recorded n path recovery mode d (err why) = (err why, d)
  recorded n path recovery mode d (ok t) = (
    ok (record {
      action = n;
      path = path;
      changed = true;
      recovery = recovery;
      original_mode = mode;
    }),
    record d { nodes = t },
  )

  unchanged : ℕ → String → Applied
  unchanged n path = record {
    action = n;
    path = path;
    changed = false;
    recovery = "no_change";
    original_mode = 0;
  }

  -- The directory that was made, whose mode is then set. One whose mode cannot be set stays there.
  unfoldable pub made :
      ℕ → String → ℕ → Disk → Result String Nodes → Option String → Result String Applied × Disk
  unfolding recorded
  made n path mode d r none = recorded n path "remove_created_directory" 0 d r
  made n path mode d (err why) (some e) = (err why, d)
  made n path mode d (ok t) (some e) =
      (err e, record d { nodes = (names path, directory (refuses.masked mode)) ∷ d.nodes })

  unfoldable pub apply_mkdir : ℕ → String → ℕ → Disk → Option Node → Result String Applied × Disk
  unfolding made make_directory unchanged
  apply_mkdir n path mode d (some x) = (ok (unchanged n path), d)
  apply_mkdir n path mode d none =
      made n path mode d (make_directory d.nodes (names path) mode) (refuses.mode (names path))

  -- The backup, and then the new content.
  unfoldable pub replace_file :
      ℕ → String → String → ℕ → Disk → String → ℕ → Option String → Result String Applied × Disk
  unfolding recorded atomic_bytes
  replace_file n path content mode d old original (some why) = (err why, d)
  replace_file n path content mode d old original none =
      recorded n path "restore_backup" original (record d { backups = (n, old) ∷ d.backups })
        (atomic_bytes d.nodes (names path) content mode)

  unfoldable pub apply_write :
      ℕ → String → String → ℕ → Disk → Option Node → Result String Applied × Disk
  unfolding recorded atomic_bytes replace_file
  apply_write n path content mode d none =
      recorded n path "remove_created_file" 0 d (atomic_bytes d.nodes (names path) content mode)
  apply_write n path content mode d (some (file old original)) =
      replace_file n path content mode d old original (refuses.copy n)
  apply_write n path content mode d (some (directory m)) = (err "Is a directory", d)

  abbrev pub outside : String
  outside = "the action target resolves outside the user config directory"

  -- The body of the loop of `apply_actions`.
  unfoldable pub apply_action : ℕ → Action → Disk → Result String Applied × Disk
  unfolding apply_mkdir apply_write octal
  apply_action n (mkdir path mode) d =
      if null (names path)
      then (err outside, d)
      else apply_mkdir n path (octal mode) d (node d.nodes (names path))
  apply_action n (write path content mode expected) d =
      if null (names path)
      then (err outside, d)
      else apply_write n path content (octal mode) d (node d.nodes (names path))

  -- `apply_actions`: why it stopped, if it did, and the records of the actions that were applied.
  unfoldable pub apply_actions : ℕ → List Action → Disk → (Option String × List Applied) × Disk
  unfolding apply_action
  apply_actions n [] d = ((none, []), d)
  apply_actions n (a ∷ rest) d =
      let s = apply_action n a d in continued s (apply_actions (n + 1) rest s.1)

  unlinked : Nodes → Names → Option Node → Result String Nodes
  unlinked t p none = ok t
  unlinked t p (some (file c m)) = ok (remove t p)
  unlinked t p (some (directory m)) = err "Is a directory"

  -- `target.unlink(missing_ok=True)`
  unfoldable pub unlink : Nodes → Names → Result String Nodes
  unfolding unlinked
  unlink t p = elim (refuses.path p) [ some why ↦ err why | none ↦ unlinked t p (node t p) ]

  removed : Nodes → Names → Option Node → Result String Nodes
  removed t p none = ok t
  removed t p (some (file c m)) = err "Not a directory"
  removed t p (some (directory m)) =
      if has_child t p then err "Directory not empty" else ok (remove t p)

  -- `target.rmdir()`, where the path exists
  unfoldable pub remove_directory : Nodes → Names → Result String Nodes
  unfolding removed
  remove_directory t p = elim (node t p) [
    | none ↦ ok t
    | some n ↦ elim (refuses.path p) [ some why ↦ err why | none ↦ removed t p (some n) ]
  ]

  written_back : Nodes → Names → ℕ → Option String → Result String Nodes
  unfolding atomic_bytes
  written_back t p mode none = err "No such file or directory"
  written_back t p mode (some content) = atomic_bytes t p content mode

  -- `_atomic_bytes(target, backup.read_bytes(), …)`
  unfoldable pub restore_backup : Nodes → Names → ℕ → ℕ → Option String → Result String Nodes
  unfolding written_back
  restore_backup t p n mode o = elim (refuses.copy n) [
    | some why ↦ err why
    | none ↦ written_back t p mode o
  ]

  -- The `try` of `rollback_actions`.
  unfoldable pub undo_action : Applied → Disk → Result String Nodes
  unfolding unlink remove_directory restore_backup
  undo_action r d =
      let p = names r.path in
      if null p
      then err outside
      else if r.recovery == "restore_backup"
      then restore_backup d.nodes p r.action r.original_mode (backup d.backups r.action)
      else if r.recovery == "remove_created_file"
      then unlink d.nodes p
      else if r.recovery == "remove_created_directory"
      then remove_directory d.nodes p
      else ok d.nodes

  restored : Applied → Bool → Restored
  restored r b = record { action = r.action; path = r.path; restored = b }

  unfoldable pub undo_step : Applied → Disk → Restored × Disk
  unfolding undo_action restored
  undo_step r d = elim (undo_action r d) [
    | err why ↦ (restored r false, d)
    | ok t ↦ (restored r true, record d { nodes = t })
  ]

  -- `rollback_actions`: the last action first.
  unfoldable pub rollback_actions : List Applied → Disk → List Restored × Disk
  unfolding undo_step
  rollback_actions [] d = ([], d)
  rollback_actions (r ∷ rs) d =
      let (out, e) = rollback_actions rs d in let (o, f) = undo_step r e in (out ++ (o ∷ []), f)
