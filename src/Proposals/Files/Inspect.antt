-- ===== src/Proposals/Files/Inspect.antt =====
-- jiritsu_proposals/actions.py: inspecting actions before they are applied, and verifying them after.
use jiritsu.Base.{
  ℕ, zero, suc, ◌+◌, ◌/◌, ◌%◌, ltb, String, ◌<>◌, ◌==◌, Bool, true, false, not, ◌||◌, Option, none,
  some, List, [], ◌∷◌, null, any, decimal, is_some, ok, err, ◌>>=◌, ◌>>◌, if◌then◌else◌,
}
use jiritsu.Proposals.Model.{
  Try, os_error, error, Action, mkdir, write, Target, Check, is_directory as directory_check,
  has_digest, Outcome, pass, fail, unreadable, Checked,
}
use jiritsu.Proposals.Files.Tree.{
  Node, file, directory, Names, Nodes, same, parent, node, is_directory,
}
use jiritsu.Proposals.Files.{names}

octal_digits : ℕ → ℕ → String
octal_digits zero n = ""
octal_digits (suc k) n =
    let rest = octal_digits k (n / 8) in if ltb n 8 then decimal n else rest <> decimal (n % 8)

-- `f"0{mode:o}"`
mode_text : ℕ → String
unfolding octal_digits
mode_text n = "0" <> octal_digits (suc n) n

-- What `inspect_actions` notes of an action: its target, its check, and how it is undone.
pub record Note : Type 0 where
  pub target : Target
  pub check : Check
  pub strategy : String

-- What the operating system lets the program read in a tree: the status of a path (with the one of
-- its directory), and the content of a file.
pub record Access : Type 0 where
  pub status : Nodes → Names → Bool
  pub content : Nodes → Names → Bool

-- `PermissionError`
unfoldable pub denied : {A : Type 0} → Try A
denied = err (os_error "Permission denied")

module _ (sha256 : String → String) (access : Access) (t : Nodes) where
  unfoldable pub observed : ℕ → String → String → Option String → Option String → Target
  observed n path kind digest mode = record {
    action = n;
    path = path;
    kind = kind;
    sha256 = digest;
    mode = mode;
  }

  -- `parent.is_dir() or parent in planned_directories`
  unfoldable pub has_parent : List Names → Names → Bool
  has_parent planned p = is_directory t (parent p) || any (same (parent p)) planned

  unfoldable pub missing_parent : String → {A : Type 0} → Try A
  missing_parent kind = err (
      error "target_parent_missing"
        (kind <> " parent does not exist and is not created by an earlier action"))

  unfoldable pub inspect_mkdir : ℕ → String → List Names → Option Node → Try Note
  unfolding observed has_parent missing_parent
  inspect_mkdir n path planned (some (file c m)) =
      err (error "target_conflict" "config.mkdir target exists and is not a directory")
  inspect_mkdir n path planned o =
      if has_parent planned (names path)
      then ok (record {
        target = observed n path (if is_some o then "directory" else "absent") none none;
        check = directory_check path;
        strategy = if is_some o then "no_change" else "remove_created_directory";
      })
      else missing_parent "config.mkdir"

  -- The precondition on the file that is there.
  unfoldable pub precondition : Option String → Option String → Try Unit
  precondition (some current) none = err (
      error "precondition_required" "config.write requires expected_sha256 when it replaces a file")
  precondition none none = ok tt
  precondition (some current) (some expected) =
      if expected == current
      then ok tt
      else err (
          error "precondition_failed"
            "config.write expected_sha256 does not match the current file")
  precondition none (some expected) =
      err
        (error "precondition_failed" "config.write expected_sha256 does not match the current file")

  unfoldable pub noted_write : ℕ → String → String → String → Option String → Option String → Note
  unfolding observed
  noted_write n path content kind digest mode = record {
    target = observed n path kind digest mode;
    check = has_digest path (sha256 content);
    strategy = if is_some digest then "restore_backup" else "remove_created_file";
  }

  unfoldable pub inspect_write :
      ℕ → String → String → Option String → List Names → Option Node → Try Note
  unfolding has_parent missing_parent precondition noted_write mode_text denied
  inspect_write n path content expected planned o =
      if not (has_parent planned (names path)) then missing_parent "config.write" else elim o [
        | some (directory m) ↦
            err (error "target_conflict" "config.write target exists and is not a regular file")
        | some (file c m) ↦
            if access.content t (names path)
            then precondition (some (sha256 c)) expected
              >> ok (noted_write n path content "file" (some (sha256 c)) (some (mode_text m)))
            else denied
        | none ↦ precondition none expected >> ok (noted_write n path content "absent" none none)
      ]

  unfoldable pub outside_root : {A : Type 0} → Try A
  outside_root =
      err (error "unsafe_target" "the action target resolves outside the user config directory")

  -- The body of the loop of `inspect_actions`.
  unfoldable pub inspect_action : ℕ → List Names → Action → Try Note
  unfolding inspect_mkdir inspect_write outside_root denied
  inspect_action n planned (mkdir path mode) =
      if null (names path)
      then outside_root
      else if access.status t (names path)
      then inspect_mkdir n path planned (node t (names path))
      else denied
  inspect_action n planned (write path content mode expected) =
      if null (names path)
      then outside_root
      else if access.status t (names path)
      then inspect_write n path content expected planned (node t (names path))
      else denied

  -- `planned_directories`, after an action
  unfoldable pub planned_after : List Names → Action → List Names
  planned_after planned (mkdir path mode) = names path ∷ planned
  planned_after planned (write path content mode expected) = planned

  -- `inspect_actions`: the notes of the actions, in order.
  unfoldable pub inspect_actions : ℕ → List Names → List Action → Try (List Note)
  unfolding inspect_action planned_after
  inspect_actions n planned [] = ok []
  inspect_actions n planned (a ∷ rest) = do
    note ← inspect_action n planned a
    notes ← inspect_actions (n + 1) (planned_after planned a) rest
    ok (note ∷ notes)

  -- What a file's digest says, if its content can be read, and a path that is no file.
  unfoldable pub digest_of : Option Node → String → Bool → Outcome
  digest_of (some (file c m)) expected true = if sha256 c == expected then pass else fail
  digest_of (some (file c m)) expected false = unreadable
  digest_of o expected b = fail

  -- The body of the loop of `verify_actions`.
  unfoldable pub verify_check : Check → Outcome
  unfolding digest_of
  verify_check (directory_check path) =
      if null (names path) || not (access.status t (names path))
      then unreadable
      else if is_directory t (names path)
      then pass
      else fail
  verify_check (has_digest path expected) =
      if null (names path) || not (access.status t (names path))
      then unreadable
      else digest_of (node t (names path)) expected (access.content t (names path))

  unfoldable pub verify_actions : List Check → List Checked
  unfolding verify_check
  verify_actions [] = []
  verify_actions (c ∷ cs) = record { check = c; outcome = verify_check c } ∷ verify_actions cs
