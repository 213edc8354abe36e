-- ===== src/Proposals/Files/Examples.antt =====
-- The files of the configuration at concrete inputs: tests, and the theorems where their hypotheses hold.
use jiritsu.Base.{
  false, decimal, map, ok, true, none, some, List, [], ◌∷◌, ◌≡◌, refl, ◌⊎◌, All, ◌%◌, leb,
}
use jiritsu.Proposals.Model.{Action, mkdir, write, is_directory, has_digest}
use jiritsu.Proposals.Files.Tree.{file, directory, node, set, IsTree}
use jiritsu.Proposals.Files.{Disk, Refusals, names, apply_actions, rollback_actions}
use jiritsu.Proposals.Files.Restore.{Refuses}
use jiritsu.Proposals.Files.Rollback.{all_restored, rollback_actions-apply_actions}
use jiritsu.Proposals.Files.Inspect.{Note, Access, inspect_actions, verify_actions}
use jiritsu.Proposals.Files.Passing.{
  IsReadable, AreDistinct, all_passed, verify_actions-apply_actions,
}

abbrev disk : Disk
disk = record {
  nodes = ("app" ∷ "a.conf" ∷ [], file "old" 420) ∷ ("app" ∷ [], directory 493) ∷ [];
  backups = [];
}

abbrev system : Refusals
system = record { path = λ p. none; mode = λ p. none; copy = λ n. none; masked = λ m. m }

-- While rolling back, the backup of the first action cannot be read.
abbrev broken : Refusals
broken = record {
  path = λ p. none;
  mode = λ p. none;
  copy = λ n. some "Input/output error";
  masked = λ m. m;
}

-- Everything but a file without its owner's permission to read can be read.
abbrev user : Access
user = record {
  status = λ t p. true;
  content = λ t p. elim (node t p) [ some (file c m) ↦ leb 256 (m % 512) | o ↦ true ];
}

-- The last action has no directory to write to.
abbrev actions : List Action
actions =
    write "app/a.conf" "new" "0600" none
    ∷ mkdir "app/sub" "0700"
    ∷ write "app/sub/b" "x" "0644" none
    ∷ write "other/c" "y" "0644" none
    ∷ []

disk-IsTree : IsTree disk.nodes
unfolding node
disk-IsTree = (refl, (refl, tt))

applied :
    ((apply_actions system 0 actions disk).0.0 ≡ some "No such file or directory")
    × ((apply_actions system 0 actions disk).1.nodes
        ≡ ("app" ∷ "sub" ∷ "b" ∷ [], file "x" 420)
          ∷ ("app" ∷ "sub" ∷ [], directory 448)
          ∷ ("app" ∷ "a.conf" ∷ [], file "new" 384)
          ∷ ("app" ∷ [], directory 493)
          ∷ [])
unfolding apply_actions names node set
applied = (refl, refl)

rollback_actions-apply_actions_example :
    (((rollback_actions broken
          (apply_actions system 0 actions disk).0.1
          (apply_actions system 0 actions disk).1).1.nodes
        ≡ disk.nodes)
      × (all_restored
            (rollback_actions broken
              (apply_actions system 0 actions disk).0.1
              (apply_actions system 0 actions disk).1).0
          ≡ true))
    ⊎ (Refuses broken
        × (all_restored
              (rollback_actions broken
                (apply_actions system 0 actions disk).0.1
                (apply_actions system 0 actions disk).1).0
            ≡ false))
rollback_actions-apply_actions_example =
    rollback_actions-apply_actions system broken actions disk (λ p. refl) disk-IsTree

-- The actions that can all be applied, with the digest of a file being its content.
abbrev good_actions : List Action
good_actions =
    write "app/a.conf" "new" "0600" (some "old")
    ∷ mkdir "app/sub" "0700"
    ∷ write "app/sub/b" "x" "0644" none
    ∷ []

abbrev notes : List Note
notes =
    (record {
      target = record {
        action = 0;
        path = "app/a.conf";
        kind = "file";
        sha256 = some "old";
        mode = some "0644";
      };
      check = has_digest "app/a.conf" "new";
      strategy = "restore_backup";
    })
    ∷ (record {
      target = record { action = 1; path = "app/sub"; kind = "absent"; sha256 = none; mode = none };
      check = is_directory "app/sub";
      strategy = "remove_created_directory";
    })
    ∷ (record {
      target = record {
        action = 2;
        path = "app/sub/b";
        kind = "absent";
        sha256 = none;
        mode = none;
      };
      check = has_digest "app/sub/b" "x";
      strategy = "remove_created_file";
    })
    ∷ []

inspected : inspect_actions (λ s. s) user disk.nodes 0 [] good_actions ≡ ok notes
unfolding inspect_actions names node decimal
inspected = refl

good_applied : (apply_actions system 0 good_actions disk).0.0 ≡ none
unfolding apply_actions names node set
good_applied = refl

good-AreDistinct : AreDistinct good_actions
unfolding names
good-AreDistinct = ((refl, (refl, tt)), ((refl, tt), (tt, tt)))

good-IsReadable :
    All (IsReadable user (apply_actions system 0 good_actions disk).1.nodes) good_actions
unfolding apply_actions names node set
good-IsReadable = ((refl, refl), (refl, ((refl, refl), tt)))

verify_actions-apply_actions_example :
    all_passed (
      verify_actions
        (λ s. s)
        user
        (apply_actions system 0 good_actions disk).1.nodes
        (map (λ (note : Note). note.check) notes))
    ≡ true
verify_actions-apply_actions_example =
    verify_actions-apply_actions system (λ s. s) user good_actions disk notes good-AreDistinct
      inspected good_applied good-IsReadable
