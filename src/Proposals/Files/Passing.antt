-- ===== src/Proposals/Files/Passing.antt =====
-- jiritsu_proposals/actions.py: actions that were inspected and then all applied pass their checks.
use jiritsu.Base.{
  ℕ, ◌+◌, String, eq_iff, Bool, true, false, not, ◌||◌, Option, none, List, [], ◌∷◌, map, null, all,
  All, ◌≡◌, refl, ap, subst, sym, ◌∙◌, arith, inl, inr, Bool-cases, Option-cases, Result, ok, err,
  ok-injective, >>=-eq-ok, if◌then◌else◌,
}
use jiritsu.Proposals.Model.{Action, mkdir, write, Applied, Outcome, pass, unreadable, Checked}
use jiritsu.Proposals.Files.Tree.{Node, file, directory, Names, Nodes, same, node}
use jiritsu.Proposals.Files.{Disk, continued, names, Refusals, apply_action, apply_actions}
use jiritsu.Proposals.Files.Inspect.{
  Note, Access, denied, inspect_mkdir, inspect_write, inspect_action, inspect_actions, digest_of,
  verify_check, verify_actions, precondition, noted_write, missing_parent, outside_root,
  planned_after,
}
use jiritsu.Proposals.Files.Verified.{
  target, everything, fits, is_file, check_of, IsEffect, apply_action-IsEffect,
}

abbrev pub targets : List Action → List Names
targets = map target

-- No two actions have the same target.
abbrev pub AreDistinct : List Action → Type 0
AreDistinct [] = Unit
AreDistinct (a ∷ rest) = All (λ q. same (target a) q ≡ false) (targets rest) × AreDistinct rest

abbrev pub is_pass : Outcome → Bool
is_pass pass = true
is_pass o = false

abbrev pub all_passed : List Checked → Bool
all_passed = all (λ (c : Checked). is_pass c.outcome)

-- The status of an action's target can be read, and the content of a file that it writes.
abbrev pub IsReadable : Access → Nodes → Action → Type 0
IsReadable access t (mkdir path mode) = access.status t (names path) ≡ true
IsReadable access t (write path content mode expected) =
    (access.status t (names path) ≡ true) × (access.content t (names path) ≡ true)

same_sym : (p q : Names) → same p q ≡ same q p
same_sym [] [] = refl
same_sym [] (y ∷ ys) = refl
same_sym (x ∷ xs) [] = refl
same_sym (x ∷ xs) (y ∷ ys) = ground (arith, eq_iff x y, eq_iff y x, same_sym xs ys)

fits-eq :
    (t u : Nodes) (a : Action)
    → node u (target a) ≡ node t (target a)
    → fits t a ≡ true
    → fits u a ≡ true
unfolding fits
fits-eq t u (mkdir path mode) h f = ap (λ o. not (is_file o)) h ∙ f
fits-eq t u (write path content mode expected) h f = refl

module _ (refuses : Refusals) (sha256 : String → String) where
  verify-eq :
      (t u : Nodes) (a : Action)
      → node u (target a) ≡ node t (target a)
      → verify_check sha256 everything t (check_of refuses sha256 a) ≡ pass
      → verify_check sha256 everything u (check_of refuses sha256 a) ≡ pass
  unfolding verify_check check_of
  verify-eq t u (mkdir path mode) h f = ground (arith, h, f)
  verify-eq t u (write path content mode expected) h f =
      ap
        (λ o.
          if null (names path) || not true
          then unreadable
          else digest_of sha256 everything u o (sha256 content) true)
        h
      ∙ f

  -- After all the actions, other paths are as they were, and each action's check passes.
  abbrev IsDone : List Action → Disk → Disk → Type 0
  IsDone actions d e =
      ((q : Names)
        → All (λ p. same p q ≡ false) (targets actions)
        → node e.nodes q ≡ node d.nodes q)
      × All (λ a. verify_check sha256 everything e.nodes (check_of refuses sha256 a) ≡ pass) actions

  turned :
      (p : Names) (qs : List Names)
      → All (λ q. same p q ≡ false) qs
      → All (λ q. same q p ≡ false) qs
  turned p [] h = tt
  turned p (q ∷ qs) (h, hs) = (sym (same_sym p q) ∙ h, turned p qs hs)

  cons-IsDone :
      (a : Action) (rest : List Action) (d : Disk) (s : Result String Applied × Disk)
      (r : (Option String × List Applied) × Disk)
      → IsEffect refuses sha256 a d s
      → All (λ q. same (target a) q ≡ false) (targets rest)
      → (All (λ b. fits s.1.nodes b ≡ true) rest → r.0.0 ≡ none → IsDone rest s.1 r.1)
      → All (λ b. fits d.nodes b ≡ true) rest
      → (continued s r).0.0 ≡ none
      → IsDone (a ∷ rest) d (continued s r).1
  unfolding IsEffect
  cons-IsDone a rest d (err why, e) r i h k f g = cc
  cons-IsDone a rest d (ok x, e) r (other, own) h k f g =
      let (frame, good) = k (still rest h f) g in
      (
        λ q (n, ns). frame q ns ∙ other q n,
        (
          verify-eq e.nodes r.1.nodes a (frame (target a) (turned (target a) (targets rest) h)) own,
          good,
        ),
      )
    where
      still :
          (bs : List Action)
          → All (λ q. same (target a) q ≡ false) (targets bs)
          → All (λ b. fits d.nodes b ≡ true) bs
          → All (λ b. fits e.nodes b ≡ true) bs
      still [] h f = tt
      still (b ∷ bs) (h, hs) (f, fs) =
          (fits-eq d.nodes e.nodes b (other (target b) h) f, still bs hs fs)

  apply_actions-IsDone :
      (n : ℕ) (actions : List Action) (d : Disk)
      → AreDistinct actions
      → All (λ a. fits d.nodes a ≡ true) actions
      → (apply_actions refuses n actions d).0.0 ≡ none
      → IsDone actions d (apply_actions refuses n actions d).1
  unfolding apply_actions
  apply_actions-IsDone n [] d h f g = (λ q k. refl, tt)
  apply_actions-IsDone n (a ∷ rest) d (h, hs) (f, fs) g =
      cons-IsDone a rest d (apply_action refuses n a d)
        (apply_actions refuses (n + 1) rest (apply_action refuses n a d).1)
        (apply_action-IsEffect refuses sha256 n a d f) h
        (apply_actions-IsDone (n + 1) rest (apply_action refuses n a d).1 hs) fs g

  -- The targets whose checks read a status, and a content, can be read.
  read-everything :
      (access : Access) (u : Nodes) (actions : List Action)
      → All (IsReadable access u) actions
      → All (λ a. verify_check sha256 everything u (check_of refuses sha256 a) ≡ pass) actions
      → All (λ a. verify_check sha256 access u (check_of refuses sha256 a) ≡ pass) actions
  unfolding verify_check check_of
  read-everything access u [] r h = tt
  read-everything access u ((mkdir path mode) ∷ rest) (s, rs) (h, hs) =
      (rw s h, read-everything access u rest rs hs)
  read-everything access u ((write path content mode expected) ∷ rest) ((s, c), rs) (h, hs) =
      (rw (s, c) h, read-everything access u rest rs hs)

module _ (refuses : Refusals) (sha256 : String → String) (access : Access) where
  -- What an action that was inspected notes.
  IsNoted : Nodes → Action → Note → Type 0
  IsNoted t a note = (note.check ≡ check_of refuses sha256 a) × (fits t a ≡ true)

  inspect_mkdir-IsNoted :
      (t : Nodes) (n : ℕ) (path mode : String) (planned : List Names) (note : Note)
      → inspect_mkdir sha256 access t n path planned (node t (names path)) ≡ ok note
      → IsNoted t (mkdir path mode) note
  unfolding inspect_mkdir IsNoted check_of fits is_file missing_parent
  inspect_mkdir-IsNoted t n path mode planned note h = elim (Option-cases (node t (names path))) [
    | inl q ↦ ground (arith, h, q)
    | inr (file c m, q) ↦ ground (arith, h, q)
    | inr (directory m, q) ↦ ground (arith, h, q)
  ]

  inspect_write-IsNoted :
      (t : Nodes) (n : ℕ) (path content mode : String) (expected : Option String)
      (planned : List Names) (o : Option Node) (note : Note)
      → inspect_write sha256 access t n path content expected planned o ≡ ok note
      → IsNoted t (write path content mode expected) note
  unfolding inspect_write IsNoted check_of fits missing_parent precondition noted_write denied
  inspect_write-IsNoted t n path content mode expected planned o note h = ground (arith, h)

  inspect_action-IsNoted :
      (t : Nodes) (n : ℕ) (planned : List Names) (a : Action) (note : Note)
      → inspect_action sha256 access t n planned a ≡ ok note
      → IsNoted t a note
  unfolding inspect_action outside_root denied
  inspect_action-IsNoted t n planned (mkdir path mode) note h =
      elim (Bool-cases (null (names path))) [
        | inl q ↦ ground (arith, h, q)
        | inr q ↦ ground (arith, h, q, inspect_mkdir-IsNoted t n path mode planned note)
      ]
  inspect_action-IsNoted t n planned (write path content mode expected) note h =
      elim (Bool-cases (null (names path))) [
        | inl q ↦ ground (arith, h, q)
        | inr q ↦ ground (
          arith,
          h,
          q,
          inspect_write-IsNoted t n path content mode expected planned (node t (names path)) note,
        )
      ]

  -- The notes of actions fit the tree, and the actions' checks passing is the notes' checks passing.
  inspect_actions-All :
      (t u : Nodes) (n : ℕ) (planned : List Names) (actions : List Action) (notes : List Note)
      → inspect_actions sha256 access t n planned actions ≡ ok notes
      → All (λ a. fits t a ≡ true) actions
        × (All (λ a. verify_check sha256 access u (check_of refuses sha256 a) ≡ pass) actions
            → all_passed (verify_actions sha256 access u (map (λ (note : Note). note.check) notes))
              ≡ true)
  unfolding inspect_actions verify_actions IsNoted
  inspect_actions-All t u n planned [] notes h = (
    tt,
    λ k.
        subst
          (λ notes.
            all_passed (verify_actions sha256 access u (map (λ (note : Note). note.check) notes))
            ≡ true)
          (ok-injective h) refl,
  )
  inspect_actions-All t u n planned (a ∷ rest) notes h =
      let (note, p, h1) = >>=-eq-ok (inspect_action sha256 access t n planned a) _ h in
      let (others, q, h2) =
        >>=-eq-ok
          (inspect_actions sha256 access t (n + 1) (planned_after sha256 access t planned a) rest) _
          h1 in
      let (fit, good) =
        inspect_actions-All t u (n + 1) (planned_after sha256 access t planned a) rest others q in
      let (check, own) = inspect_action-IsNoted t n planned a note p in
      (
        (own, fit),
        λ (k, ks).
            subst
              (λ notes.
                all_passed
                  (verify_actions sha256 access u (map (λ (note : Note). note.check) notes))
                ≡ true)
              (ok-injective h2) (rw (ap (verify_check sha256 access u) check ∙ k) (good ks)),
      )

-- Actions with different targets that were inspected on the files as they are, and then applied
-- without a failure, pass all the checks that the inspection noted, if after it the status of every
-- target and the content of every file that was written can be read.
pub verify_actions-apply_actions :
    (refuses : Refusals) (sha256 : String → String) (access : Access) (actions : List Action)
    (d : Disk) (notes : List Note)
    → AreDistinct actions
    → inspect_actions sha256 access d.nodes 0 [] actions ≡ ok notes
    → (apply_actions refuses 0 actions d).0.0 ≡ none
    → All (IsReadable access (apply_actions refuses 0 actions d).1.nodes) actions
    → all_passed (
        verify_actions sha256 access
          (apply_actions refuses 0 actions d).1.nodes
          (map (λ (note : Note). note.check) notes))
      ≡ true
verify_actions-apply_actions refuses sha256 access actions d notes distinct h g readable =
    let after = (apply_actions refuses 0 actions d).1.nodes in
    let (fit, good) =
      inspect_actions-All refuses sha256 access d.nodes after 0 [] actions notes h in
    let (frame, each) = apply_actions-IsDone refuses sha256 0 actions d distinct fit g in
    good (read-everything refuses sha256 access after actions readable each)
