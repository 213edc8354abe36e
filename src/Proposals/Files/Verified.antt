-- ===== src/Proposals/Files/Verified.antt =====
-- jiritsu_proposals/actions.py: what each action leaves passes its check.
use jiritsu.Base.{
  ℕ, String, eq_refl, Bool, true, false, not, Option, none, some, [], ◌∷◌, null, ◌≡◌, ◌⊎◌, refl, ap,
  subst, sym, ◌∙◌, arith, inl, inr, Bool-cases, Option-cases, Result-cases, Result, ok, err,
  ok-injective,
}
use jiritsu.Proposals.Model.{
  Action, mkdir, write, Applied, Check, is_directory as directory_check, has_digest, pass,
}
use jiritsu.Proposals.Files.Tree.{
  Node, file, directory, Names, Nodes, same, node, is_directory, set, same_refl, same-eq, node-set,
}
use jiritsu.Proposals.Files.{
  Disk, names, Refusals, replaced, atomic_bytes, make_directory, recorded, made, apply_mkdir,
  replace_file, apply_write, apply_action,
}
use jiritsu.Proposals.Files.Restore.{guarded-eq-ok}
use jiritsu.Proposals.Files.Inspect.{Access, digest_of, verify_check}

abbrev pub target : Action → Names
target (mkdir path mode) = names path
target (write path content mode expected) = names path

unfoldable pub is_file : Option Node → Bool
is_file (some (file c m)) = true
is_file o = false

-- A directory is not made where a file is.
unfoldable pub fits : Nodes → Action → Bool
unfolding is_file
fits t (mkdir path mode) = not (is_file (node t (names path)))
fits t (write path content mode expected) = true

-- Everything can be read.
abbrev pub everything : Access
everything = record { status = λ t p. true; content = λ t p. true }

-- A changed path does not change the others.
set-other : (t : Nodes) (p q : Names) (n : Node) → same p q ≡ false → node (set t p n) q ≡ node t q
unfolding node set
set-other [] p q n h = refl
set-other ((r, m) ∷ t) p q n h = elim (Bool-cases (same r p)) [
  | inl e ↦ rw (e, ap (λ x. same x q) (same-eq r p e), h)
  | inr e ↦ rw (e, set-other t p q n h)
]

module _ (refuses : Refusals) (sha256 : String → String) where
  unfoldable pub check_of : Action → Check
  check_of (mkdir path mode) = directory_check path
  check_of (write path content mode expected) = has_digest path (sha256 content)

  -- What an action that worked leaves: its own check passes, and other paths are as they were.
  unfoldable pub IsEffect : Action → Disk → Result String Applied × Disk → Type 0
  IsEffect a d (err why, e) = Unit
  IsEffect a d (ok r, e) =
      ((q : Names) → same (target a) q ≡ false → node e.nodes q ≡ node d.nodes q)
      × (verify_check sha256 everything e.nodes (check_of a) ≡ pass)

  new_node :
      (t : Nodes) (p q : Names) (n : Node) → same p q ≡ false → node ((p, n) ∷ t) q ≡ node t q
  unfolding node
  new_node t p q n h = rw h refl

  here : (t : Nodes) (p : Names) (n : Node) → node ((p, n) ∷ t) p ≡ some n
  unfolding node
  here t p n = rw (same_refl p) refl

  pass_directory :
      (t : Nodes) (path : String)
      → null (names path) ≡ false
      → is_directory t (names path) ≡ true
      → verify_check sha256 everything t (directory_check path) ≡ pass
  unfolding verify_check
  pass_directory t path h e = ground (arith, h, e)

  pass_file :
      (t : Nodes) (path content : String) (m : ℕ)
      → null (names path) ≡ false
      → node t (names path) ≡ some (file content m)
      → verify_check sha256 everything t (has_digest path (sha256 content)) ≡ pass
  unfolding verify_check digest_of
  pass_file t path content m h e = rw (verify_check, h, e, eq_refl (sha256 content)) refl

  mkdir-IsEffect :
      (n : ℕ) (path mode : String) (k : ℕ) (d : Disk)
      → null (names path) ≡ false
      → fits d.nodes (mkdir path mode) ≡ true
      → IsEffect (mkdir path mode) d (apply_mkdir refuses n path k d (node d.nodes (names path)))
  unfolding apply_mkdir recorded made IsEffect fits is_file check_of make_directory
  mkdir-IsEffect n path mode k d h f = elim (Option-cases (node d.nodes (names path))) [
    | inr (file c m, q) ↦ ground (arith, ap is_file q)
    | inr (directory m, q) ↦ rw q (λ p e. refl, pass_directory d.nodes path h (rw (h, q) refl))
    | inl q ↦ elim (Option-cases (refuses.mode (names path))) [
      | inr (why, o) ↦ elim (Result-cases (make_directory refuses d.nodes (names path) k)) [
        | inl (x, e) ↦ rw (q, e, o) tt
        | inr (t, e) ↦ rw (q, e, o) tt
      ]
      | inl o ↦ elim (Result-cases (make_directory refuses d.nodes (names path) k)) [
        | inl (why, e) ↦ rw (q, e, o) tt
        | inr (t, e) ↦
            let (free, dir, c) =
              guarded-eq-ok refuses d.nodes (names path) (ok ((names path, directory k) ∷ d.nodes))
                t e in
            rw (q, e, o)
              (
                λ p g.
                    ap (λ u. node u p) (sym (ok-injective c))
                    ∙ new_node d.nodes (names path) p (directory k) g,
                subst (λ u. verify_check sha256 everything u (directory_check path) ≡ pass)
                    (ok-injective c)
                    (pass_directory ((names path, directory k) ∷ d.nodes) path h
                      (rw (h, here d.nodes (names path) (directory k)) refl)),
              )
      ]
    ]
  ]

  written-IsEffect :
      (path content mode : String) (expected : Option String) (k : ℕ) (d : Disk) (t u : Nodes)
      → null (names path) ≡ false
      → (u ≡ (names path, file content k) ∷ d.nodes)
        ⊎ ((u ≡ set d.nodes (names path) (file content k))
            × (node (set d.nodes (names path) (file content k)) (names path)
                ≡ some (file content k)))
      → u ≡ t
      → ((q : Names) → same (names path) q ≡ false → node t q ≡ node d.nodes q)
        × (verify_check sha256 everything t (has_digest path (sha256 content)) ≡ pass)
  written-IsEffect path content mode expected k d t u h (inl c) e =
      subst
        (λ v.
          ((q : Names) → same (names path) q ≡ false → node v q ≡ node d.nodes q)
          × (verify_check sha256 everything v (has_digest path (sha256 content)) ≡ pass))
        (sym c ∙ e)
        (
          λ q g. new_node d.nodes (names path) q (file content k) g,
          pass_file ((names path, file content k) ∷ d.nodes) path content k h
              (here d.nodes (names path) (file content k)),
        )
  written-IsEffect path content mode expected k d t u h (inr (c, w)) e =
      subst
        (λ v.
          ((q : Names) → same (names path) q ≡ false → node v q ≡ node d.nodes q)
          × (verify_check sha256 everything v (has_digest path (sha256 content)) ≡ pass))
        (sym c ∙ e)
        (
          λ q g. set-other d.nodes (names path) q (file content k) g,
          pass_file (set d.nodes (names path) (file content k)) path content k h w,
        )

  -- What replacing the content of a path gives.
  atomic_bytes-eq-ok :
      (t : Nodes) (p : Names) (c : String) (k : ℕ) (u : Nodes)
      → atomic_bytes refuses t p c k ≡ ok u
      → replaced refuses t p c k (node t p) ≡ ok u
  unfolding atomic_bytes
  atomic_bytes-eq-ok t p c k u e =
      let (free, dir, r) = guarded-eq-ok refuses t p (replaced refuses t p c k (node t p)) u e in r

  replace_file-IsEffect :
      (n : ℕ) (path content mode : String) (expected : Option String) (k : ℕ) (d : Disk)
      (old : String) (m : ℕ)
      → null (names path) ≡ false
      → node d.nodes (names path) ≡ some (file old m)
      → (o : Option String)
      → IsEffect
          (write path content mode expected)
          d
          (replace_file refuses n path content k d old m o)
  unfolding replace_file recorded IsEffect check_of replaced
  replace_file-IsEffect n path content mode expected k d old m h q (some why) = tt
  replace_file-IsEffect n path content mode expected k d old m h q none =
      elim (Result-cases (atomic_bytes refuses d.nodes (names path) content k)) [
        | inl (why, e) ↦ rw e tt
        | inr (t, e) ↦ rw e (
            written-IsEffect path content mode expected k d t
              (set d.nodes (names path) (file content k)) h
              (inr (refl, node-set d.nodes (names path) (file content k) (file old m) q))
              (ok-injective (
                sym (ap (replaced refuses d.nodes (names path) content k) q)
                ∙ atomic_bytes-eq-ok d.nodes (names path) content k t e)))
      ]

  write-IsEffect :
      (n : ℕ) (path content mode : String) (expected : Option String) (k : ℕ) (d : Disk)
      → null (names path) ≡ false
      → (o : Option Node) → node d.nodes (names path) ≡ o
      → IsEffect (write path content mode expected) d (apply_write refuses n path content k d o)
  unfolding apply_write recorded IsEffect check_of replaced
  write-IsEffect n path content mode expected k d h none q =
      elim (Result-cases (atomic_bytes refuses d.nodes (names path) content k)) [
        | inl (why, e) ↦ rw e tt
        | inr (t, e) ↦ rw e (
            written-IsEffect path content mode expected k d t
              ((names path, file content k) ∷ d.nodes) h (inl refl)
              (ok-injective (
                sym (ap (replaced refuses d.nodes (names path) content k) q)
                ∙ atomic_bytes-eq-ok d.nodes (names path) content k t e)))
      ]
  write-IsEffect n path content mode expected k d h (some (file old m)) q =
      replace_file-IsEffect n path content mode expected k d old m h q (refuses.copy n)
  write-IsEffect n path content mode expected k d h (some (directory m)) q = tt

  pub apply_action-IsEffect :
      (n : ℕ) (a : Action) (d : Disk)
      → fits d.nodes a ≡ true
      → IsEffect a d (apply_action refuses n a d)
  unfolding apply_action IsEffect
  apply_action-IsEffect n (mkdir path mode) d f = elim (Bool-cases (null (names path))) [
    | inl q ↦ rw q tt
    | inr q ↦ rw q (mkdir-IsEffect n path mode _ d q f)
  ]
  apply_action-IsEffect n (write path content mode expected) d f =
      elim (Bool-cases (null (names path))) [
        | inl q ↦ rw q tt
        | inr q ↦
            rw q
              (write-IsEffect n path content mode expected _ d q (node d.nodes (names path)) refl)
      ]
