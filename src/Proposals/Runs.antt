-- ===== src/Proposals/Runs.antt =====
-- The operations on proposals in any order, each with the surroundings that it meets.
use jiritsu.Base.{
  String, true, any, length, Option, none, some, Option-cases, Bool-cases, ok, err, List, [], ◌∷◌,
  ◌≡◌, refl, sym, ◌∙◌, subst, inl, inr,
}
use jiritsu.Base.Ident.{lower_id}
use jiritsu.Json.{Value}
use jiritsu.Proposals.Model.{Try, Definition, Proposal, event}
use jiritsu.Proposals.Validation.{parse_definition}
use jiritsu.Proposals.Store.{File, stored, Session, Op, pure, lift, lookup, lock, save, ◌>>◌, ◌>>=◌}
use jiritsu.Proposals.Operations.{
  World, created, selected_id, store_new, create_proposal, classify_proposal, approve_proposal,
  reject_proposal,
}
use jiritsu.Proposals.Promotion.{promote_proposal}
use jiritsu.Proposals.Lifecycle.{
  Reach, here, begun, IsWellFormed, needs_approval, is_granted, is_approval, History-approved,
  is_terminal, Reach-terminal,
}
use jiritsu.Proposals.Kept.{
  AllAllowed, Keeps->>=, Keeps-if, save-Keeps, lock-true-Keeps, lock-true-old, stored-injective,
}
use jiritsu.Proposals.PromotionMoves.{promote_proposal-Keeps}
use jiritsu.Proposals.Moves.{
  CameFrom, Allowed, classify_proposal-Keeps, approve_proposal-Keeps, reject_proposal-Keeps,
}

pub data Command (Tree : Type 0) : Type 0 where
  create : World Tree → (definition : Value) (id : Option String) → Command Tree
  classify : World Tree → (id actor : String) → Command Tree
  approve : World Tree → (id actor : String) (text : Option String) → Command Tree
  reject : World Tree → (id actor reason : String) → Command Tree
  promote : World Tree → (id actor : String) → Command Tree

-- Every stored record is well-formed and stands in the directory of its name.
abbrev pub AreSound : List (String × File) → Type 0
AreSound = AllAllowed (λ id p. (p.id ≡ id) × IsWellFormed p)

started : (ds : List (String × File)) → AreSound ds → AllAllowed (Allowed ds) ds
started ds h id p l = record { named = (h id p l).0; sound = (h id p l).1; came = (p, l, here) }

-- A record that an operation leaves: one that was reached, or a new draft.
abbrev Left : List (String × File) → String → Proposal → Type 0
Left ds id p = (p.id ≡ id) × IsWellFormed p × CameFrom ds id p.state

Allowed-Left : (ds es : List (String × File)) → AllAllowed (Allowed ds) es → AllAllowed (Left ds) es
Allowed-Left ds es h id p l = let a = h id p l in (a.named, a.sound, inl a.came)

begun-Left : (ds : List (String × File)) → AreSound ds → AllAllowed (Left ds) ds
begun-Left ds h = Allowed-Left ds ds (started ds h)

module _ {Tree : Type 0} where
  abbrev pub run : Command Tree → Op Tree Proposal
  run (create world definition id) = create_proposal world definition id
  run (classify world id actor) = classify_proposal world id actor
  run (approve world id actor text) = approve_proposal world id actor text
  run (reject world id actor reason) = reject_proposal world id actor reason
  run (promote world id actor) = promote_proposal world id actor

  abbrev pub run_all : List (Command Tree) → Session Tree → Session Tree
  run_all [] s = s
  run_all (c ∷ cs) s = run_all cs (run c s).1

  created-Left :
      (ds : List (String × File)) (world : World Tree) (id : String) (d : Definition)
      → lookup ds id ≡ none
      → Left ds id (created world id d)
  unfolding created event
  created-Left ds world id d n = (
    refl,
    record { counted = refl; history = begun d.origin.actor; has_approval = λ c. cc },
    inr (λ p l. cc, refl),
  )

  store_new-old :
      (world : World Tree) (id : String) (d : Definition) (s : Session Tree) (f : File)
      → lookup s.directories id ≡ some f
      → (store_new world id d s).1 ≡ s
  unfolding store_new
  store_new-old world id d s f q = elim (Bool-cases (lower_id id)) [
    | inl b ↦
        let ((e, x), y) =
          lock-true-old world.host id f (save world.host (created world id d)) s q in
        rw (store_new, b, x) y
    | inr b ↦ rw (store_new, b) refl
  ]

  store_new-AllAllowed :
      (world : World Tree) (id : String) (d : Definition) (s : Session Tree)
      → AreSound s.directories
      → AllAllowed (Left s.directories) (store_new world id d s).1.directories
  unfolding store_new
  store_new-AllAllowed world id d s h = elim (Option-cases (lookup s.directories id)) [
    | inl n ↦
        Keeps-if (Left s.directories) (lower_id id)
          (lock world.host id true (save world.host (created world id d))
            >> pure (created world id d))
          _
          (Keeps->>= (Left s.directories)
            (lock world.host id true (save world.host (created world id d)))
            (λ _. pure (created world id d))
            (lock-true-Keeps (Left s.directories) world.host id _ (
              save-Keeps (Left s.directories) world.host (created world id d)
                (created-Left s.directories world id d n)))
            (λ _ s h. h))
          (λ s h. h) s (begun-Left s.directories h)
    | inr (f, q) ↦
        subst (λ t. AllAllowed (Left s.directories) t.directories)
          (sym (store_new-old world id d s f q)) (begun-Left s.directories h)
  ]

  read-AllAllowed :
      (world : World Tree) (id : String) (r : Try Definition) (s : Session Tree)
      → AreSound s.directories
      → AllAllowed (Left s.directories) ((lift r >>= store_new world id) s).1.directories
  read-AllAllowed world id (ok d) s h = store_new-AllAllowed world id d s h
  read-AllAllowed world id (err e) s h = begun-Left s.directories h

  run-AllAllowed :
      (c : Command Tree) (s : Session Tree)
      → AreSound s.directories
      → AllAllowed (Left s.directories) (run c s).1.directories
  unfolding create_proposal
  run-AllAllowed (create world definition id) s h =
      read-AllAllowed world (selected_id world id) (parse_definition definition) s h
  run-AllAllowed (classify world id actor) s h =
      Allowed-Left s.directories (run (classify world id actor) s).1.directories
        (classify_proposal-Keeps s.directories world id actor s (started s.directories h))
  run-AllAllowed (approve world id actor text) s h =
      Allowed-Left s.directories (run (approve world id actor text) s).1.directories
        (approve_proposal-Keeps s.directories world id actor text s (started s.directories h))
  run-AllAllowed (reject world id actor reason) s h =
      Allowed-Left s.directories (run (reject world id actor reason) s).1.directories
        (reject_proposal-Keeps s.directories world id actor reason s (started s.directories h))
  run-AllAllowed (promote world id actor) s h =
      Allowed-Left s.directories (run (promote world id actor) s).1.directories
        (promote_proposal-Keeps s.directories world id actor s (started s.directories h))

  -- After any operation on sound records, a stored record is sound, has the name of its directory,
  -- and is a new draft or was reached by steps from the record that its directory had before.
  pub run-CameFrom :
      (c : Command Tree) (s : Session Tree)
      → AreSound s.directories
      → (id : String) (q : Proposal) → lookup (run c s).1.directories id ≡ some (stored q)
      → (q.id ≡ id) × IsWellFormed q × CameFrom s.directories id q.state
  run-CameFrom c s h id q l = run-AllAllowed c s h id q l

  -- No operation changes the state of a record that was rejected, committed, rolled back or failed.
  pub run-terminal :
      (c : Command Tree) (s : Session Tree)
      → AreSound s.directories
      → (id : String) (p q : Proposal) → lookup s.directories id ≡ some (stored p)
      → is_terminal p.state ≡ true
      → lookup (run c s).1.directories id ≡ some (stored q)
      → q.state ≡ p.state
  run-terminal c s h id p q l t m = elim (run-AllAllowed c s h id q m).2 [
    | inl (p', l', r) ↦
        let e : p' ≡ p = stored-injective (sym l' ∙ l) in
        Reach-terminal (subst (λ x. Reach x.state q.state) e r) t
    | inr (n, e) ↦ elim (n p l) [ ]
  ]

  run_all-AreSound :
      (cs : List (Command Tree)) (s : Session Tree)
      → AreSound s.directories
      → AreSound (run_all cs s).directories
  run_all-AreSound [] s h = h
  run_all-AreSound (c ∷ cs) s h =
      run_all-AreSound cs (run c s).1 λ id q l. let a = run-CameFrom c s h id q l in (a.0, a.1)

  abbrev pub empty_store : Tree → Session Tree
  empty_store tree = record { directories = []; tree = tree; writes = 0 }

  pub from_empty-AreSound :
      (cs : List (Command Tree)) (tree : Tree)
      → AreSound (run_all cs (empty_store tree)).directories
  unfolding lookup
  from_empty-AreSound cs tree = run_all-AreSound cs (empty_store tree) (λ i p x. cc)

  -- After any sequence of operations on an empty store, a record whose state comes after the
  -- approval has the event of the approval in its history, carries a granted approval, and has as
  -- many revisions as events.
  pub run_all-approved :
      (cs : List (Command Tree)) (tree : Tree) (id : String) (q : Proposal)
      → lookup (run_all cs (empty_store tree)).directories id ≡ some (stored q)
      → needs_approval q.state ≡ true
      → (any is_approval q.history ≡ true)
        × (is_granted q.approval ≡ true)
        × (q.revision ≡ length q.history)
  run_all-approved cs tree id q l n =
      let w = (from_empty-AreSound cs tree id q l).1 in
      (History-approved w.history n, w.has_approval n, w.counted)
