-- ===== src/Proposals/Store.antt =====
-- jiritsu_proposals/store.py: the directories of the proposals, each with one file. What the
-- operating system answers is a parameter.
use jiritsu.Base.{
  ℕ, ◌+◌, String, ◌<>◌, Bool, Option, none, some, List, [], ◌∷◌, ◌==◌, if◌then◌else◌, ok, err,
}
use jiritsu.Proposals.Model.{Exception, os_error, Try, error_of, Proposal}

-- The file of a proposal: none yet, one that cannot be read, JSON that is no proposal, or a record.
pub data File : Type 0 where
  missing malformed : File
  unreadable : (why : String) → File
  stored : Proposal → File

-- The directories by their names, the configuration's tree, and how often a record was written.
pub record Session (Tree : Type 0) : Type 0 where
  pub directories : List (String × File)
  pub tree : Tree
  pub writes : ℕ

-- What the operating system answers: each field says what an access fails with.
pub record Host : Type 0 where
  -- `_ensure_root`
  pub root : Option Exception
  -- opening the lock's file, after the directory was found or made
  pub lock_file : Option String
  -- the write of the record at an index
  pub write : ℕ → Option Exception

-- An operation on the session, which may raise and keeps what it did.
abbrev pub Op : Type 0 → Type 0 → Type 0
Op Tree A = Session Tree → Try A × Session Tree

module _ {Tree A : Type 0} where
  abbrev pub pure : A → Op Tree A
  pure a s = (ok a, s)

  abbrev pub raise : Exception → Op Tree A
  raise e s = (err e, s)

  abbrev pub lift : Try A → Op Tree A
  lift r s = (r, s)

module _ {Tree A B : Type 0} where
  abbrev pub continue : Try A → (A → Op Tree B) → Op Tree B
  continue (err e) next s = (err e, s)
  continue (ok a) next s = next a s

  infixl 5 ◌>>=◌ ◌>>◌
  abbrev pub ◌>>=◌ : Op Tree A → (A → Op Tree B) → Op Tree B
  ◌>>=◌ first next s = let (r, s') = first s in continue r next s'

  abbrev pub ◌>>◌ : Op Tree A → Op Tree B → Op Tree B
  first >> rest = first >>= λ _. rest

unfoldable pub lookup : List (String × File) → String → Option File
lookup [] id = none
lookup ((i, f) ∷ ds) id = if i == id then some f else lookup ds id

-- The directories with the file of one replaced, or with a new directory.
unfoldable pub put : String → File → List (String × File) → List (String × File)
put id f [] = (id, f) ∷ []
put id f ((i, g) ∷ ds) = if i == id then (i, f) ∷ ds else (i, g) ∷ put id f ds

unfoldable pub unless : Option Exception → Try Unit
unless none = ok tt
unless (some e) = err e

cannot_lock : String → String → Exception
cannot_lock id why = error_of "store_error" ("cannot lock proposal " <> (id <> (": " <> why))) id

-- `except ProposalError: raise`, and `except OSError`, around the body.
unfoldable pub convert : {A : Type 0} → String → Try A → Try A
unfolding cannot_lock
convert id (err (os_error why)) = err (cannot_lock id why)
convert id r = r

unfoldable pub opened : String → Option String → Try Unit
unfolding cannot_lock
opened id none = ok tt
opened id (some why) = err (cannot_lock id why)

unfoldable pub read : String → File → Try Proposal
read id missing = err (error_of "proposal_not_found" ("proposal does not exist: " <> id) id)
read id (unreadable why) =
    err (error_of "store_error" ("cannot read proposal " <> (id <> (": " <> why))) id)
read id malformed = err (error_of "store_error" ("proposal record is invalid: " <> id) id)
read id (stored p) =
    if p.id == id
    then ok p
    else err (error_of "store_error" ("proposal record is invalid: " <> id) id)

unfoldable pub file_of : Option File → File
file_of none = missing
file_of (some f) = f

module _ {Tree : Type 0} (host : Host) where
  -- The directory of `lock`: made with `create`, and else to be found.
  unfoldable pub directory : String → (create : Bool) → Op Tree Unit
  directory id create s = elim (lookup s.directories id) [
    | some f ↦ (
      if create
          then err (error_of "proposal_exists" ("proposal already exists: " <> id) id)
          else ok tt,
      s,
    )
    | none ↦
        if create
        then (ok tt, record s { directories = put id missing s.directories })
        else (err (error_of "proposal_not_found" ("proposal does not exist: " <> id) id), s)
  ]

  -- `lock`, around a body.
  unfoldable pub lock : {A : Type 0} → String → (create : Bool) → Op Tree A → Op Tree A
  unfolding unless directory opened convert
  lock id create body =
      lift (unless host.root) >> directory id create >> lift (opened id host.lock_file) >> λ s.
      let (r, s') = body s in (convert id r, s')

  -- `load`
  unfoldable pub load : String → Op Tree Proposal
  unfolding read file_of
  load id s = (read id (file_of (lookup s.directories id)), s)

  -- `save`: the new file takes the place of the old one at once, or not at all.
  unfoldable pub save : Proposal → Op Tree Unit
  unfolding unless
  save p s = elim (host.write s.writes) [
    | some e ↦ (err e, record s { writes = s.writes + 1 })
    | none ↦
        (ok tt, record s { directories = put p.id (stored p) s.directories; writes = s.writes + 1 })
  ]
