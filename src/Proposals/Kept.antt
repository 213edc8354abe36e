-- ===== src/Proposals/Kept.antt =====
-- What the store's files have in common stays so, if every record that is saved has it too.
use jiritsu.Base.{
  String, Bool, true, false, Bool-cases, false, Option, none, some, Option-cases, List, [], ◌∷◌,
  ◌==◌, eq_iff, if◌then◌else◌, ◌≡◌, refl, sym, ap, subst, ◌⊎◌, inl, inr, arith, ok, err,
}
use jiritsu.Proposals.Model.{Exception, Try, Proposal}
use jiritsu.Proposals.Store.{
  File, missing, stored, malformed, unreadable, Session, Host, Op, lift, continue, ◌>>=◌, ◌>>◌,
  lookup, put, unless, directory, opened, convert, lock, read, file_of, load, save,
}

pub lookup-put :
    (i j : String) (f : File) (ds : List (String × File))
    → lookup (put i f ds) j ≡ (if i == j then some f else lookup ds j)
unfolding lookup put
lookup-put i j f [] = refl
lookup-put i j f ((k, g) ∷ ds) = elim (Bool-cases (k == i)) [
  | inl e ↦ rw (e, (eq_iff k i).0 e) ground arith
  | inr e ↦ rw (e, lookup-put i j f ds) ground (arith, eq_iff k i, eq_iff k j, eq_iff i j)
]

pub stored-injective : {p q : Proposal} → some (stored p) ≡ some (stored q) → p ≡ q
stored-injective h = cc

missing-stored : {p : Proposal} {C : Type 0} → some missing ≡ some (stored p) → C
missing-stored h = cc

-- A save replaces the file, or leaves all files as they are.
pub save-directories :
    {Tree : Type 0} (host : Host) (p : Proposal) (s : Session Tree)
    → ((save host p s).1.directories ≡ s.directories)
      ⊎ ((save host p s).1.directories ≡ put p.id (stored p) s.directories)
unfolding save
save-directories host p s = elim (Option-cases (host.write s.writes)) [
  | inl q ↦ inr (rw (save, q) refl)
  | inr (x, q) ↦ inl (rw (save, q) refl)
]

-- Opening a directory that has to be there changes nothing.
directory-false :
    {Tree : Type 0} (host : Host) (id : String) (s : Session Tree)
    → (directory host id false s).1 ≡ s
unfolding directory
directory-false host id s = elim (Option-cases (lookup s.directories id)) [
  | inl q ↦ rw (directory, q) refl
  | inr (x, q) ↦ rw (directory, q) refl
]

directory-true-new :
    {Tree : Type 0} (host : Host) (id : String) (s : Session Tree)
    → lookup s.directories id ≡ none
    → (directory host id true s).1.directories ≡ put id missing s.directories
unfolding directory
directory-true-new host id s q = rw (directory, q) refl

directory-true-old :
    {Tree : Type 0} (host : Host) (id : String) (s : Session Tree) (f : File)
    → lookup s.directories id ≡ some f
    → (directory host id true s).1 ≡ s
unfolding directory
directory-true-old host id s f q = rw (directory, q) refl

-- A directory that is there cannot be made: an error, and nothing changes.
pub lock-true-old :
    {Tree : Type 0} {A : Type 0} (host : Host) (id : String) (f : File) (body : Op Tree A)
    (s : Session Tree)
    → lookup s.directories id ≡ some f
    → ((e : Exception) × ((lock host id true body s).0 ≡ err e))
      × ((lock host id true body s).1 ≡ s)
unfolding lock directory unless
lock-true-old host id f body s q = elim (Option-cases host.root) [
  | inl r ↦ (rw (lock, r, directory, q) (_, refl), rw (lock, r, directory, q) refl)
  | inr (x, r) ↦ (rw (lock, r) (_, refl), rw (lock, r) refl)
]

read-eq-ok :
    (id : String) (f : File) (p : Proposal) → read id f ≡ ok p → (f ≡ stored p) × (p.id ≡ id)
unfolding read
read-eq-ok id missing p h = cc
read-eq-ok id malformed p h = cc
read-eq-ok id (unreadable why) p h = cc
read-eq-ok id (stored q) p h = elim (Bool-cases (q.id == id)) [
  | inl e ↦ ground (arith, eq_iff q.id id)
  | inr e ↦ ground arith
]

file_of-stored : (o : Option File) (p : Proposal) → file_of o ≡ stored p → o ≡ some (stored p)
unfolding file_of
file_of-stored none p h = cc
file_of-stored (some f) p h = ap some h

pub load-eq-ok :
    {Tree : Type 0} (host : Host) (id : String) (s : Session Tree) (p : Proposal)
    → (load host id s).0 ≡ ok p
    → (lookup s.directories id ≡ some (stored p)) × (p.id ≡ id)
unfolding load
load-eq-ok host id s p h =
    let (f, i) = read-eq-ok id (file_of (lookup s.directories id)) p h in
    (file_of-stored (lookup s.directories id) p f, i)

module _ (Allowed : String → Proposal → Type 0) where
  -- Every record in the store is allowed.
  abbrev pub AllAllowed : List (String × File) → Type 0
  AllAllowed ds = (id : String) (p : Proposal) → lookup ds id ≡ some (stored p) → Allowed id p

  put-AllAllowed :
      (ds : List (String × File)) (p : Proposal)
      → Allowed p.id p
      → AllAllowed ds
      → AllAllowed (put p.id (stored p) ds)
  put-AllAllowed ds p a h id q e = elim (Bool-cases (p.id == id)) [
    | inl b ↦
        subst (λ i. Allowed i q) ((eq_iff p.id id).0 b)
          (subst (Allowed p.id)
            (stored-injective (ground (arith, lookup-put p.id id (stored p) ds))) a)
    | inr b ↦ h id q (ground (arith, lookup-put p.id id (stored p) ds))
  ]

  put-missing :
      (ds : List (String × File)) (id : String) → AllAllowed ds → AllAllowed (put id missing ds)
  put-missing ds id h i q e = elim (Bool-cases (id == i)) [
    | inl b ↦ missing-stored {p = q} (ground (arith, lookup-put id i missing ds))
    | inr b ↦ h i q (ground (arith, lookup-put id i missing ds))
  ]

module _ {Tree : Type 0} (Allowed : String → Proposal → Type 0) where
  abbrev pub Keeps : {A : Type 0} → Op Tree A → Type 0
  Keeps m =
      (s : Session Tree) → AllAllowed Allowed s.directories → AllAllowed Allowed (m s).1.directories

  pub Keeps-lift->>= :
      {A B : Type 0} (r : Try A) (next : A → Op Tree B)
      → ((a : A) → r ≡ ok a → Keeps (next a))
      → Keeps (lift r >>= next)
  Keeps-lift->>= (ok a) next k = k a refl
  Keeps-lift->>= (err e) next k = λ s h. h

  pub Keeps-lift : {A : Type 0} (r : Try A) → Keeps (lift r)
  Keeps-lift r s h = h

  Keeps-continue :
      {A B : Type 0} (r : Try A) (next : A → Op Tree B)
      → ((a : A) → r ≡ ok a → Keeps (next a))
      → (s : Session Tree) → AllAllowed Allowed s.directories
      → AllAllowed Allowed (continue r next s).1.directories
  Keeps-continue (ok a) next k = k a refl
  Keeps-continue (err e) next k = λ s h. h

  pub Keeps->>= :
      {A B : Type 0} (first : Op Tree A) (next : A → Op Tree B)
      → Keeps first
      → ((a : A) → Keeps (next a))
      → Keeps (first >>= next)
  Keeps->>= first next k l s h = Keeps-continue (first s).0 next (λ a _. l a) (first s).1 (k s h)

  pub save-Keeps : (host : Host) (p : Proposal) → Allowed p.id p → Keeps (save host p)
  save-Keeps host p a s h = elim (save-directories host p s) [
    | inl q ↦ subst (AllAllowed Allowed) (sym q) h
    | inr q ↦ subst (AllAllowed Allowed) (sym q) (put-AllAllowed Allowed s.directories p a h)
  ]

  pub load->>=-Keeps :
      {A : Type 0} (host : Host) (id : String) (next : Proposal → Op Tree A)
      → ((p : Proposal) → p.id ≡ id → Allowed id p → Keeps (next p))
      → Keeps (load host id >>= next)
  unfolding load
  load->>=-Keeps host id next k s h =
      Keeps-continue (load host id s).0 next
        (λ p e. let (l, i) = load-eq-ok host id s p e in k p i (h id p l)) s h

  pub lock-Keeps :
      {A : Type 0} (host : Host) (id : String) (body : Op Tree A)
      → Keeps body
      → Keeps (lock host id false body)
  unfolding lock
  lock-Keeps host id body k =
      Keeps->>=
        (lift (unless host.root) >> directory host id false >> lift (opened id host.lock_file))
        (λ _ s. let (r, s') = body s in (convert id r, s'))
        (Keeps->>= (lift (unless host.root) >> directory host id false)
          (λ _. lift (opened id host.lock_file))
          (Keeps->>= (lift (unless host.root)) (λ _. directory host id false)
            (Keeps-lift (unless host.root))
            (λ _ s h.
              subst (λ t. AllAllowed Allowed t.directories) (sym (directory-false host id s)) h))
          (λ _. Keeps-lift (opened id host.lock_file)))
        (λ _. k)

  pub Keeps-if :
      {A : Type 0} (b : Bool) (m k : Op Tree A) → Keeps m → Keeps k → Keeps (if b then m else k)
  Keeps-if true m k l r = l
  Keeps-if false m k l r = r

  -- Making a directory adds no record.
  directory-true-Keeps : (host : Host) (id : String) → Keeps (directory host id true)
  unfolding directory
  directory-true-Keeps host id s h = elim (Option-cases (lookup s.directories id)) [
    | inl q ↦
        subst (AllAllowed Allowed) (sym (directory-true-new host id s q))
          (put-missing Allowed s.directories id h)
    | inr (x, q) ↦
        subst (λ t. AllAllowed Allowed t.directories) (sym (directory-true-old host id s x q)) h
  ]

  pub lock-true-Keeps :
      {A : Type 0} (host : Host) (id : String) (body : Op Tree A)
      → Keeps body
      → Keeps (lock host id true body)
  unfolding lock
  lock-true-Keeps host id body k =
      Keeps->>=
        (lift (unless host.root) >> directory host id true >> lift (opened id host.lock_file))
        (λ _ s. let (r, s') = body s in (convert id r, s'))
        (Keeps->>= (lift (unless host.root) >> directory host id true)
          (λ _. lift (opened id host.lock_file))
          (Keeps->>= (lift (unless host.root)) (λ _. directory host id true)
            (Keeps-lift (unless host.root)) (λ _. directory-true-Keeps host id))
          (λ _. Keeps-lift (opened id host.lock_file)))
        (λ _. k)
