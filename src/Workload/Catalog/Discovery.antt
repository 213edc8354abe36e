-- ===== src/Workload/Catalog/Discovery.antt =====
-- jiritsu_workload/contracts.py: which contract `discover_contracts` returns for an identifier.
use jiritsu.Base.{
  String, false, Option, none, some, List, [], ◌∷◌, ◌==◌, ◌≡◌, refl, ◌∙◌, sym, ap, subst, arith,
  contains, sorted, contains-sorted, sorted-Distinct, All, Distinct, is_some, eq_iff, ok, err,
  ok-injective, >>=-eq-ok, if◌then◌else◌,
}
use jiritsu.Workload.Model.{Exception, Try, WorkloadContract}
use jiritsu.Workload.Catalog.{
  ContractFile, Directory, absent, no_directory, files, load_contract, Contracts, find, put, ids,
  load_defaults, source_of, load_user, load_directory, duplicate, take_all, discover_contracts,
}
use jiritsu.Workload.Catalog.Dict.{
  contract_ids, or_else, or_else_assoc, last_named, find-put, IsKeyed, IsDictionary,
  put-IsDictionary, take_all-ids, take_all-found, contains-ids,
}
use jiritsu.Workload.Catalog.Selection.{or_else-none, All-map, sorted-here}

-- The contracts of files, one after the other, as a relation.
abbrev pub AreLoaded : List ContractFile → String → List WorkloadContract → Type 0
AreLoaded [] kind [] = Unit
AreLoaded (f ∷ fs) kind (w ∷ ws) = (load_contract f kind ≡ ok w) × AreLoaded fs kind ws
AreLoaded fs kind ws = ⊥

-- What loading adds to a dictionary: the contracts of the files, the last ones first.
abbrev Adds : List WorkloadContract → Contracts → Contracts → Type 0
Adds ws before after = (id : String) → find after id ≡ or_else (last_named ws id) (find before id)

cons-Adds :
    (w : WorkloadContract) (ws : List WorkloadContract) (before after : Contracts)
    → Adds ws (put w before) after
    → Adds (w ∷ ws) before after
cons-Adds w ws before after h id =
    h id
    ∙ ap (or_else (last_named ws id)) (find-put w before id)
    ∙ sym (
        or_else_assoc (last_named ws id) (if w.contract_id == id then some w else none)
          (find before id))

load_defaults-Adds :
    (fs : List ContractFile) (before after : Contracts)
    → load_defaults fs before ≡ ok after
    → IsDictionary before
    → (ws : List WorkloadContract) × AreLoaded fs "default" ws
      × Adds ws before after
      × IsDictionary after
unfolding load_defaults ids
load_defaults-Adds [] before after h k =
    subst
      (λ after.
        (ws : List WorkloadContract) × AreLoaded [] "default" ws
        × Adds ws before after
        × IsDictionary after)
      (ok-injective h) ([], tt, λ id. refl, k)
load_defaults-Adds (f ∷ fs) before after h k =
    let (w, p, h1) = >>=-eq-ok (load_contract f "default") _ h in
    let (ws, l, a, j) =
      load_defaults-Adds fs (put w before) after h1 (put-IsDictionary w before k) in
    (w ∷ ws, (p, l), cons-Adds w ws before after a, j)

-- No contract of the list has an identifier that was seen, nor two the same.
not_seen :
    (o : Option String) (next : Try Contracts) (g : String → Exception) (after : Contracts)
    → (elim o [ some other ↦ err (g other) | none ↦ next ]) ≡ ok after
    → (o ≡ none) × (next ≡ ok after)
not_seen none next g after h = (refl, h)
not_seen (some other) next g after h = cc

others :
    (id path : String) (seen : List (String × String)) (xs : List String)
    → All (λ i. source_of ((id, path) ∷ seen) i ≡ none) xs
    → contains xs id ≡ false
unfolding source_of
others id path seen [] h = refl
others id path seen (x ∷ xs) (h, hs) =
    ground (arith, eq_iff id x, eq_iff x id, others id path seen xs hs)

unseen :
    (id path : String) (seen : List (String × String)) (xs : List String)
    → All (λ i. source_of ((id, path) ∷ seen) i ≡ none) xs
    → All (λ i. source_of seen i ≡ none) xs
unfolding source_of
unseen id path seen [] h = tt
unseen id path seen (x ∷ xs) (h, hs) = (ground arith, unseen id path seen xs hs)

abbrev pub user_files : Directory → List ContractFile
user_files (files fs) = fs
user_files d = []

load_user-Adds :
    (fs : List ContractFile) (seen : List (String × String)) (before after : Contracts)
    → load_user fs seen before ≡ ok after
    → IsDictionary before
    → (ws : List WorkloadContract) × AreLoaded fs "user" ws
      × Adds ws before after
      × IsDictionary after
      × Distinct (contract_ids ws)
      × All (λ i. source_of seen i ≡ none) (contract_ids ws)
unfolding load_user
load_user-Adds [] seen before after h k =
    subst
      (λ after.
        (ws : List WorkloadContract) × AreLoaded [] "user" ws
        × Adds ws before after
        × IsDictionary after
        × Distinct (contract_ids ws)
        × All (λ i. source_of seen i ≡ none) (contract_ids ws))
      (ok-injective h) ([], tt, λ id. refl, k, tt, tt)
load_user-Adds (f ∷ fs) seen before after h k =
    let (w, p, h1) = >>=-eq-ok (load_contract f "user") _ h in
    let (q, h2) = not_seen (source_of seen w.contract_id) _ (duplicate f.path) after h1 in
    let (ws, l, a, j, d, n) =
      load_user-Adds fs ((w.contract_id, f.path) ∷ seen) (put w before) after h2
        (put-IsDictionary w before k) in
    (
      w ∷ ws,
      (p, l),
      cons-Adds w ws before after a,
      j,
      (others w.contract_id f.path seen (contract_ids ws) n, d),
      (q, unseen w.contract_id f.path seen (contract_ids ws) n),
    )

load_directory-Adds :
    (directory : Directory) (before after : Contracts)
    → load_directory directory before ≡ ok after
    → IsDictionary before
    → (ws : List WorkloadContract) × AreLoaded (user_files directory) "user" ws
      × Adds ws before after
      × IsDictionary after
      × Distinct (contract_ids ws)
unfolding load_directory
load_directory-Adds absent before after h k =
    subst
      (λ after.
        (ws : List WorkloadContract) × AreLoaded [] "user" ws
        × Adds ws before after
        × IsDictionary after
        × Distinct (contract_ids ws))
      (ok-injective h) ([], tt, λ id. refl, k, tt)
load_directory-Adds (no_directory path) before after h k = cc
load_directory-Adds (files fs) before after h k =
    let (ws, l, a, j, d, n) = load_user-Adds fs [] before after h k in (ws, l, a, j, d)

-- What a dictionary filled by both loops finds.
both-found :
    (standard user : List WorkloadContract) (before after : Contracts)
    → Adds standard [] before
    → Adds user before after
    → (id : String) → find after id ≡ or_else (last_named user id) (last_named standard id)
unfolding find
both-found standard user before after a b id =
    b id ∙ ap (or_else (last_named user id)) (a id ∙ or_else-none (last_named standard id))

taken-members :
    (cs : Contracts) (id : String)
    → IsKeyed cs
    → contains (contract_ids (take_all cs (sorted (ids cs)))) id ≡ is_some (find cs id)
taken-members cs id k =
    ap (λ is. contains is id) (take_all-ids cs (sorted (ids cs)) k (sorted-here cs))
    ∙ contains-sorted (ids cs) id
    ∙ contains-ids cs id

-- The contracts that the files hold, of which those of the user take the place of default ones.
pub record IsCatalog (defaults : List ContractFile) (directory : Directory)
    (ws : List WorkloadContract) : Type 0 where
  pub standard : List WorkloadContract
  pub user : List WorkloadContract
  pub defaults_loaded : AreLoaded defaults "default" standard
  pub user_loaded : AreLoaded (user_files directory) "user" user
  pub user_distinct : Distinct (contract_ids user)
  pub distinct : Distinct (contract_ids ws)
  pub members :
      (id : String)
      → contains (contract_ids ws) id
        ≡ is_some (or_else (last_named user id) (last_named standard id))
  pub first :
      All
        (λ (w : WorkloadContract).
          or_else (last_named user w.contract_id) (last_named standard w.contract_id) ≡ some w)
        ws

-- The contracts that were discovered are those of the default and the user's files, all of which
-- were loaded: one for each identifier, the user's where there is one, and of default contracts with
-- the same identifier the last. No two of the user's files have the same identifier.
pub discover_contracts-IsCatalog :
    (defaults : List ContractFile) (directory : Directory) (ws : List WorkloadContract)
    → discover_contracts defaults directory ≡ ok ws
    → IsCatalog defaults directory ws
unfolding discover_contracts ids
discover_contracts-IsCatalog defaults directory ws h =
    let (before, p, h1) = >>=-eq-ok (load_defaults defaults []) _ h in
    let (after, q, h2) = >>=-eq-ok (load_directory directory before) _ h1 in
    let (standard, l, a, k) = load_defaults-Adds defaults [] before p (tt, tt) in
    let (user, m, b, (j, once), d) = load_directory-Adds directory before after q k in
    subst (IsCatalog defaults directory) (ok-injective h2) (record {
      standard = standard;
      user = user;
      defaults_loaded = l;
      user_loaded = m;
      user_distinct = d;
      distinct =
          subst Distinct (sym (take_all-ids after (sorted (ids after)) j (sorted-here after)))
            (sorted-Distinct (ids after) once);
      members = λ id.
          taken-members after id j ∙ ap is_some (both-found standard user before after a b id);
      first =
          All-map (λ (w : WorkloadContract). find after w.contract_id ≡ some w)
            (λ (w : WorkloadContract).
              or_else (last_named user w.contract_id) (last_named standard w.contract_id) ≡ some w)
            (take_all after (sorted (ids after)))
            (λ w e. sym (both-found standard user before after a b w.contract_id) ∙ e)
            (take_all-found after (sorted (ids after)) j);
    })
