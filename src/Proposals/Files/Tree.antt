-- ===== src/Proposals/Files/Tree.antt =====
-- The files below the configuration's directory, and how the operating system changes them. A path
-- is the list of its names; there are no symbolic links.
use jiritsu.Base.{
  ℕ, String, ◌==◌, Bool, true, false, ◌&&◌, ◌||◌, Option, none, some, List, [], ◌∷◌, map, null, any,
  All, ◌≡◌, refl, ap, subst, sym, ◌∙◌, arith, inl, inr, eq_iff, eq_refl, Bool-cases, if◌then◌else◌,
}

pub data Node : Type 0 where
  file : (content : String) (mode : ℕ) → Node
  directory : (mode : ℕ) → Node

abbrev pub Names : Type 0
Names = List String

abbrev pub Nodes : Type 0
Nodes = List (Names × Node)

abbrev pub same : Names → Names → Bool
same [] [] = true
same [] (y ∷ ys) = false
same (x ∷ xs) [] = false
same (x ∷ xs) (y ∷ ys) = x == y && same xs ys

-- The path without its last name.
abbrev pub parent : Names → Names
parent [] = []
parent (x ∷ []) = []
parent (x ∷ y ∷ ys) = x ∷ parent (y ∷ ys)

unfoldable pub node : Nodes → Names → Option Node
node [] p = none
node ((q, n) ∷ t) p = if same q p then some n else node t p

abbrev is_directory_node : Option Node → Bool
is_directory_node (some (directory m)) = true
is_directory_node o = false

-- The directory itself is there.
abbrev pub is_directory : Nodes → Names → Bool
is_directory t p = null p || is_directory_node (node t p)

-- A directory that is not empty.
unfoldable pub has_child : Nodes → Names → Bool
has_child t p = any (λ (e : Names × Node). same (parent e.0) p) t

-- A path that exists gets another node.
unfoldable pub set : Nodes → Names → Node → Nodes
set [] p n = []
set ((q, m) ∷ t) p n = let rest = set t p n in if same q p then (q, n) ∷ t else (q, m) ∷ rest

unfoldable pub remove : Nodes → Names → Nodes
remove [] p = []
remove ((q, m) ∷ t) p = let rest = remove t p in if same q p then t else (q, m) ∷ rest

abbrev pub paths : Nodes → List Names
paths = map (λ (e : Names × Node). e.0)

-- Every path is in a directory.
abbrev pub IsTree : Nodes → Type 0
IsTree t = All (λ p. is_directory t (parent p) ≡ true) (paths t)

pub same_refl : (p : Names) → same p p ≡ true
same_refl [] = refl
same_refl (x ∷ xs) = ground (arith, eq_refl x, same_refl xs)

pub same-eq : (p q : Names) → same p q ≡ true → p ≡ q
same-eq [] [] h = refl
same-eq [] (y ∷ ys) h = cc
same-eq (x ∷ xs) [] h = cc
same-eq (x ∷ xs) (y ∷ ys) h = ground (arith, eq_iff x y, same-eq xs ys)

pub same-parent : (x : String) (xs : Names) → same (x ∷ xs) (parent (x ∷ xs)) ≡ false
same-parent x [] = refl
same-parent x (y ∷ ys) = ground (arith, same-parent y ys)

pub parent-same : (x : String) (xs : Names) → same (parent (x ∷ xs)) (x ∷ xs) ≡ false
parent-same x [] = refl
parent-same x (y ∷ ys) = ground (arith, parent-same y ys)

-- What is in no directory has no child.
pub no_child :
    (t s : Nodes) (p : Names)
    → All (λ q. is_directory s (parent q) ≡ true) (paths t)
    → is_directory s p ≡ false
    → has_child t p ≡ false
unfolding has_child
no_child [] s p h a = refl
no_child ((q, n) ∷ t) s p (h, hs) a = elim (Bool-cases (same (parent q) p)) [
  | inl e ↦ ground (arith, ap (is_directory s) (same-eq (parent q) p e))
  | inr e ↦ ground (arith, no_child t s p hs a)
]

-- A new path hides no directory.
is_directory-cons :
    (t : Nodes) (p q : Names) (n : Node)
    → is_directory t p ≡ false
    → is_directory t q ≡ true
    → is_directory ((p, n) ∷ t) q ≡ true
unfolding node
is_directory-cons t p q n a h = elim (Bool-cases (same p q)) [
  | inl e ↦ ground (arith, ap (is_directory t) (same-eq p q e))
  | inr e ↦ ground arith
]

All-map :
    {A : Type 0} (P Q : A → Type 0) (xs : List A) → ((x : A) → P x → Q x) → All P xs → All Q xs
All-map P Q [] f h = tt
All-map P Q (x ∷ xs) f (h, hs) = (f x h, All-map P Q xs f hs)

-- A new path in a directory keeps a tree.
pub cons-IsTree :
    (t : Nodes) (p : Names) (n : Node)
    → is_directory t p ≡ false
    → is_directory t (parent p) ≡ true
    → IsTree t
    → IsTree ((p, n) ∷ t)
cons-IsTree t p n a d h = (
  is_directory-cons t p (parent p) n a d,
  All-map (λ q. is_directory t (parent q) ≡ true) (λ q. is_directory ((p, n) ∷ t) (parent q) ≡ true)
      (paths t) (λ q e. is_directory-cons t p (parent q) n a e) h,
)

pub paths-set : (t : Nodes) (p : Names) (n : Node) → paths (set t p n) ≡ paths t
unfolding set
paths-set [] p n = refl
paths-set ((q, m) ∷ t) p n = elim (Bool-cases (same q p)) [
  | inl e ↦ rw e
  | inr e ↦ rw (e, paths-set t p n)
]

-- Writing a file over a file keeps the directories.
pub is_directory-set :
    (t : Nodes) (p q : Names) (c d : String) (m k : ℕ)
    → node t p ≡ some (file c m)
    → is_directory (set t p (file d k)) q ≡ is_directory t q
unfolding node set
is_directory-set [] p q c d m k h = cc
is_directory-set ((r, n) ∷ t) p q c d m k h =
    ground (arith, same-eq r p, is_directory-set t p q c d m k)

pub node-set :
    (t : Nodes) (p : Names) (n m : Node) → node t p ≡ some m → node (set t p n) p ≡ some n
unfolding node set
node-set [] p n m h = cc
node-set ((q, k) ∷ t) p n m h = ground (arith, node-set t p n m)

-- Writing the node back that was there.
pub set-set : (t : Nodes) (p : Names) (n m : Node) → node t p ≡ some m → set (set t p n) p m ≡ t
unfolding node set
set-set [] p n m h = cc
set-set ((q, k) ∷ t) p n m h = ground (arith, set-set t p n m)

pub set-IsTree :
    (t : Nodes) (p : Names) (c d : String) (m k : ℕ)
    → node t p ≡ some (file c m)
    → IsTree t
    → IsTree (set t p (file d k))
set-IsTree t p c d m k e h =
    subst (All (λ q. is_directory (set t p (file d k)) (parent q) ≡ true))
      (sym (paths-set t p (file d k)))
      (All-map (λ q. is_directory t (parent q) ≡ true)
        (λ q. is_directory (set t p (file d k)) (parent q) ≡ true) (paths t)
        (λ q g. is_directory-set t p (parent q) c d m k e ∙ g) h)
