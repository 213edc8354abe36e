-- ===== src/Proposals/Paths.antt =====
-- The paths that the validation accepts, described by their segments.
use Prim.Native.Char.{Char, code}
use Prim.Native.String.append
use jiritsu.Base.{
  String, ◌<>◌, ◌==◌, starts_with, eq_iff, Bool, true, false, not, ◌||◌, List, [], ◌∷◌, ◌≡◌, refl,
  sym, ap, ◌∙◌, subst, ◌⊎◌, inl, inr, arith, eqb, All, contains, any, codes, split, join, prepend,
  Bool-cases,
}
use jiritsu.Proposals.Validation.{is_relative, parts, as_posix}

-- A segment has a name: it is not empty, nor the directory itself, nor the one above.
abbrev pub IsName : String → Type 0
IsName t = ((t == "") ≡ false) × ((t == ".") ≡ false) × ((t == "..") ≡ false)

-- A path below a directory: it is not absolute nor of a home directory, and all of its segments are
-- names, or it is the directory itself.
abbrev pub IsPathBelow : String → Type 0
IsPathBelow s =
    (starts_with "/" s ≡ false)
    × (starts_with "~" s ≡ false)
    × ((s ≡ ".") ⊎ All IsName (split 47 s))

abbrev is_plain : String → Bool
is_plain s = not (any (λ c. eqb c 47) (codes s))

prepend-eq : (c : Char) (t : String) → String.◌∷◌ c String.[] <> t ≡ String.◌∷◌ c t
prepend-eq c t = append.cons c String.[] t ∙ ap (String.◌∷◌ c) (append.nil t)

prepend-plain :
    (c : Char) (ts : List String)
    → eqb (code c) 47 ≡ false
    → All (λ t. is_plain t ≡ true) ts
    → All (λ t. is_plain t ≡ true) (prepend (String.◌∷◌ c String.[]) ts)
unfolding prepend
prepend-plain c [] h a = (rw h refl, tt)
prepend-plain c (t ∷ ts) h (a, hs) =
    (subst (λ u. is_plain u ≡ true) (sym (prepend-eq c t)) (rw h a), hs)

split-plain : (s : String) → All (λ t. is_plain t ≡ true) (split 47 s)
unfolding split
split-plain String.[] = (refl, tt)
split-plain (String.◌∷◌ c s) = elim (Bool-cases (eqb (code c) 47)) [
  | inl q ↦ rw q (refl, split-plain s)
  | inr q ↦ rw q (prepend-plain c (split 47 s) q (split-plain s))
]

split-of-plain : (p : String) → is_plain p ≡ true → split 47 p ≡ p ∷ []
unfolding split prepend
split-of-plain String.[] h = refl
split-of-plain (String.◌∷◌ c s) h =
    let q : eqb (code c) 47 ≡ false = ground (arith, h) in
    rw (q, split-of-plain s (rw q at h)) (ap (λ u. u ∷ []) (prepend-eq c s))

split-append : (p r : String) → is_plain p ≡ true → split 47 (p <> ("/" <> r)) ≡ p ∷ split 47 r
unfolding split prepend
split-append String.[] r h = ap (split 47) (append.nil ("/" <> r) ∙ prepend-eq _ r)
split-append (String.◌∷◌ c s) r h =
    let q : eqb (code c) 47 ≡ false = ground (arith, h) in
    ap (split 47) (append.cons c s ("/" <> r))
    ∙ rw (q, split-append s r (rw q at h)) (ap (λ u. u ∷ split 47 r) (prepend-eq c s))

split-join :
    (p : String) (ps : List String)
    → All (λ t. is_plain t ≡ true) (p ∷ ps)
    → split 47 (join "/" (p ∷ ps)) ≡ p ∷ ps
unfolding join
split-join p [] (h, hs) = split-of-plain p h
split-join p (q ∷ ps) (h, hs) =
    split-append p (join "/" (q ∷ ps)) h ∙ ap (λ u. p ∷ u) (split-join q ps hs)

-- The parts of a path are segments of it that are names, but for the directory above.
parts-plain :
    (ts : List String) → All (λ t. is_plain t ≡ true) ts → All (λ t. is_plain t ≡ true) (parts ts)
unfolding parts
parts-plain [] h = tt
parts-plain (t ∷ ts) (h, hs) = elim (Bool-cases ((t == "") || (t == "."))) [
  | inl q ↦ rw q (parts-plain ts hs)
  | inr q ↦ rw q (h, parts-plain ts hs)
]

parts-names : (ts : List String) → contains (parts ts) ".." ≡ false → All IsName (parts ts)
unfolding parts
parts-names [] h = tt
parts-names (t ∷ ts) h = elim (Bool-cases ((t == "") || (t == "."))) [
  | inl q ↦ rw q (parts-names ts (rw q at h))
  | inr q ↦
      let k : (t == ".." || contains (parts ts) "..") ≡ false = rw q at h in
      rw q ((ground arith, ground arith, ground arith), parts-names ts (ground arith))
]

as_posix-names :
    (s : String) (ps : List String)
    → s ≡ as_posix ps
    → All (λ t. is_plain t ≡ true) ps
    → All IsName ps
    → (s ≡ ".") ⊎ All IsName (split 47 s)
unfolding as_posix
as_posix-names s [] e a n = inl e
as_posix-names s (p ∷ ps) e a n =
    inr (subst (All IsName) (sym (ap (split 47) e ∙ split-join p ps a)) n)

pub is_relative-IsPathBelow : (s : String) → is_relative s ≡ true → IsPathBelow s
unfolding is_relative
is_relative-IsPathBelow s h =
    let names = parts (split 47 s) in
    (
      ground (arith, h),
      ground (arith, h),
      as_posix-names s names ((eq_iff s (as_posix names)).0 (ground (arith, h)))
          (parts-plain (split 47 s) (split-plain s)) (parts-names (split 47 s) (ground (arith, h))),
    )
