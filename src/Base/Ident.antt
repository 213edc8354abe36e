-- ===== src/Base/Ident.antt =====
-- The identifier patterns `^H(?:T{0,n}H)?$` of the modules, read by `fullmatch`.
use Prim.Native.Nat.{ℕ, ◌+◌, ◌≤◌}
use Prim.Native.String.{String}
use mathlib.Core.Path.{◌≡◌}
use mathlib.Core.Bool.{Bool, true, false, ◌&&◌, ◌||◌}
use mathlib.Core.List.{List, [], ◌∷◌}
use native.Mathlib.Omega.{arith}
use jiritsu.Base.Test.{leb, eqb}
use jiritsu.Base.Text.{codes}
use jiritsu.Base.Lists.{length}

abbrev pub is_digit : ℕ → Bool
is_digit c = leb b'0' c && leb c b'9'

abbrev pub is_lower : ℕ → Bool
is_lower c = leb b'a' c && leb c b'z'

abbrev pub is_upper : ℕ → Bool
is_upper c = leb b'A' c && leb c b'Z'

-- `[a-z0-9]` and `[a-z0-9._-]`
abbrev pub lower_end : ℕ → Bool
lower_end c = is_lower c || is_digit c

abbrev pub lower_inner : ℕ → Bool
lower_inner c = lower_end c || eqb c b'.' || eqb c b'_' || eqb c b'-'

-- `[a-zA-Z0-9]` and `[a-zA-Z0-9._:-]`
abbrev pub mixed_end : ℕ → Bool
mixed_end c = is_lower c || is_upper c || is_digit c

abbrev pub mixed_inner : ℕ → Bool
mixed_inner c = mixed_end c || eqb c b'.' || eqb c b'_' || eqb c b':' || eqb c b'-'

module _ (ends inner : ℕ → Bool) where
  -- `T*H`: some inner characters, and an end character last.
  tail_matches : List ℕ → Bool
  tail_matches [] = false
  tail_matches (c ∷ []) = ends c
  tail_matches (c ∷ d ∷ cs) = inner c && tail_matches (d ∷ cs)

  -- `H(?:T{0,n}H)?`
  unfoldable pub full_match : ℕ → List ℕ → Bool
  unfolding tail_matches
  full_match n [] = false
  full_match n (c ∷ []) = ends c
  full_match n (c ∷ d ∷ cs) = ends c && leb (length cs) n && tail_matches (d ∷ cs)

  -- A text that matches is not empty and has at most n + 2 characters.
  pub full_match-length :
      (n : ℕ) (cs : List ℕ) → full_match n cs ≡ true → (1 ≤ length cs) × (length cs ≤ n + 2)
  unfolding full_match
  full_match-length n [] h = cc
  full_match-length n (c ∷ []) h = omega arith
  full_match-length n (c ∷ d ∷ cs) h = ground arith

-- `^[a-z0-9](?:[a-z0-9._-]{0,62}[a-z0-9])?$`
unfoldable pub lower_id : String → Bool
unfolding full_match
lower_id s = full_match lower_end lower_inner 62 (codes s)

-- `^[a-z0-9](?:[a-z0-9._-]{0,126}[a-z0-9])?$`
unfoldable pub selector_id : String → Bool
unfolding full_match
selector_id s = full_match lower_end lower_inner 126 (codes s)

-- `^[a-zA-Z0-9](?:[a-zA-Z0-9._:-]{0,126}[a-zA-Z0-9])?$`
unfoldable pub mixed_id : String → Bool
unfolding full_match
mixed_id s = full_match mixed_end mixed_inner 126 (codes s)
