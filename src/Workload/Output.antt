-- ===== src/Workload/Output.antt =====
-- The texts that processes leave: `str.strip`, and `_short_output` of state.py and probes.py.
pub mod Length
use Prim.Native.Char.{code}
use jiritsu.Base.{
  ℕ, zero, suc, ◌-◌, leb, String, ◌<>◌, ◌&&◌, ◌==◌, length, codes, is_space, if◌then◌else◌,
}

strip_left : String → String
unfolding is_space
strip_left String.[] = ""
strip_left (String.◌∷◌ c s) =
    let rest = strip_left s in if is_space (code c) then rest else String.◌∷◌ c s

strip_right : String → String
unfolding is_space
strip_right String.[] = ""
strip_right (String.◌∷◌ c s) =
    let rest = strip_right s in if (rest == "") && is_space (code c) then "" else String.◌∷◌ c rest

-- `s.strip()`
unfoldable pub strip : String → String
unfolding strip_left strip_right
strip s = strip_right (strip_left s)

-- `s[:n]`
unfoldable pub take : ℕ → String → String
take zero s = ""
take (suc n) String.[] = ""
take (suc n) (String.◌∷◌ c s) = String.◌∷◌ c (take n s)

abbrev pub output_limit : ℕ
output_limit = 500

unfoldable pub short_output : String → String
unfolding strip take
short_output s =
    if leb (length (codes (strip s))) output_limit
    then strip s
    else take (output_limit - 3) (strip s) <> "..."
