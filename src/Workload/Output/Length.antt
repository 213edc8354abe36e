-- ===== src/Workload/Output/Length.antt =====
-- How long the output of a process is, once shortened.
use Prim.Native.String.{◌++◌}
use Prim.Native.String.append
use jiritsu.Base.{
  ℕ, zero, suc, ◌+◌, ◌-◌, ◌≤◌, leb, String, ◌≡◌, ap, ◌∙◌, arith, inl, inr, Bool-cases, length,
  codes,
}
use jiritsu.Workload.Output.{strip, take, output_limit, short_output}

length-take : (n : ℕ) (s : String) → length (codes (take n s)) ≤ n
unfolding take
length-take zero s = omega arith
length-take (suc n) String.[] = omega arith
length-take (suc n) (String.◌∷◌ c s) = omega (arith, length-take n s)

length-append : (s t : String) → length (codes (s ++ t)) ≡ length (codes s) + length (codes t)
length-append String.[] t = ap (λ u. length (codes u)) (append.nil t) ∙ omega arith
length-append (String.◌∷◌ c s) t =
    ap (λ u. length (codes u)) (append.cons c s t) ∙ omega (arith, length-append s t)

-- A shortened output has at most 500 characters, whatever the output.
pub length-short_output : (s : String) → length (codes (short_output s)) ≤ output_limit
unfolding short_output
length-short_output s = elim (Bool-cases (leb (length (codes (strip s))) output_limit)) [
  | inl q ↦ ground (arith, q)
  | inr q ↦ rw q (
      omega (
        arith,
        length-append (take (output_limit - 3) (strip s)) "...",
        length-take (output_limit - 3) (strip s),
      ))
]
