-- ===== src/Json/Numbers.antt =====
-- Numbers of JSON as Python compares them: integers and finite floats exactly, a NaN never.
use jiritsu.Base.{
  ℕ, ◌-◌, ◌*◌, ◌^◌, eqb, leb, Bool, true, false, not, ◌&&◌, ◌||◌, if◌then◌else◌, Option, none, some,
}
use jiritsu.Json.{Number, int, float, infinity, nan, Value, bool, num}

-- The least integer that `float` refuses: halfway to 2 ^ 1024 above the largest float.
unfoldable pub float_limit : ℕ
float_limit = 2 ^ 1024 - 2 ^ 970

-- `n <= 0`, false of a NaN
unfoldable pub at_most_zero : Number → Bool
at_most_zero (int minus k) = minus || eqb k 0
at_most_zero (float minus m s) = minus || eqb m 0
at_most_zero (infinity minus) = minus
at_most_zero nan = false

-- The sign, the numerator and the exponent of the denominator, of a finite number.
numerator : Number → ℕ
numerator (int minus k) = k
numerator (float minus m s) = m
numerator n = 0

exponent : Number → ℕ
exponent (float minus m s) = s
exponent n = 0

negative : Number → Bool
negative (int minus k) = minus && not (eqb k 0)
negative (float minus m s) = minus && not (eqb m 0)
negative (infinity minus) = minus
negative nan = false

is_nan : Number → Bool
is_nan nan = true
is_nan n = false

is_infinite : Number → Bool
is_infinite (infinity minus) = true
is_infinite n = false

-- `abs(m) <= abs(n)`, with a denominator that both share
magnitude_le : Number → Number → Bool
unfolding numerator exponent is_infinite
magnitude_le m n =
    if is_infinite n
    then true
    else if is_infinite m
    then false
    else leb (numerator m * 2 ^ exponent n) (numerator n * 2 ^ exponent m)

-- `m <= n`, false of a NaN
unfoldable pub num_le : Number → Number → Bool
unfolding negative is_nan magnitude_le
num_le m n =
    if is_nan m || is_nan n
    then false
    else if negative m
    then (if negative n then magnitude_le n m else true)
    else if negative n
    then false
    else magnitude_le m n

-- `m == n`
unfoldable pub num_eq : Number → Number → Bool
unfolding num_le
num_eq m n = num_le m n && num_le n m

-- The number that a value compares as: a Boolean is 0 or 1.
unfoldable pub number_of : Value → Option Number
number_of (num n) = some n
number_of (bool b) = some (int false (if b then 1 else 0))
number_of v = none
