-- ===== src/Json.antt =====
-- JSON values, as the modules read and write them. A dictionary is the list of its entries.
pub mod Numbers
use jiritsu.Base.{ℕ, String, Bool, Option, none, some, List, [], ◌∷◌, ◌==◌, if◌then◌else◌}

-- A finite float is `mantissa / 2 ^ scale`, exactly; `minus` is the sign.
pub data Number : Type 0 where
  int : (minus : Bool) (magnitude : ℕ) → Number
  float : (minus : Bool) (mantissa scale : ℕ) → Number
  infinity : (minus : Bool) → Number
  nan : Number

mutual
  pub data Value : Type 0 where
    null : Value
    bool : Bool → Value
    num : Number → Value
    str : String → Value
    obj : Fields → Value
    arr : Items → Value

  pub data Fields : Type 0 where
    end : Fields
    field : String → Value → Fields → Fields

  pub data Items : Type 0 where
    no_items : Items
    item : Value → Items → Items

-- `d.get(k)`, with `none` for a key that is not there
unfoldable pub get : Fields → String → Option Value
get end k = none
get (field j v fs) k = if j == k then some v else get fs k

-- `set(d)`
unfoldable pub keys : Fields → List String
keys end = []
keys (field j v fs) = j ∷ keys fs

abbrev pub values : Items → List Value
values no_items = []
values (item v vs) = v ∷ values vs

abbrev pub items : List Value → Items
items [] = no_items
items (v ∷ vs) = item v (items vs)

abbrev pub dict : List (String × Value) → Fields
dict [] = end
dict ((k, v) ∷ fs) = field k v (dict fs)

-- `d.get(k, default)`
abbrev pub get_or : Fields → String → Value → Value
get_or d k v = elim (get d k) [ none ↦ v | some w ↦ w ]

-- The texts of a list, in order.
unfoldable pub texts : List Value → List String
texts [] = []
texts (str s ∷ vs) = s ∷ texts vs
texts (v ∷ vs) = texts vs
