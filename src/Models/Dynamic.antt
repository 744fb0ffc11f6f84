-- ===== src/Models/Dynamic.antt =====
-- Go's dynamic values (`interface{}`), as a JSON or JavaScript library hands them over, and the
-- order of `float64`.
use Prim.Native.Nat.{ℕ, ◌%◌, ◌^◌}
use Prim.Native.String.{String}
use mathlib.Core.Bool.{Bool, false, not, ◌&&◌, ◌||◌}
use mathlib.Core.Option.{Option, none, some}
use pmp_mock_http.Prelude.{ltb, leb, nat_eq, ◌==◌, if◌then◌else◌}
use pmp_mock_http.Prelude.{ℤ}

-- A `float64` by its 64 bits in IEEE 754.
pub record Float64 : Type 0 where
  pub bits : ℕ

mutual
  pub data Value : Type 0 where
    null : Value
    boolean : Bool → Value
    int64 : ℤ → Value
    float64 : Float64 → Value
    text : String → Value
    slice : Items → Value
    object : Items → Value

  -- The elements of a slice, or the entries of a map with their keys (a slice has the keys "").
  pub data Items : Type 0 where
    nil : Items
    cons : String → Value → Items → Items

magnitude : Float64 → ℕ
magnitude a = a.bits % 2 ^ 63

-- 0x7FF0000000000000 is the infinity.
is_nan : Float64 → Bool
unfolding magnitude
is_nan a = ltb 0x7FF0000000000000 (magnitude a)

is_negative : Float64 → Bool
is_negative a = leb (2 ^ 63) a.bits

-- `a < b`: false if one is NaN; the two zeros are equal.
unfoldable pub lt_float64 : Float64 → Float64 → Bool
unfolding magnitude is_nan is_negative
lt_float64 a b =
    if is_nan a || is_nan b
    then false
    else if is_negative a
    then (if is_negative b
        then ltb (magnitude b) (magnitude a)
        else not (nat_eq (magnitude a) 0 && nat_eq (magnitude b) 0))
    else not (is_negative b) && ltb (magnitude a) (magnitude b)

-- `m[key]` of a map.
unfoldable pub field? : Items → String → Option Value
field? nil key = none
field? (cons k v rest) key = if k == key then some v else field? rest key
