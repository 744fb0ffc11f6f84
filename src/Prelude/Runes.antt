-- ===== src/Prelude/Runes.antt =====
-- Go's conversion of a rune to a string.
use Prim.Native.Nat.{ℕ, compare, Ordering}
use Prim.Native.Char.{Char, char, IsLt}
use Prim.Native.String.{String}
use mathlib.Core.Path.{◌≡◌, refl}
use Prim.{tt}

-- The comparisons by which `IsScalar` tells the Unicode scalar values.
abbrev Both : Ordering → Ordering → Type 0
Both Ordering.lt o = IsLt o
Both Ordering.eq o = IsLt Ordering.eq
Both Ordering.gt o = IsLt Ordering.eq

abbrev Scalar : Ordering → Ordering → Ordering → Type 0
Scalar Ordering.lt o p = IsLt Ordering.lt
Scalar Ordering.eq o p = Both o p
Scalar Ordering.gt o p = Both o p

replacement : Char
replacement = char 65533 tt

above : (o p : Ordering) → (Both o p → Char) → Char
unfolding replacement
above Ordering.lt Ordering.lt f = f tt
above Ordering.lt Ordering.eq f = replacement
above Ordering.lt Ordering.gt f = replacement
above Ordering.eq p f = replacement
above Ordering.gt p f = replacement

valid_or_replacement : (o p q : Ordering) → (Scalar o p q → Char) → Char
unfolding above
valid_or_replacement Ordering.lt p q f = f tt
valid_or_replacement Ordering.eq p q f = above p q f
valid_or_replacement Ordering.gt p q f = above p q f

-- `string(rune(n))`: U+FFFD for a number that is no scalar value.
unfoldable pub rune_text : ℕ → String
unfolding valid_or_replacement
rune_text n =
    String.◌∷◌
      (valid_or_replacement (compare n 55296) (compare 57343 n) (compare n 1114112) (char n))
      String.[]

rune_text_example : rune_text 65 ≡ "A"
unfolding rune_text
rune_text_example = refl
