-- ===== src/Prelude/Text.antt =====
-- Text as the program builds it: concatenation, and decimal numbers (`%d` of fmt).
use Prim.Native.Nat.{ℕ, zero, suc, ◌+◌, ◌-◌, ◌*◌, ◌/◌, ◌%◌, ◌<◌}
use Prim.Native.Char.{Char, code}
use Prim.Native.String.{String, ◌++◌ as ◌<>◌, len, slice}
use mathlib.Core.Path.{◌≡◌, refl, sym, ◌∙◌, ap}
use mathlib.Core.Logic.{inl, inr}
use mathlib.Core.List.{List, [], ◌∷◌}
use mathlib.Core.Option.{none, some}
use native.Mathlib.Omega.{arith}
use mathlib.Core.Bool.{Bool, true, false, ◌&&◌}
use text.Mathlib.Text.{find?, starts_with}
use text.Mathlib.TextPositions.{len-append, slice-append_right, starts_with-append}
use text.Mathlib.TextLemmas.{nil-append, cons-append, append_cancel_left}
use pmp_mock_http.Prelude.Tests.{ltb, nat_eq, if◌then◌else◌, Bool-cases}

-- The runes of a text.
abbrev pub codes : String → List ℕ
codes String.[] = []
codes (String.◌∷◌ c s) = code c ∷ codes s

-- strings.Contains
abbrev pub contains : String → String → Bool
contains s sub = elim (find? s sub) [ none ↦ false | some i ↦ true ]

-- strings.Split(text, separator) for a separator of one rune, with the part that is being read.
unfoldable pub split : ℕ → String → String → List String
split separator current String.[] = current ∷ []
split separator current (String.◌∷◌ c s) =
    let ended = current ∷ split separator "" s in
    let more = split separator (current <> String.◌∷◌ c "") s in
    if nat_eq (code c) separator then ended else more

-- strings.TrimPrefix
unfoldable pub trim_prefix : String → String → String
trim_prefix s prefix = if starts_with s prefix then slice s (len prefix) (len s) else s

pub trim_prefix-append : (prefix s : String) → trim_prefix (prefix <> s) prefix ≡ s
unfolding trim_prefix
trim_prefix-append prefix s =
    rw (starts_with-append prefix s) (rw (len-append prefix s) (slice-append_right prefix s))

digit : ℕ → String
digit zero = "0"
digit (suc zero) = "1"
digit (suc (suc zero)) = "2"
digit (suc (suc (suc zero))) = "3"
digit (suc (suc (suc (suc zero)))) = "4"
digit (suc (suc (suc (suc (suc zero))))) = "5"
digit (suc (suc (suc (suc (suc (suc zero)))))) = "6"
digit (suc (suc (suc (suc (suc (suc (suc zero))))))) = "7"
digit (suc (suc (suc (suc (suc (suc (suc (suc zero)))))))) = "8"
digit _ = "9"

decimal_from : ℕ → ℕ → String
unfolding digit
decimal_from zero n = ""
decimal_from (suc f) n =
    let more = decimal_from f (n / 10) <> digit (n % 10) in if ltb n 10 then digit n else more

-- `%d` of a number that is not negative.
unfoldable pub decimal : ℕ → String
unfolding decimal_from
decimal n = decimal_from (suc n) n

-- Reading digits back, to see that `decimal` prints different numbers differently.
read_from : ℕ → String → ℕ
read_from acc String.[] = acc
read_from acc (String.◌∷◌ c s) = read_from (acc * 10 + (code c - 48)) s

read_from-append : (acc : ℕ) (s t : String) → read_from acc (s <> t) ≡ read_from (read_from acc s) t
unfolding read_from
read_from-append acc String.[] t = rw nil-append
read_from-append acc (String.◌∷◌ c s) t =
    rw cons-append (read_from-append (acc * 10 + (code c - 48)) s t)

read_from-digit : (acc d : ℕ) → d < 10 → read_from acc (digit d) ≡ acc * 10 + d
unfolding read_from digit
read_from-digit acc zero h = refl
read_from-digit acc (suc zero) h = refl
read_from-digit acc (suc (suc zero)) h = refl
read_from-digit acc (suc (suc (suc zero))) h = refl
read_from-digit acc (suc (suc (suc (suc zero)))) h = refl
read_from-digit acc (suc (suc (suc (suc (suc zero))))) h = refl
read_from-digit acc (suc (suc (suc (suc (suc (suc zero)))))) h = refl
read_from-digit acc (suc (suc (suc (suc (suc (suc (suc zero))))))) h = refl
read_from-digit acc (suc (suc (suc (suc (suc (suc (suc (suc zero)))))))) h = refl
read_from-digit acc (suc (suc (suc (suc (suc (suc (suc (suc (suc zero))))))))) h = refl
read_from-digit acc (suc (suc (suc (suc (suc (suc (suc (suc (suc (suc n)))))))))) h =
    absurd (omega arith)

read_from-decimal_from : (f n : ℕ) → n < f → read_from 0 (decimal_from f n) ≡ n
unfolding decimal_from
read_from-decimal_from zero n h = elim h [ ]
read_from-decimal_from (suc f) n h = elim (Bool-cases (ltb n 10)) [
  | inl small ↦ rw small (rw (read_from-digit 0 n (ground arith)) (omega arith))
  | inr large ↦ rw large (
      rw (read_from-append 0 (decimal_from f (n / 10)) (digit (n % 10))) (
        rw (read_from-decimal_from f (n / 10) (ground arith))
          (rw (read_from-digit (n / 10) (n % 10) (omega arith)) (omega arith))))
]

pub decimal_injective : (a b : ℕ) → decimal a ≡ decimal b → a ≡ b
unfolding decimal
decimal_injective a b h =
    sym (read_from-decimal_from (suc a) a (omega arith))
    ∙ ap (read_from 0) h
    ∙ read_from-decimal_from (suc b) b (omega arith)

-- Two numbers after one prefix.
pub prefix-decimal_injective :
    (prefix : String) (a b : ℕ) → prefix <> decimal a ≡ prefix <> decimal b → a ≡ b
prefix-decimal_injective prefix a b h =
    decimal_injective a b (append_cancel_left prefix (decimal a) (decimal b) h)

-- What holds of the ten digits holds of every rune of a printed number.
unfoldable pub all_runes : (Char → Bool) → String → Bool
all_runes p String.[] = true
all_runes p (String.◌∷◌ c s) = p c && all_runes p s

pub all_runes-append :
    (p : Char → Bool) (s t : String)
    → all_runes p s ≡ true
    → all_runes p t ≡ true
    → all_runes p (s <> t) ≡ true
unfolding all_runes
all_runes-append p String.[] t h k = rw nil-append k
all_runes-append p (String.◌∷◌ c s) t h k =
    rw (cons-append c s t) (ground (arith, all_runes-append p s t))

all_runes-nil : (p : Char → Bool) → all_runes p "" ≡ true
unfolding all_runes
all_runes-nil p = refl

all_runes-digit :
    (p : Char → Bool) (d : ℕ) → all_runes p "0123456789" ≡ true → all_runes p (digit d) ≡ true
unfolding all_runes digit
all_runes-digit p zero h = ground arith
all_runes-digit p (suc zero) h = ground arith
all_runes-digit p (suc (suc zero)) h = ground arith
all_runes-digit p (suc (suc (suc zero))) h = ground arith
all_runes-digit p (suc (suc (suc (suc zero)))) h = ground arith
all_runes-digit p (suc (suc (suc (suc (suc zero))))) h = ground arith
all_runes-digit p (suc (suc (suc (suc (suc (suc zero)))))) h = ground arith
all_runes-digit p (suc (suc (suc (suc (suc (suc (suc zero))))))) h = ground arith
all_runes-digit p (suc (suc (suc (suc (suc (suc (suc (suc zero)))))))) h = ground arith
all_runes-digit p (suc (suc (suc (suc (suc (suc (suc (suc (suc n))))))))) h = ground arith

all_runes-decimal_from :
    (p : Char → Bool) (f n : ℕ)
    → all_runes p "0123456789" ≡ true
    → all_runes p (decimal_from f n) ≡ true
unfolding decimal_from
all_runes-decimal_from p zero n h = all_runes-nil p
all_runes-decimal_from p (suc f) n h = elim (Bool-cases (ltb n 10)) [
  | inl small ↦ rw small (all_runes-digit p n h)
  | inr large ↦ rw large (
      all_runes-append p (decimal_from f (n / 10)) (digit (n % 10))
        (all_runes-decimal_from p f (n / 10) h) (all_runes-digit p (n % 10) h))
]

pub all_runes-decimal :
    (p : Char → Bool) (n : ℕ) → all_runes p "0123456789" ≡ true → all_runes p (decimal n) ≡ true
unfolding decimal
all_runes-decimal p n h = all_runes-decimal_from p (suc n) n h

decimal_example : decimal 1203 ≡ "1203"
unfolding decimal
decimal_example = refl
