-- ===== src/Prelude/Lists.antt =====
-- Lists measured and indexed by native numbers, and predicates on their elements.
use Prim.Native.Nat.{ℕ, zero, suc, ◌+◌, ◌-◌, ◌≤◌, ◌<◌}
use mathlib.Core.Path.{◌≡◌, refl, sym, ◌∙◌, ap}
use mathlib.Core.Logic.{◌⊎◌, ◌↔◌, inl, inr}
use mathlib.Core.Bool.{Bool, true, false, ◌&&◌, ◌||◌}
use mathlib.Core.List.{List, [], ◌∷◌, ◌++◌}
use mathlib.Core.Option.{Option, none, some}
use native.Mathlib.Omega.{arith}

pub &&-true : {a b : Bool} → (a && b) ≡ true → (a ≡ true) × (b ≡ true)
&&-true {a = true} {b = b} h = (refl, h)
&&-true {a = false} {b = b} h = cc

pub &&-intro : {a b : Bool} → a ≡ true → b ≡ true → (a && b) ≡ true
&&-intro {a = true} {b = b} h k = k
&&-intro {a = false} {b = b} h k = cc

pub ||-true : (a b : Bool) → (a || b) ≡ true → (a ≡ true) ⊎ (b ≡ true)
||-true true b h = inl refl
||-true false b h = inr h

pub ||-intro : (a b : Bool) → (a ≡ true) ⊎ (b ≡ true) → (a || b) ≡ true
||-intro true b h = refl
||-intro false b (inl h) = cc
||-intro false b (inr h) = h

module _ {ℓ} {A : Type ℓ} where
  abbrev pub length : List A → ℕ
  length [] = 0
  length (x ∷ xs) = suc (length xs)

  abbrev pub get_elem? : List A → ℕ → Option A
  get_elem? [] i = none
  get_elem? (x ∷ xs) zero = some x
  get_elem? (x ∷ xs) (suc i) = get_elem? xs i

  abbrev pub take : ℕ → List A → List A
  take zero xs = []
  take (suc n) [] = []
  take (suc n) (x ∷ xs) = x ∷ take n xs

  abbrev pub drop : ℕ → List A → List A
  drop zero xs = xs
  drop (suc n) [] = []
  drop (suc n) (x ∷ xs) = drop n xs

  pub drop_nil : (n : ℕ) → drop n [] ≡ []
  drop_nil zero = refl
  drop_nil (suc n) = refl

  pub length-append : (xs ys : List A) → length (xs ++ ys) ≡ length xs + length ys
  length-append [] ys = omega arith
  length-append (x ∷ xs) ys = omega (arith, length-append xs ys)

  pub length-drop : (n : ℕ) (xs : List A) → length (drop n xs) ≡ length xs - n
  length-drop zero xs = omega arith
  length-drop (suc n) [] = omega arith
  length-drop (suc n) (x ∷ xs) = omega (arith, length-drop n xs)

  pub length-take : (n : ℕ) (xs : List A) → n ≤ length xs → length (take n xs) ≡ n
  length-take zero xs h = refl
  length-take (suc n) [] h = elim h [ ]
  length-take (suc n) (x ∷ xs) h = ap suc (length-take n xs (omega arith))

  pub take_all : (xs : List A) → take (length xs) xs ≡ xs
  take_all [] = refl
  take_all (x ∷ xs) = ap (◌∷◌ x) (take_all xs)

  -- An index within a list has an element, the next one that `take` would take.
  pub get_elem?-total :
      (xs : List A) (i : ℕ)
      → i < length xs
      → (x : A) × (get_elem? xs i ≡ some x) × (take (suc i) xs ≡ take i xs ++ x ∷ [])
  get_elem?-total [] i h = elim h [ ]
  get_elem?-total (x ∷ xs) zero h = (x, refl, refl)
  get_elem?-total (x ∷ xs) (suc i) h =
      let (y, found, taken) = get_elem?-total xs i (omega arith) in (y, found, ap (◌∷◌ x) taken)

  -- The elements that `n` places hold at most, counted from the end.
  abbrev pub last : ℕ → List A → List A
  last n xs = drop (length xs - n) xs

  drop-drop : (m n : ℕ) (xs : List A) → drop m (drop n xs) ≡ drop (n + m) xs
  drop-drop m zero xs = ap (λ k. drop k xs) (omega arith)
  drop-drop m (suc n) [] = drop_nil m ∙ sym (drop_nil (suc n + m))
  drop-drop m (suc n) (x ∷ xs) =
      drop-drop m n xs ∙ ap (λ k. drop k (x ∷ xs)) {x = suc (n + m)} (omega arith)

  drop-append : (n : ℕ) (xs ys : List A) → n ≤ length xs → drop n (xs ++ ys) ≡ drop n xs ++ ys
  drop-append zero xs ys h = refl
  drop-append (suc n) [] ys h = elim h [ ]
  drop-append (suc n) (x ∷ xs) ys h = drop-append n xs ys (omega arith)

  -- What is cut off before an element is added is not missed after it.
  pub last-append-last :
      (n : ℕ) (xs : List A) (x : A) → last n (last n xs ++ x ∷ []) ≡ last n (xs ++ x ∷ [])
  last-append-last n xs x =
      let k : ℕ = length xs - n in
      rw (← drop-append k xs (x ∷ []) (omega arith)) (
        drop-drop (length (drop k (xs ++ x ∷ [])) - n) k (xs ++ x ∷ [])
        ∙ ap (λ i. drop i (xs ++ x ∷ []))
            (omega (arith, length-drop k (xs ++ x ∷ []), length-append xs (x ∷ []))))

  abbrev pub any : (A → Bool) → List A → Bool
  any p [] = false
  any p (x ∷ xs) = p x || any p xs

  abbrev pub all : (A → Bool) → List A → Bool
  all p [] = true
  all p (x ∷ xs) = p x && all p xs

abbrev pub All {ℓ κ} : {A : Type ℓ} → (A → Type κ) → List A → Type κ
All P [] = Unit
All P (x ∷ xs) = P x × All P xs

-- There is an element with the property, and which one.
abbrev pub Any {ℓ} : {A : Type ℓ} → (A → Type 0) → List A → Type 0
Any P [] = ⊥
Any P (x ∷ xs) = P x ⊎ Any P xs

-- Boolean tests on every element, and on some element, decide the predicates.
module _ {ℓ} {A : Type ℓ} (p : A → Bool) (P : A → Type 0)
    (agree : (a : A) → (p a ≡ true) ↔ P a) where
  all_sound : (xs : List A) → all p xs ≡ true → All P xs
  all_sound [] h = tt
  all_sound (x ∷ xs) h = ((agree x).0 (&&-true h).0, all_sound xs (&&-true h).1)

  all_complete : (xs : List A) → All P xs → all p xs ≡ true
  all_complete [] h = refl
  all_complete (x ∷ xs) (px, ps) = &&-intro ((agree x).1 px) (all_complete xs ps)

  pub all_iff : (xs : List A) → (all p xs ≡ true) ↔ All P xs
  all_iff xs = (all_sound xs, all_complete xs)

  any_sound : (xs : List A) → any p xs ≡ true → Any P xs
  any_sound [] h = cc
  any_sound (x ∷ xs) h = elim (||-true (p x) (any p xs) h) [
    | inl here ↦ inl ((agree x).0 here)
    | inr there ↦ inr (any_sound xs there)
  ]

  any_complete : (xs : List A) → Any P xs → any p xs ≡ true
  any_complete [] h = elim h [ ]
  any_complete (x ∷ xs) (inl px) = ||-intro (p x) (any p xs) (inl ((agree x).1 px))
  any_complete (x ∷ xs) (inr ps) = ||-intro (p x) (any p xs) (inr (any_complete xs ps))

  pub any_iff : (xs : List A) → (any p xs ≡ true) ↔ Any P xs
  any_iff xs = (any_sound xs, any_complete xs)
