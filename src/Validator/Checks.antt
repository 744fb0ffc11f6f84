-- ===== src/Validator/Checks.antt =====
-- Checks put together: each adds to a report, and decides one thing about a configuration.
use pmp_mock_http.Prelude.{
  String, Bool, true, false, not, ◌&&◌, Option, none, some, List, [], ◌∷◌, ◌++◌, ◌≡◌, refl, arith,
  if◌then◌else◌,
}
use pmp_mock_http.Matcher.Criteria.{is_empty}
use pmp_mock_http.Validator.Report.{ValidationResult, reject, reject_if, reject_error, warn_if}

-- A report is valid exactly if it has no errors.
abbrev pub IsConsistent : ValidationResult → Type 0
IsConsistent result = result.valid ≡ is_empty result.errors

-- A check keeps a report valid exactly if `holds`, and keeps it consistent.
pub record Checks (check : ValidationResult → ValidationResult) (holds : Bool) : Type 0 where
  pub decides : (result : ValidationResult) → (check result).valid ≡ (result.valid && holds)
  pub keeps : (result : ValidationResult) → IsConsistent result → IsConsistent (check result)

pub is_none {ℓ} : {A : Type ℓ} → Option A → Bool
is_none none = true
is_none (some a) = false

is_empty-append : (xs : List String) (s : String) → is_empty (xs ++ s ∷ []) ≡ false
is_empty-append [] s = refl
is_empty-append (x ∷ xs) s = refl

&&-false : (b : Bool) → (b && false) ≡ false
&&-false true = refl
&&-false false = refl

&&-identity : (b : Bool) → (b && true) ≡ b
&&-identity true = refl
&&-identity false = refl

pub Checks-same : Checks (λ result. result) true
Checks-same = record { decides = λ result. ground arith; keeps = λ result h. h }

pub Checks-reject : (message : String) → Checks (reject message) false
unfolding reject
Checks-reject message = record {
  decides = λ result. ground arith;
  keeps = λ result h. ground (arith, is_empty-append result.errors message);
}

pub Checks-reject_if : (bad : Bool) (message : String) → Checks (reject_if bad message) (not bad)
unfolding reject_if
Checks-reject_if true message = Checks-reject message
Checks-reject_if false message = Checks-same

pub Checks-warn_if : (bad : Bool) (message : String) → Checks (warn_if bad message) true
unfolding warn_if
Checks-warn_if bad message = record {
  decides = λ result. ground arith;
  keeps = λ result h. ground (arith, h);
}

pub Checks-reject_error :
    (o : Option String) (message : String) → Checks (reject_error o message) (is_none o)
unfolding reject_error is_none
Checks-reject_error none message = Checks-same
Checks-reject_error (some e) message = Checks-reject _

module _ {f g : ValidationResult → ValidationResult} {a b : Bool} where
  pub Checks-then : Checks f a → Checks g b → Checks (λ result. g (f result)) (a && b)
  Checks-then first second = record {
    decides = λ result. ground (arith, first.decides result, second.decides (f result));
    keeps = λ result h. second.keeps (f result) (first.keeps result h);
  }

  pub Checks-if :
      (test : Bool)
      → Checks f a
      → Checks g b
      → Checks (λ result. if test then f result else g result) (if test then a else b)
  Checks-if true then_ else_ = then_
  Checks-if false then_ else_ = else_
