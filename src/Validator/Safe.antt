-- ===== src/Validator/Safe.antt =====
-- What the server may rely on once the mocks are validated: the chaos of a response.
use pmp_mock_http.Prelude.{
  ℕ, zero, suc, ℤ, pos, negsuc, Bool, true, not, Option, none, some, List, [], ◌∷◌, length,
  get_elem?, all, ◌≡◌, sym, ◌∙◌, arith, Bool-cases, inl, inr,
}
use pmp_mock_http.Models.{Mock, ChaosConfig, lt_float64}
use pmp_mock_http.Server.Types.{Rolls}
use pmp_mock_http.Server.Chances.{picked, waits, fails, failure, apply_chaos}
use pmp_mock_http.Server.Answer.{valid_code}
use pmp_mock_http.Validator.Report.{ValidatorExternals}
use pmp_mock_http.Validator.Response.{unusual}
use pmp_mock_http.Validator.Mocks.{validate_mocks}
use pmp_mock_http.Validator.Sound.{chaos_ok, mock_ok}
use pmp_mock_http.Validator.Valid.{validate_mocks-valid}

all-get {ℓ} :
    {A : Type ℓ} (p : A → Bool) (xs : List A) (i : ℕ) (a : A)
    → all p xs ≡ true
    → get_elem? xs i ≡ some a
    → p a ≡ true
all-get p [] i a h e = cc
all-get p (x ∷ xs) zero a h e = ground (arith, h, e)
all-get p (x ∷ xs) (suc i) a h e = ground (arith, all-get p xs i a)

picked-fails : (o : Option ℤ) (code : ℤ) → picked o ≡ fails code → o ≡ some code
unfolding picked
picked-fails none code e = cc
picked-fails (some c) code e = cc

waits-never_fails : (o : Option ℤ) (code : ℤ) → ¬ (waits o ≡ fails code)
unfolding waits
waits-never_fails none code e = absurd (cc e)
waits-never_fails (some latency) code e = absurd (cc e)

failure-listed :
    (rolls : Rolls) (c : ChaosConfig) (codes : List ℤ) (code : ℤ)
    → failure rolls c codes ≡ fails code
    → (i : ℕ) × (get_elem? codes i ≡ some code)
unfolding failure
failure-listed rolls c [] code e = absurd (waits-never_fails _ code e)
failure-listed rolls c (first ∷ codes) code e =
    elim (Bool-cases (lt_float64 rolls.failure c.failure_rate)) [
      | inl hit ↦ (rolls.error_code (length (first ∷ codes)), picked-fails _ code (rw hit at e))
      | inr miss ↦ absurd (waits-never_fails _ code (rw miss at e))
    ]

valid-of_usual : (code : ℤ) → not (unusual code) ≡ true → valid_code code ≡ true
valid-of_usual (pos n) h = ground arith
valid-of_usual (negsuc n) h = ground arith

chaos-valid :
    (rolls : Rolls) (chaos : Option ChaosConfig) (code : ℤ)
    → chaos_ok chaos ≡ true
    → apply_chaos rolls chaos ≡ fails code
    → valid_code code ≡ true
unfolding apply_chaos
chaos-valid rolls none code h e = absurd (cc e)
chaos-valid rolls (some c) code h e = elim (Bool-cases c.enabled) [
  | inl on ↦
      let (i, listed) = failure-listed rolls c c.error_codes code (ground arith) in
      valid-of_usual code
        (all-get (λ code. not (unusual code)) c.error_codes i code (ground arith) listed)
  | inr off ↦ ground arith
]

-- If the validator reports the mocks as valid, every code with which the chaos of the response of
-- one of them fails is one that WriteHeader accepts, whatever math/rand draws.
pub validated-chaos-valid :
    (x : ValidatorExternals) (mocks : List Mock) (rolls : Rolls) (i : ℕ) (mock : Mock) (code : ℤ)
    → (validate_mocks x mocks).valid ≡ true
    → get_elem? mocks i ≡ some mock
    → apply_chaos rolls mock.response.chaos ≡ fails code
    → valid_code code ≡ true
validated-chaos-valid x mocks rolls i mock code valid e failed =
    let ok : mock_ok x mock ≡ true =
      all-get (mock_ok x) mocks i mock (sym (validate_mocks-valid x mocks).0 ∙ valid) e in
    chaos-valid rolls mock.response.chaos code (ground arith) failed
