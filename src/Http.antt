-- ===== src/Http.antt =====
-- The parts of net/http and net/url that the program reads and writes: requests, headers, and
-- functions that may fail or panic.
use pmp_mock_http.Prelude.{
  String, Bool, Option, none, some, List, [], ◌∷◌, Dict, get, ◌≡◌, refl, ◌⊎◌, inl, inr,
}

-- The outcome of a Go function: a result, an error, or a run-time panic.
pub data Result {ℓ} (A : Type ℓ) : Type ℓ where
  ok : A → Result A
  err : String → Result A
  panicked : Result A

infixl 5 ◌>>=◌
abbrev pub ◌>>=◌ {ℓ κ} : {A : Type ℓ} {B : Type κ} → Result A → (A → Result B) → Result B
ok a >>= f = f a
err e >>= f = err e
panicked >>= f = panicked

-- http.Header and url.Values: the values of each key.
abbrev pub Header : Type 0
Header = Dict (List String)

-- A request as a handler receives it. `body` is what reading it gives, `none` for a read error;
-- `query` and `form` are the parsed parameters, `form` being `none` if ParseForm fails.
pub record HttpRequest : Type 0 where
  pub method : String
  pub path : String
  pub raw_query : String
  pub request_uri : String
  pub query : Header
  pub form : Option Header
  pub header : Header
  pub body : Option String
  pub host : String
  pub remote_addr : String
  pub tls : Bool

-- `values.Get(key)`, and the header's Get once the key is canonical: the first value, or "".
unfoldable pub first_value : Header → String → String
first_value h key = elim (get h key) [
  | none ↦ ""
  | some values ↦ elim values [ [] ↦ "" | v ∷ _ ↦ v ]
]

-- The loop that keeps the first value of each header that has one.
unfoldable pub first_values : Header → Dict String
first_values [] = []
first_values ((key, []) ∷ h) = first_values h
first_values ((key, v ∷ _) ∷ h) = (key, v) ∷ first_values h

pub Result-cases {ℓ} :
    {A : Type ℓ} (r : Result A)
    → ((a : A) × (r ≡ ok a)) ⊎ (((message : String) × (r ≡ err message)) ⊎ (r ≡ panicked))
Result-cases (ok a) = inl (a, refl)
Result-cases (err message) = inr (inl (message, refl))
Result-cases panicked = inr (inr refl)
