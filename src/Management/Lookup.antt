-- ===== src/Management/Lookup.antt =====
-- What is found among the versions of a mock.
use pmp_mock_http.Prelude.{
  none, negsuc, sym, ◌∙◌, ℕ, suc, ◌+◌, ◌≤◌, ◌<◌, ℤ, pos, String, ◌<>◌, some, List, [], ◌∷◌, ◌++◌,
  get, ◌≡◌, ap, inl, inr, arith, nat_eq, length, Bool-cases, Option-cases,
}
use mathlib.Core.Option.{some-injective}
use pmp_mock_http.Http.{ok, err}
use pmp_mock_http.Management.Types.{ManagedMock, MockVersion}
use pmp_mock_http.Management.Manager.{
  Manager, get_mock, signed, find_version, get_version_history, get_version,
}
use pmp_mock_http.Management.Valid.{CountsFrom}

pub find_version-append :
    (vs ws : List MockVersion) (version : ℤ) (v : MockVersion)
    → find_version vs version ≡ some v
    → find_version (vs ++ ws) version ≡ some v
unfolding find_version
find_version-append [] ws version v h = cc
find_version-append (u ∷ vs) ws version v h = ground (arith, find_version-append vs ws version v)

pub find_version-counted :
    (k : ℕ) (vs : List MockVersion) (n : ℕ)
    → CountsFrom k vs
    → k < n
    → n ≤ k + length vs
    → (v : MockVersion) × (find_version vs (pos n) ≡ some v) × (v.version ≡ n)
unfolding find_version
find_version-counted k [] n h lo hi = absurd (omega arith)
find_version-counted k (u ∷ vs) n (h, hs) lo hi = elim (Bool-cases (nat_eq u.version n)) [
  | inl same ↦ (u, rw same, ground arith)
  | inr apart ↦
      let (v, e, number) = find_version-counted (suc k) vs n hs (ground arith) (omega arith) in
      (v, rw apart e, number)
]

pub find_version-bounds :
    (k : ℕ) (vs : List MockVersion) (n : ℕ) (v : MockVersion)
    → CountsFrom k vs
    → find_version vs (pos n) ≡ some v
    → (k < n) × (n ≤ k + length vs)
unfolding find_version
find_version-bounds k [] n v h e = cc
find_version-bounds k (u ∷ vs) n v (h, hs) e = elim (Bool-cases (nat_eq u.version n)) [
  | inl same ↦ (ground arith, ground arith)
  | inr apart ↦
      let (lo, hi) = find_version-bounds (suc k) vs n v hs (ground arith) in
      (omega arith, omega arith)
]

pub get_version-some :
    (m : Manager) (id : String) (version : ℤ) (vs : List MockVersion) (v : MockVersion)
    → get m.versions id ≡ some vs
    → find_version vs version ≡ some v
    → get_version m id version ≡ ok v
unfolding get_version get_version_history
get_version-some m id version vs v held found = ground arith

pub get_version-inv :
    (m : Manager) (id : String) (version : ℤ) (v : MockVersion)
    → get_version m id version ≡ ok v
    → (vs : List MockVersion) × (get m.versions id ≡ some vs) × (find_version vs version ≡ some v)
unfolding get_version get_version_history
get_version-inv m id version v e = elim (Option-cases (get m.versions id)) [
  | inl missing ↦ absurd (ground arith)
  | inr (vs, held) ↦ (vs, held, ground arith)
]

pub get_mock-inv :
    (m : Manager) (id : String) (managed : ManagedMock)
    → get_mock m id ≡ ok managed
    → get m.mocks id ≡ some managed
unfolding get_mock
get_mock-inv m id managed e = ground arith

-- What is found has the number that was asked for, which is not negative.
pub find_version-number :
    (vs : List MockVersion) (version : ℤ) (v : MockVersion)
    → find_version vs version ≡ some v
    → pos v.version ≡ version
unfolding find_version
find_version-number [] version v e = cc
find_version-number (u ∷ vs) (negsuc n) v e = find_version-number vs (negsuc n) v e
find_version-number (u ∷ vs) (pos n) v e = elim (Bool-cases (nat_eq u.version n)) [
  | inl same ↦
      let first : some u ≡ some v = rw same at e in
      ap pos (sym (ap (λ (w : MockVersion). w.version) (some-injective u v first)) ∙ ground arith)
  | inr apart ↦ find_version-number vs (pos n) v (rw apart at e)
]

pub get_version-missing :
    (m : Manager) (id : String) (version : ℤ) (vs : List MockVersion)
    → get m.versions id ≡ some vs
    → find_version vs version ≡ none
    → get_version m id version ≡ err ("version not found: " <> signed version)
unfolding get_version get_version_history
get_version-missing m id version vs held missing = ground arith

pub find_version-last :
    (k : ℕ) (vs : List MockVersion) (entry : MockVersion)
    → CountsFrom k vs
    → entry.version ≡ suc (k + length vs)
    → find_version (vs ++ entry ∷ []) (pos entry.version) ≡ some entry
unfolding find_version
find_version-last k [] entry h e = ground arith
find_version-last k (u ∷ vs) entry (h, hs) e =
    ground (arith, find_version-last (suc k) vs entry hs (omega arith))
