-- ===== src/Management/Imports.antt =====
-- How an import ends, by its source and the labels of the mocks it brings in.
use pmp_mock_http.Prelude.{
  ℕ, ◌+◌, String, Bool, true, false, ◌||◌, Option, none, some, List, [], ◌∷◌, Dict, ◌≡◌, refl, inl,
  inr, arith, ◌==◌, if◌then◌else◌, all, length, Bool-cases, ◌∙◌, ap, insert,
}
use pmp_mock_http.Http.{ok, panicked}
use pmp_mock_http.Management.Types.{ManagedMock, ImportRequest}
use pmp_mock_http.Management.Manager.{Manager, create_mock}
use pmp_mock_http.Management.Transfer.{set_source, import_request, import_from}

abbrev is_given : Option (Dict String) → Bool
is_given none = false
is_given (some labels) = true

-- Whether a mock has a labels map, an empty one included.
abbrev pub has_labels : ManagedMock → Bool
has_labels managed = is_given managed.metadata.labels

module _ (m : Manager) (now : ℕ) (req : ImportRequest) (count : ℕ) (mock : ManagedMock)
    (mocks : List ManagedMock) where
  import_from-ok :
      (labels : Option (Dict String))
      → set_source req.source mock.metadata.labels ≡ ok labels
      → import_from m now req count (mock ∷ mocks)
        ≡ import_from
            (create_mock m now (import_request req mock labels)).1
            now
            req
            (count + 1)
            mocks
  unfolding import_from
  import_from-ok labels e = rw (e, import_from) refl

  import_from-panicked :
      set_source req.source mock.metadata.labels ≡ panicked
      → import_from m now req count (mock ∷ mocks) ≡ (panicked, m)
  unfolding import_from
  import_from-panicked e = rw (e, import_from) refl

set_source-empty :
    (source : String) (labels : Option (Dict String))
    → (source == "") ≡ true
    → set_source source labels ≡ ok labels
unfolding set_source
set_source-empty source labels e = rw e refl

set_source-given :
    (source : String) (labels : Option (Dict String))
    → (source == "") ≡ false
    → (is_given labels ≡ true → (new : Option (Dict String)) × (set_source source labels ≡ ok new))
      × (is_given labels ≡ false → set_source source labels ≡ panicked)
unfolding set_source
set_source-given source none e = (λ h. ground arith, λ h. rw e refl)
set_source-given source (some entries) e =
    (λ h. (some (insert entries "source" source), rw e refl), λ h. ground arith)

import_from-no_source :
    (m : Manager) (now : ℕ) (req : ImportRequest) (count : ℕ) (mocks : List ManagedMock)
    → (req.source == "") ≡ true
    → (import_from m now req count mocks).0 ≡ ok (count + length mocks)
unfolding import_from
import_from-no_source m now req count [] e = ap ok (omega arith)
import_from-no_source m now req count (mock ∷ mocks) e =
    ap (λ r. r.0)
      (import_from-ok m now req count mock mocks mock.metadata.labels
        (set_source-empty req.source mock.metadata.labels e))
    ∙ import_from-no_source (create_mock m now (import_request req mock mock.metadata.labels)).1 now
        req (count + 1) mocks e
    ∙ ap ok (omega arith)

import_from-source :
    (m : Manager) (now : ℕ) (req : ImportRequest) (count : ℕ) (mocks : List ManagedMock)
    → (req.source == "") ≡ false
    → (import_from m now req count mocks).0
      ≡ (if all has_labels mocks then ok (count + length mocks) else panicked)
unfolding import_from
import_from-source m now req count [] e = ap ok (omega arith)
import_from-source m now req count (mock ∷ mocks) e =
    let (given, nil) = set_source-given req.source mock.metadata.labels e in
    elim (Bool-cases (has_labels mock)) [
      | inl h ↦
          let (labels, set) = given h in
          ap (λ r. r.0) (import_from-ok m now req count mock mocks labels set)
          ∙ import_from-source (create_mock m now (import_request req mock labels)).1 now req
              (count + 1) mocks e
          ∙ rw h (ap (λ n. if all has_labels mocks then ok n else panicked) (omega arith))
      | inr h ↦ ap (λ r. r.0) (import_from-panicked m now req count mock mocks (nil h)) ∙ rw h refl
    ]

-- The loop of an import counts every mock if the request names no source or each mock has a labels
-- map, and panics otherwise.
pub import_from-outcome :
    (m : Manager) (now : ℕ) (req : ImportRequest) (count : ℕ) (mocks : List ManagedMock)
    → (import_from m now req count mocks).0
      ≡ (if (req.source == "") || all has_labels mocks then ok (count + length mocks) else panicked)
import_from-outcome m now req count mocks = elim (Bool-cases (req.source == "")) [
  | inl e ↦ import_from-no_source m now req count mocks e ∙ rw e refl
  | inr e ↦ import_from-source m now req count mocks e ∙ rw e refl
]
