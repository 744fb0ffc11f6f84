-- ===== src/Management/Api/Atomic.antt =====
-- Calls of the manager that return an error and leave it as it was.
use pmp_mock_http.Prelude.{
  ℕ, ◌+◌, ℤ, String, Bool, true, false, Option, none, some, List, [], ◌∷◌, get, ◌≡◌, refl, ◌⊎◌, inl,
  inr, arith, Option-cases,
}
use pmp_mock_http.Http.{Result, ok, err, panicked, Result-cases}
use pmp_mock_http.Management.Types.{
  ManagedMock, UpdateMockRequest, InstantiateTemplateRequest, ImportRequest, ExportFormat, yaml,
  json, openapi, other,
}
use pmp_mock_http.Management.Manager.{
  Manager, create_mock, history, update_mock, delete_mock, find_version, rollback_to_version,
  instantiate_template,
}
use pmp_mock_http.Management.Transfer.{
  Codec, set_source, import_request, import_from, decoded, imported,
}
use pmp_mock_http.Management.Api.Answers.{Payload, Answer, answers, refuses, panics, json_or}

-- An answer of http.Error.
abbrev pub is_refused : Answer → Bool
is_refused (answers status content_type payload) = false
is_refused (refuses text code) = true
is_refused panics = false

abbrev pub is_err {ℓ} : {A : Type ℓ} → Result A → Bool
is_err (ok a) = false
is_err (err e) = true
is_err panicked = false

pub is_refused-json_or {ℓ} :
    {A : Type ℓ} (status code : ℤ) (payload : A → Payload) (r : Result A)
    → is_refused (json_or status code payload r) ≡ is_err r
unfolding json_or
is_refused-json_or status code payload (ok a) = refl
is_refused-json_or status code payload (err e) = refl
is_refused-json_or status code payload panicked = refl

-- A call that returns an error leaves the manager as it was.
abbrev pub Atomic {ℓ} : {A : Type ℓ} → Manager → Result A × Manager → Type 0
Atomic m (r, m') = (m' ≡ m) ⊎ (is_err r ≡ false)

module _ (m : Manager) where
  pub update_mock-Atomic :
      (now : ℕ) (id : String) (req : UpdateMockRequest) → Atomic m (update_mock m now id req)
  unfolding update_mock
  update_mock-Atomic now id req = elim (Option-cases (get m.mocks id)) [
    | inl missing ↦ rw (missing, update_mock) (inl refl)
    | inr (old, used) ↦ rw (used, update_mock) (inr refl)
  ]

  pub delete_mock-Atomic : (id : String) → Atomic m (delete_mock m id)
  unfolding delete_mock
  delete_mock-Atomic id = elim (Option-cases (get m.mocks id)) [
    | inl missing ↦ rw (missing, delete_mock) (inl refl)
    | inr (old, used) ↦ rw (used, delete_mock) (inr refl)
  ]

  pub rollback_to_version-Atomic :
      (now : ℕ) (id : String) (n : ℤ) (author : String)
      → Atomic m (rollback_to_version m now id n author)
  unfolding rollback_to_version
  rollback_to_version-Atomic now id n author = elim (Option-cases (get m.mocks id)) [
    | inl missing ↦ rw (missing, rollback_to_version) (inl refl)
    | inr (old, used) ↦ elim (Option-cases (find_version (history m id) n)) [
      | inl unknown ↦ rw (used, rollback_to_version) (rw (unknown, rollback_to_version) (inl refl))
      | inr (target, known) ↦
          rw (used, rollback_to_version) (rw (known, rollback_to_version) (inr refl))
    ]
  ]

  pub instantiate_template-Atomic :
      (now : ℕ) (req : InstantiateTemplateRequest) → Atomic m (instantiate_template m now req)
  unfolding instantiate_template
  instantiate_template-Atomic now req = elim (Option-cases (get m.templates req.template_id)) [
    | inl missing ↦ rw (missing, instantiate_template) (inl refl)
    | inr (template, known) ↦ rw (known, instantiate_template) (inr refl)
  ]

set_source-no_err :
    (source : String) (labels : Option (List (String × String)))
    → is_err (set_source source labels) ≡ false
unfolding set_source
set_source-no_err source none = ground arith
set_source-no_err source (some entries) = ground arith

import_from-no_err :
    (m : Manager) (now : ℕ) (req : ImportRequest) (count : ℕ) (ms : List ManagedMock)
    → is_err (import_from m now req count ms).0 ≡ false
unfolding import_from
import_from-no_err m now req count [] = refl
import_from-no_err m now req count (mock ∷ ms) =
    elim (Result-cases (set_source req.source mock.metadata.labels)) [
      | inl (labels, e) ↦
          rw (e, import_from)
            (import_from-no_err (create_mock m now (import_request req mock labels)).1 now req
              (count + 1) ms)
      | inr (inl (message, e)) ↦ absurd (cc (set_source-no_err req.source mock.metadata.labels, e))
      | inr (inr e) ↦ rw (e, import_from) refl
    ]

decoded-Atomic :
    (m : Manager) (now : ℕ) (req : ImportRequest) (ms : Option (List ManagedMock))
    → Atomic m (decoded m now req ms)
unfolding decoded
decoded-Atomic m now req none = inl refl
decoded-Atomic m now req (some ms) = inr (import_from-no_err m now req 0 ms)

pub imported-Atomic :
    (yaml_codec json_codec : Codec) (m : Manager) (now : ℕ) (req : ImportRequest)
    (format : ExportFormat)
    → Atomic m (imported yaml_codec json_codec m now req format)
unfolding imported
imported-Atomic yaml_codec json_codec m now req yaml = decoded-Atomic m now req _
imported-Atomic yaml_codec json_codec m now req json = decoded-Atomic m now req _
imported-Atomic yaml_codec json_codec m now req openapi = inl refl
imported-Atomic yaml_codec json_codec m now req (other s) = inl refl
