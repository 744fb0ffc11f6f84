-- ===== src/Management/Steps.antt =====
-- Every operation of the manager keeps its invariant.
use pmp_mock_http.Prelude.{
  ℕ, ◌+◌, ℤ, String, Option, none, some, List, [], ◌∷◌, get, refl, inl, inr, arith, Option-cases,
}
use pmp_mock_http.Http.{Result-cases}
use pmp_mock_http.Management.Types.{
  ManagedMock, CreateMockRequest, UpdateMockRequest, CreateTemplateRequest,
  InstantiateTemplateRequest, ImportRequest, ExportFormat, yaml, json, openapi, other,
}
use pmp_mock_http.Management.Manager.{
  Manager, new_manager, id_text, create_mock, history, updated_mock, update_mock, delete_mock,
  find_version, rolled_back, rollback_to_version, create_template, instantiate_template,
}
use pmp_mock_http.Management.Transfer.{
  set_source, import_request, import_from, decoded, imported, import_mocks, Codec,
}
use pmp_mock_http.Management.Valid.{
  IsValid, new_manager-IsValid, create_mock-IsValid, commit-IsValid, Slot-delete, absent-insert,
  absent-delete,
}

module _ (m : Manager) (v : IsValid m) where
  update_mock-IsValid :
      (now : ℕ) (id : String) (req : UpdateMockRequest) → IsValid (update_mock m now id req).1
  unfolding update_mock
  update_mock-IsValid now id req = elim (Option-cases (get m.mocks id)) [
    | inl missing ↦ rw (missing, update_mock) v
    | inr (old, used) ↦
        rw (used, update_mock)
          (commit-IsValid m id old (updated_mock now req old) req.author now req.comment v used
            (unfold updated_mock in refl) (unfold updated_mock in refl))
  ]

  rollback_to_version-IsValid :
      (now : ℕ) (id : String) (version : ℤ) (author : String)
      → IsValid (rollback_to_version m now id version author).1
  unfolding rollback_to_version
  rollback_to_version-IsValid now id version author = elim (Option-cases (get m.mocks id)) [
    | inl missing ↦ rw (missing, rollback_to_version) v
    | inr (old, used) ↦ elim (Option-cases (find_version (history m id) version)) [
      | inl unknown ↦ rw (used, rollback_to_version) (rw (unknown, rollback_to_version) v)
      | inr (target, known) ↦
          rw (used, rollback_to_version)
            (rw (known, rollback_to_version)
              (commit-IsValid m id old (rolled_back now target old) author now _ v used
                (unfold rolled_back in refl) (unfold rolled_back in refl)))
    ]
  ]

  delete_mock-IsValid : (id : String) → IsValid (delete_mock m id).1
  unfolding delete_mock
  delete_mock-IsValid id = elim (Option-cases (get m.mocks id)) [
    | inl missing ↦ rw (missing, delete_mock) v
    | inr (old, used) ↦
        rw (used, delete_mock)
          (record {
            slots = Slot-delete m.mocks m.versions v.slots id;
            fresh = λ n h. absent-delete m.mocks id (id_text n) (v.fresh n h);
            fresh_template = v.fresh_template;
          })
  ]

  create_template-IsValid :
      (now : ℕ) (req : CreateTemplateRequest) → IsValid (create_template m now req).1
  unfolding create_template
  create_template-IsValid now req = record {
    slots = v.slots;
    fresh = λ n h. v.fresh n (omega arith);
    fresh_template = λ n h.
        absent-insert m.templates m.next_id n _ (omega arith) (v.fresh_template n (omega arith));
  }

  instantiate_template-IsValid :
      (now : ℕ) (req : InstantiateTemplateRequest) → IsValid (instantiate_template m now req).1
  unfolding instantiate_template
  instantiate_template-IsValid now req = elim (Option-cases (get m.templates req.template_id)) [
    | inl missing ↦ rw (missing, instantiate_template) v
    | inr (template, known) ↦ rw (known, instantiate_template) (create_mock-IsValid m now _ v)
  ]

import_from-IsValid :
    (m : Manager) (now : ℕ) (req : ImportRequest) (count : ℕ) (mocks : List ManagedMock)
    → IsValid m
    → IsValid (import_from m now req count mocks).1
unfolding import_from
import_from-IsValid m now req count [] v = v
import_from-IsValid m now req count (mock ∷ mocks) v =
    elim (Result-cases (set_source req.source mock.metadata.labels)) [
      | inl (labels, e) ↦
          rw (e, import_from)
            (import_from-IsValid (create_mock m now (import_request req mock labels)).1 now req
              (count + 1) mocks (create_mock-IsValid m now (import_request req mock labels) v))
      | inr (inl (message, e)) ↦ rw (e, import_from) v
      | inr (inr e) ↦ rw (e, import_from) v
    ]

decoded-IsValid :
    (m : Manager) (now : ℕ) (req : ImportRequest) (mocks : Option (List ManagedMock))
    → IsValid m
    → IsValid (decoded m now req mocks).1
unfolding decoded
decoded-IsValid m now req none v = v
decoded-IsValid m now req (some mocks) v = import_from-IsValid m now req 0 mocks v

-- The calls that may change a manager, with the reading of the clock.
pub data Call : Type 0 where
  creates : ℕ → CreateMockRequest → Call
  updates : ℕ → String → UpdateMockRequest → Call
  deletes : String → Call
  rolls_back : ℕ → String → ℤ → String → Call
  creates_template : ℕ → CreateTemplateRequest → Call
  instantiates : ℕ → InstantiateTemplateRequest → Call
  imports : ℕ → ImportRequest → Call

module _ (yaml_codec json_codec : Codec) where
  imported-IsValid :
      (m : Manager) (now : ℕ) (req : ImportRequest) (format : ExportFormat)
      → IsValid m
      → IsValid (imported yaml_codec json_codec m now req format).1
  unfolding imported
  imported-IsValid m now req yaml v = decoded-IsValid m now req _ v
  imported-IsValid m now req json v = decoded-IsValid m now req _ v
  imported-IsValid m now req openapi v = v
  imported-IsValid m now req (other s) v = v

  unfoldable pub step : Manager → Call → Manager
  step m (creates now req) = (create_mock m now req).1
  step m (updates now id req) = (update_mock m now id req).1
  step m (deletes id) = (delete_mock m id).1
  step m (rolls_back now id version author) = (rollback_to_version m now id version author).1
  step m (creates_template now req) = (create_template m now req).1
  step m (instantiates now req) = (instantiate_template m now req).1
  step m (imports now req) = (import_mocks yaml_codec json_codec m now req).1

  unfoldable pub run : Manager → List Call → Manager
  run m [] = m
  run m (call ∷ calls) = run (step m call) calls

  pub step-IsValid : (m : Manager) (call : Call) → IsValid m → IsValid (step m call)
  unfolding step
  step-IsValid m (creates now req) v = create_mock-IsValid m now req v
  step-IsValid m (updates now id req) v = update_mock-IsValid m v now id req
  step-IsValid m (deletes id) v = delete_mock-IsValid m v id
  step-IsValid m (rolls_back now id version author) v =
      rollback_to_version-IsValid m v now id version author
  step-IsValid m (creates_template now req) v = create_template-IsValid m v now req
  step-IsValid m (instantiates now req) v = instantiate_template-IsValid m v now req
  step-IsValid m (imports now req) v =
      unfold import_mocks in imported-IsValid m now req req.format v

  pub run-IsValid : (m : Manager) (calls : List Call) → IsValid m → IsValid (run m calls)
  unfolding run
  run-IsValid m [] v = v
  run-IsValid m (call ∷ calls) v = run-IsValid (step m call) calls (step-IsValid m call v)

  -- After any calls on a new manager, whatever their results, each id names a mock and a history or
  -- neither; the mock carries its id, its history has the versions 1, 2, … up to the mock's own, and
  -- the last of them is the mock's content; and the next id is used by no mock and no template.
  pub run_manager-IsValid : (calls : List Call) → IsValid (run new_manager calls)
  run_manager-IsValid calls = run-IsValid new_manager calls new_manager-IsValid
