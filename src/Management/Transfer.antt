-- ===== src/Management/Transfer.antt =====
-- `Import` and `Export`. The encodings of a list of managed mocks are those of yaml.v3 and
-- encoding/json, taken as parameters.
use pmp_mock_http.Prelude.{
  ℕ, ◌+◌, String, ◌<>◌, Option, none, some, List, [], ◌∷◌, ◌++◌, Dict, insert, ◌==◌, if◌then◌else◌,
}
use pmp_mock_http.Http.{Result, ok, err, panicked}
use pmp_mock_http.Management.Types.{
  ManagedMock, CreateMockRequest, ExportFormat, yaml, json, openapi, other, ImportRequest,
  ExportRequest,
}
use pmp_mock_http.Management.Manager.{Manager, create_mock}
use pmp_mock_http.Management.Filter.{list_mocks}

-- An encoder and a decoder that may fail.
pub record Codec : Type 0 where
  pub marshal : List ManagedMock → Option String
  pub unmarshal : String → Option (List ManagedMock)

-- `createReq.Labels["source"] = source`: a write to a nil map panics.
unfoldable pub set_source : String → Option (Dict String) → Result (Option (Dict String))
set_source source labels =
    if source == ""
    then ok labels
    else elim labels [ none ↦ panicked | some entries ↦ ok (some (insert entries "source" source)) ]

abbrev pub import_request : ImportRequest → ManagedMock → Option (Dict String) → CreateMockRequest
import_request req mock labels = record {
  mock = mock.mock;
  tags = mock.metadata.tags ++ req.tags;
  labels = labels;
  description = "";
  author = "";
  template = "";
}

-- The loop of `Import`. What was created before a panic stays created.
unfoldable pub import_from : Manager → ℕ → ImportRequest → ℕ → List ManagedMock → Result ℕ × Manager
import_from m now req count [] = (ok count, m)
import_from m now req count (mock ∷ mocks) = elim (set_source req.source mock.metadata.labels) [
  | ok labels ↦
      import_from (create_mock m now (import_request req mock labels)).1 now req (count + 1) mocks
  | err e ↦ (err e, m)
  | panicked ↦ (panicked, m)
]

unfoldable pub decoded :
    Manager → ℕ → ImportRequest → Option (List ManagedMock) → Result ℕ × Manager
decoded m now req none = (err "unmarshal error", m)
decoded m now req (some mocks) = import_from m now req 0 mocks

module _ (yaml_codec json_codec : Codec) where
  unfoldable pub imported : Manager → ℕ → ImportRequest → ExportFormat → Result ℕ × Manager
  imported m now req yaml = decoded m now req (yaml_codec.unmarshal req.import_data)
  imported m now req json = decoded m now req (json_codec.unmarshal req.import_data)
  imported m now req openapi = (err ("unsupported import format: " <> "openapi"), m)
  imported m now req (other s) = (err ("unsupported import format: " <> s), m)

  unfoldable pub import_mocks : Manager → ℕ → ImportRequest → Result ℕ × Manager
  import_mocks m now req = imported m now req req.format

  encoded : Option String → Result String
  encoded none = err "marshal error"
  encoded (some text) = ok text

  unfoldable pub export_mocks : (String → String) → Manager → ExportRequest → Result String
  unfolding encoded
  export_mocks to_lower m req = elim req.format [
    | yaml ↦ encoded (yaml_codec.marshal (list_mocks to_lower m req.filter))
    | json ↦ encoded (json_codec.marshal (list_mocks to_lower m req.filter))
    | openapi ↦ err "OpenAPI export not yet implemented"
    | other s ↦ err ("unsupported export format: " <> s)
  ]
