-- ===== src/Management/Api/Answers.antt =====
-- The routes of the API, its answers, and the parts of a request. JSON is a parameter.
use pmp_mock_http.Prelude.{
  ℕ, ◌-◌, ℤ, pos, String, Option, none, some, List, [], ltb, if◌then◌else◌, get,
}
use Prim.Native.String.{len, slice}
use pmp_mock_http.Http.{HttpRequest, Header, first_value, Result, ok, err, panicked}
use pmp_mock_http.Management.Types.{
  ManagedMock, MockVersion, MockTemplate, MockFilter, MockStats, CreateMockRequest,
  UpdateMockRequest, CreateTemplateRequest, InstantiateTemplateRequest, ImportRequest,
  ExportRequest,
}
use pmp_mock_http.Management.Transfer.{Codec}

pub data Route : Type 0 where
  mocks mock_by_id versions version rollback : Route
  templates template_by_id instantiate : Route
  import_route export_route stats : Route

-- What is encoded in a response.
pub data Payload : Type 0 where
  listed : List ManagedMock → Payload
  managed : ManagedMock → Payload
  history_of : List MockVersion → Payload
  version_of : MockVersion → Payload
  templates_of : List MockTemplate → Payload
  template_of : MockTemplate → Payload
  imported_count : ℕ → Payload
  statistics : MockStats → Payload
  exported : String → Payload
  nothing : Payload

-- A response with its status, content type and payload; an error with its text and status; or a
-- panic.
pub data Answer : Type 0 where
  answers : ℤ → String → Payload → Answer
  refuses : String → ℤ → Answer
  panics : Answer

-- The decoding of a body into each kind of request, strconv.Atoi, strings.ToLower, and the encodings
-- of an import and an export.
pub record ApiExternals : Type 0 where
  pub decode_create : Option String → Option CreateMockRequest
  pub decode_update : Option String → Option UpdateMockRequest
  pub decode_rollback : Option String → Option (ℤ × String)
  pub decode_template : Option String → Option CreateTemplateRequest
  pub decode_instantiate : Option String → Option InstantiateTemplateRequest
  pub decode_import : Option String → Option ImportRequest
  pub decode_export : Option String → Option ExportRequest
  pub atoi : String → Option ℤ
  pub to_lower : String → String
  pub yaml_codec : Codec
  pub json_codec : Codec

abbrev pub not_allowed : Answer
not_allowed = refuses "Method not allowed" (pos 405)

abbrev pub invalid_body : Answer
invalid_body = refuses "Invalid request body" (pos 400)

-- The answer to a result: JSON with a status, or the error's text with another.
unfoldable pub json_or {ℓ} : {A : Type ℓ} → ℤ → ℤ → (A → Payload) → Result A → Answer
json_or status code payload (ok a) = answers status "application/json" (payload a)
json_or status code payload (err e) = refuses e code
json_or status code payload panicked = panics

-- `path[len(prefix):]`, which panics on a shorter path.
unfoldable pub after_prefix : String → String → Option String
after_prefix prefix path =
    if ltb (len path) (len prefix) then none else some (slice path (len prefix) (len path))

-- `id[:len(id)-len(suffix)]`, which panics on a shorter text.
unfoldable pub before_suffix : String → Option String → Option String
before_suffix suffix none = none
before_suffix suffix (some id) =
    if ltb (len id) (len suffix) then none else some (slice id 0 (len id - len suffix))

abbrev pub mock_id : HttpRequest → Option String
mock_id r = after_prefix "/api/v1/mocks/" r.path

-- The tags of the query: a slice that is empty counts as not given.
unfoldable pub query_tags : Header → List String
query_tags query = elim (get query "tags") [ none ↦ [] | some tags ↦ tags ]

unfoldable pub query_filter : Header → MockFilter
query_filter query = record {
  tags = query_tags query;
  labels = [];
  source = first_value query "source";
  template = "";
  search = first_value query "search";
  created_after = none;
  created_before = none;
  updated_after = none;
  updated_before = none;
}

-- `parseVersionURL`, which leaves its parts empty.
unfoldable pub parse_version_url : String → List String
parse_version_url path = []
