-- ===== src/Management/Api/Tests.antt =====
-- Requests of the API to a new manager.
use pmp_mock_http.Prelude.{pos, String, false, none, some, [], get, ◌≡◌, refl}
use pmp_mock_http.Models.{empty_mock}
use pmp_mock_http.Http.{HttpRequest}
use pmp_mock_http.Management.Manager.{Manager, new_manager, delete_mock}
use pmp_mock_http.Management.Transfer.{Codec}
use pmp_mock_http.Management.Api.Answers.{
  mock_by_id, version, refuses, ApiExternals, after_prefix, parse_version_url,
}
use pmp_mock_http.Management.Api.Handlers.{
  deleted, handle_mock, handle_mock_by_id, version_at, handle_version, handle,
}
use pmp_mock_http.Management.Api.Served.{Serves, handle-Serves}

abbrev codec : Codec
codec = record { marshal = λ mocks. none; unmarshal = λ text. none }

abbrev libraries : ApiExternals
libraries = record {
  decode_create = λ body. some (record {
    mock = empty_mock;
    tags = [];
    labels = none;
    description = "";
    author = "";
    template = "";
  });
  decode_update = λ body. none;
  decode_rollback = λ body. none;
  decode_template = λ body. none;
  decode_instantiate = λ body. none;
  decode_import = λ body. none;
  decode_export = λ body. none;
  atoi = λ text. none;
  to_lower = λ text. text;
  yaml_codec = codec;
  json_codec = codec;
}

abbrev request : String → String → HttpRequest
request method path = record {
  method = method;
  path = path;
  raw_query = "";
  request_uri = path;
  query = [];
  form = none;
  header = [];
  body = some "{}";
  host = "localhost";
  remote_addr = "";
  tls = false;
}

handle-Serves_example :
    Serves libraries new_manager
      (handle libraries 7 mock_by_id (request "DELETE" "/api/v1/mocks/mock-1") new_manager)
handle-Serves_example =
    handle-Serves libraries 7 (request "DELETE" "/api/v1/mocks/mock-1") new_manager mock_by_id

unknown_refused :
    (handle libraries 7 mock_by_id (request "DELETE" "/api/v1/mocks/mock-1") new_manager).0
    ≡ refuses "mock not found: mock-1" (pos 404)
unfolding handle handle_mock_by_id handle_mock delete_mock deleted after_prefix new_manager get
unknown_refused = refl

-- A version cannot be asked for, whatever the path: parseVersionURL finds no parts.
version_refused :
    (m : Manager) (path : String)
    → handle libraries 7 version (request "GET" path) m ≡ (refuses "Invalid URL" (pos 400), m)
unfolding handle handle_version version_at parse_version_url
version_refused m path = refl
