-- ===== src/OpenApi/Tests.antt =====
-- A run of the choice of a response.
use pmp_mock_http.Prelude.{
  pos, String, true, none, some, [], ◌∷◌, get, ◌==◌, if◌then◌else◌, ◌≡◌, refl,
}
use pmp_mock_http.Http.{err}
use pmp_mock_http.OpenApi.Types.{OpenApiExternals, ResponseDescription, Operation}
use pmp_mock_http.OpenApi.Parser.{mock_of, create_mock_from_operation}
use pmp_mock_http.OpenApi.Preferred.{create_mock_from_operation-preferred}

abbrev externals : OpenApiExternals
externals = record {
  to_lower = λ s. s;
  is_json = λ s. true;
  json_openapi = λ s. none;
  json_swagger = λ s. none;
  yaml_openapi = λ s. none;
  yaml_swagger = λ s. none;
  marshal = λ v. none;
  scan = λ code.
      if code == "404" then some (pos 404) else if code == "201" then some (pos 201) else none;
  read_file = λ path. err "no such file";
  fetch = λ url. err "no such host";
  range_operations = λ operations. operations;
}

abbrev described : String → ResponseDescription
described s = record { description = s; content = none; headers = [] }

abbrev create_user : Operation
create_user = record {
  summary = "";
  description = "";
  operation_id = "create";
  parameters = [];
  request_body = none;
  responses =
      ("404", described "absent")
      ∷ ("201", described "created")
      ∷ ("default", described "other")
      ∷ [];
  tags = [];
}

create_mock_from_operation-preferred_example :
    create_mock_from_operation externals true "/users" "POST" create_user (pos 100)
    ≡ mock_of externals true "/users" "POST" create_user
        (pos 100)
        (pos 201, some (described "created"))
unfolding get
create_mock_from_operation-preferred_example =
    create_mock_from_operation-preferred externals true "/users" "POST" create_user (pos 100)
      (refl, refl, (refl, refl, (refl, refl, tt)))
