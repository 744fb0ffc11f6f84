-- ===== src/OpenApi/Parser.antt =====
-- `Parse` and the conversion of a document into mocks.
use pmp_mock_http.Prelude.{
  ltb, ◌-◌, ℤ, pos, ◌-ℤ◌, eq_ℤ, String, ◌<>◌, Bool, true, false, not, ◌&&◌, ◌||◌, Option, none,
  some, List, [], ◌∷◌, ◌++◌, Dict, ◌==◌, if◌then◌else◌,
}
use Prim.Native.String.{len, slice}
use pmp_mock_http.Models.{Mock, MockSpec, empty_mock, empty_request, empty_response}
use pmp_mock_http.Http.{Result, ok, err, panicked}
use pmp_mock_http.OpenApi.Types.{
  OpenApiExternals, ResponseDescription, Operation, PathItem, OpenApiSpec, SwaggerSpec,
}
use pmp_mock_http.OpenApi.Examples.{extract_response_headers, extract_response_example}

-- strings.HasSuffix
unfoldable pub has_suffix : String → String → Bool
has_suffix s suffix =
    if ltb (len s) (len suffix) then false else slice s (len s - len suffix) (len s) == suffix

-- The status code and the response that are chosen so far; the code is 0 before.
abbrev pub Choice : Type 0
Choice = ℤ × Option ResponseDescription

unfoldable pub operations_of : PathItem → Dict (Option Operation)
operations_of item =
    ("GET", item.get_operation)
    ∷ ("POST", item.post_operation)
    ∷ ("PUT", item.put_operation)
    ∷ ("PATCH", item.patch_operation)
    ∷ ("DELETE", item.delete_operation)
    ∷ ("HEAD", item.head_operation)
    ∷ ("OPTIONS", item.options_operation)
    ∷ []

module _ (x : OpenApiExternals) where
  unfoldable pub scanned : Option ℤ → ResponseDescription → Choice → Choice
  scanned none response choice = choice
  scanned (some code) response choice = (code, some response)

  -- The loop over the responses: 200 ends it.
  unfoldable pub choose : Dict ResponseDescription → Choice → Choice
  choose [] choice = choice
  choose ((code, response) ∷ responses) (status_code, chosen) =
      let created = choose responses (pos 201, some response) in
      let other = choose responses (scanned (x.scan code) response (status_code, chosen)) in
      let rest = choose responses (status_code, chosen) in
      if code == "200"
      then (pos 200, some response)
      else if (code == "201") && not (eq_ℤ status_code (pos 200))
      then created
      else if eq_ℤ status_code (pos 0)
      then other
      else rest

  unfoldable pub mock_of : Bool → String → String → Operation → ℤ → Choice → Mock
  mock_of generate_examples path method operation priority (status_code, response) =
      record empty_mock {
        name =
            if operation.operation_id == ""
            then method <> (" " <> path)
            else operation.operation_id;
        priority = priority;
        request = record empty_request { uri = path; method = method };
        response = record empty_response {
          status_code = if eq_ℤ status_code (pos 0) then pos 200 else status_code;
          headers = extract_response_headers response;
          body = extract_response_example x generate_examples response;
        };
      }

  unfoldable pub create_mock_from_operation : Bool → String → String → Operation → ℤ → Mock
  create_mock_from_operation generate_examples path method operation priority =
      mock_of generate_examples path method operation priority
        (choose operation.responses (pos 0, none))

  -- The mocks of the operations that there are, with falling priorities, and the next priority.
  unfoldable pub convert_operations : Bool → String → Dict (Option Operation) → ℤ → List Mock × ℤ
  convert_operations generate_examples path [] priority = ([], priority)
  convert_operations generate_examples path ((method, none) ∷ operations) priority =
      convert_operations generate_examples path operations priority
  convert_operations generate_examples path ((method, some operation) ∷ operations) priority =
      let (mocks, next) =
        convert_operations generate_examples path operations (priority -ℤ pos 1) in
      (create_mock_from_operation generate_examples path method operation priority ∷ mocks, next)

  -- The conversion of the paths, which for Swagger stand after a base path.
  unfoldable pub convert_paths : Bool → String → Dict PathItem → ℤ → List Mock
  convert_paths generate_examples base_path [] priority = []
  convert_paths generate_examples base_path ((path, item) ∷ paths) priority =
      let (mocks, next) =
        convert_operations generate_examples (base_path <> path)
          (x.range_operations (operations_of item)) priority in
      mocks ++ convert_paths generate_examples base_path paths next

  unfoldable pub convert_openapi_to_mocks : Bool → OpenApiSpec → MockSpec
  convert_openapi_to_mocks generate_examples spec = record {
    mocks = convert_paths generate_examples "" spec.paths (pos 100);
  }

  unfoldable pub convert_swagger_to_mocks : Bool → SwaggerSpec → MockSpec
  convert_swagger_to_mocks generate_examples spec = record {
    mocks = convert_paths generate_examples spec.base_path spec.paths (pos 100);
  }

  unfoldable pub swagger_or_error : Bool → Option SwaggerSpec → Result MockSpec
  swagger_or_error generate_examples none = err "failed to parse as OpenAPI 3.x or Swagger 2.0"
  swagger_or_error generate_examples (some spec) =
      if spec.swagger == ""
      then err "failed to parse as OpenAPI 3.x or Swagger 2.0"
      else ok (convert_swagger_to_mocks generate_examples spec)

  unfoldable pub openapi_or : Bool → Option OpenApiSpec → Option SwaggerSpec → Result MockSpec
  openapi_or generate_examples none swagger = swagger_or_error generate_examples swagger
  openapi_or generate_examples (some spec) swagger =
      if spec.openapi == ""
      then swagger_or_error generate_examples swagger
      else ok (convert_openapi_to_mocks generate_examples spec)

  -- The format by the extension of the source, and else by a trial.
  unfoldable pub is_json_source : String → String → Bool
  is_json_source document source =
      let name = x.to_lower source in
      if has_suffix name ".json"
      then true
      else not (has_suffix name ".yaml" || has_suffix name ".yml") && x.is_json document

  unfoldable pub parse : Bool → String → String → Result MockSpec
  parse generate_examples document source =
      if is_json_source document source
      then openapi_or generate_examples (x.json_openapi document) (x.json_swagger document)
      else openapi_or generate_examples (x.yaml_openapi document) (x.yaml_swagger document)

  unfoldable pub parse_or : Bool → String → String → Result String → Result MockSpec
  parse_or generate_examples source failure (ok document) = parse generate_examples document source
  parse_or generate_examples source failure (err e) = err (failure <> (": " <> e))
  parse_or generate_examples source failure panicked = panicked

  unfoldable pub parse_file : Bool → String → Result MockSpec
  parse_file generate_examples file_path =
      parse_or generate_examples file_path "failed to read file" (x.read_file file_path)

  unfoldable pub parse_response : Bool → String → Result (Result String) → Result MockSpec
  parse_response generate_examples url (ok body) =
      parse_or generate_examples url "failed to read response" body
  parse_response generate_examples url (err e) = err ("failed to fetch spec: " <> e)
  parse_response generate_examples url panicked = panicked

  unfoldable pub parse_url : Bool → String → Result MockSpec
  parse_url generate_examples url = parse_response generate_examples url (x.fetch url)
