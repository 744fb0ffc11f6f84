-- ===== src/Management/Api/Handlers.antt =====
-- The handlers of the management API: each gives its answer and the manager after it.
use pmp_mock_http.Prelude.{
  ℕ, ℤ, pos, String, Option, none, some, List, [], ◌∷◌, ◌==◌, if◌then◌else◌,
}
use pmp_mock_http.Http.{HttpRequest, first_value, Result, ok, err, panicked}
use pmp_mock_http.Management.Types.{
  CreateMockRequest, UpdateMockRequest, CreateTemplateRequest, InstantiateTemplateRequest,
  ImportRequest, ExportRequest, ExportFormat, yaml, json, openapi, other,
}
use pmp_mock_http.Management.Manager.{
  Manager, create_mock, get_mock, update_mock, delete_mock, get_version_history, get_version,
  rollback_to_version, create_template, get_template, list_templates, instantiate_template,
}
use pmp_mock_http.Management.Filter.{list_mocks}
use pmp_mock_http.Management.Stats.{get_stats}
use pmp_mock_http.Management.Transfer.{import_mocks, export_mocks}
use pmp_mock_http.Management.Api.Answers.{
  Route, mocks, mock_by_id, versions, version, rollback, templates, template_by_id, instantiate,
  import_route, export_route, stats, listed, managed, history_of, version_of, templates_of,
  template_of, imported_count, statistics, exported, nothing, Answer, answers, refuses, panics,
  ApiExternals, not_allowed, invalid_body, json_or, after_prefix, before_suffix, mock_id,
  query_filter, parse_version_url,
}

module _ (x : ApiExternals) (now : ℕ) where
  unfoldable pub list_mocks_answer : HttpRequest → Manager → Answer
  list_mocks_answer r m =
      answers (pos 200) "application/json"
        (listed (list_mocks x.to_lower m (some (query_filter r.query))))

  unfoldable pub created : Manager → Option CreateMockRequest → Answer × Manager
  created m none = (invalid_body, m)
  created m (some req) =
      let (mock, m') = create_mock m now req in
      (answers (pos 201) "application/json" (managed mock), m')

  unfoldable pub handle_mocks : HttpRequest → Manager → Answer × Manager
  handle_mocks r m =
      if r.method == "GET"
      then (list_mocks_answer r m, m)
      else if r.method == "POST"
      then created m (x.decode_create r.body)
      else (not_allowed, m)

  unfoldable pub updated : String → Manager → Option UpdateMockRequest → Answer × Manager
  updated id m none = (invalid_body, m)
  updated id m (some req) =
      let (result, m') = update_mock m now id req in
      (json_or (pos 200) (pos 500) managed result, m')

  unfoldable pub deleted : Result (Unit {0}) → Answer
  deleted (ok a) = answers (pos 204) "" nothing
  deleted (err e) = refuses e (pos 404)
  deleted panicked = panics

  unfoldable pub handle_mock : HttpRequest → Manager → Option String → Answer × Manager
  handle_mock r m none = (panics, m)
  handle_mock r m (some id) =
      if r.method == "GET"
      then (json_or (pos 200) (pos 404) managed (get_mock m id), m)
      else if r.method == "PUT"
      then updated id m (x.decode_update r.body)
      else if r.method == "DELETE"
      then (let (result, m') = delete_mock m id in (deleted result, m'))
      else (not_allowed, m)

  unfoldable pub handle_mock_by_id : HttpRequest → Manager → Answer × Manager
  handle_mock_by_id r m = handle_mock r m (mock_id r)

  unfoldable pub versions_of : Manager → Option String → Answer
  versions_of m none = panics
  versions_of m (some id) = json_or (pos 200) (pos 404) history_of (get_version_history m id)

  unfoldable pub handle_versions : HttpRequest → Manager → Answer
  handle_versions r m = versions_of m (before_suffix "/versions" (mock_id r))

  unfoldable pub numbered_version : Manager → String → Option ℤ → Answer
  numbered_version m id none = refuses "Invalid version number" (pos 400)
  numbered_version m id (some n) = json_or (pos 200) (pos 404) version_of (get_version m id n)

  unfoldable pub version_at : Manager → List String → Answer
  version_at m (id ∷ n ∷ parts) = numbered_version m id (x.atoi n)
  version_at m (id ∷ []) = refuses "Invalid URL" (pos 400)
  version_at m [] = refuses "Invalid URL" (pos 400)

  unfoldable pub handle_version : HttpRequest → Manager → Answer
  handle_version r m = version_at m (parse_version_url r.path)

  unfoldable pub rolled : String → Manager → Option (ℤ × String) → Answer × Manager
  rolled id m none = (invalid_body, m)
  rolled id m (some (n, author)) =
      let (result, m') = rollback_to_version m now id n author in
      (json_or (pos 200) (pos 500) managed result, m')

  unfoldable pub rollback_of : HttpRequest → Manager → Option String → Answer × Manager
  rollback_of r m none = (panics, m)
  rollback_of r m (some id) = rolled id m (x.decode_rollback r.body)

  unfoldable pub handle_rollback : HttpRequest → Manager → Answer × Manager
  handle_rollback r m =
      if r.method == "POST"
      then rollback_of r m (before_suffix "/rollback" (mock_id r))
      else (not_allowed, m)

  unfoldable pub templated : Manager → Option CreateTemplateRequest → Answer × Manager
  templated m none = (invalid_body, m)
  templated m (some req) =
      let (template, m') = create_template m now req in
      (answers (pos 201) "application/json" (template_of template), m')

  unfoldable pub handle_templates : HttpRequest → Manager → Answer × Manager
  handle_templates r m =
      if r.method == "GET"
      then (
        answers (pos 200) "application/json"
            (templates_of (list_templates m (first_value r.query "category"))),
        m,
      )
      else if r.method == "POST"
      then templated m (x.decode_template r.body)
      else (not_allowed, m)

  unfoldable pub template_got : HttpRequest → Manager → Option String → Answer
  template_got r m none = panics
  template_got r m (some id) =
      if r.method == "GET"
      then json_or (pos 200) (pos 404) template_of (get_template m id)
      else not_allowed

  unfoldable pub handle_template_by_id : HttpRequest → Manager → Answer
  handle_template_by_id r m = template_got r m (after_prefix "/api/v1/templates/" r.path)

  unfoldable pub instantiated : Manager → Option InstantiateTemplateRequest → Answer × Manager
  instantiated m none = (invalid_body, m)
  instantiated m (some req) =
      let (result, m') = instantiate_template m now req in
      (json_or (pos 201) (pos 500) managed result, m')

  unfoldable pub handle_instantiate_template : HttpRequest → Manager → Answer × Manager
  handle_instantiate_template r m =
      if r.method == "POST" then instantiated m (x.decode_instantiate r.body) else (not_allowed, m)

  unfoldable pub imports_of : Manager → Option ImportRequest → Answer × Manager
  imports_of m none = (invalid_body, m)
  imports_of m (some req) =
      let (result, m') = import_mocks x.yaml_codec x.json_codec m now req in
      (json_or (pos 200) (pos 500) imported_count result, m')

  unfoldable pub handle_import : HttpRequest → Manager → Answer × Manager
  handle_import r m =
      if r.method == "POST" then imports_of m (x.decode_import r.body) else (not_allowed, m)

  unfoldable pub content_type_of : ExportFormat → String
  content_type_of yaml = "application/x-yaml"
  content_type_of json = "application/json"
  content_type_of openapi = "text/plain"
  content_type_of (other s) = "text/plain"

  unfoldable pub exports_as : ExportFormat → Result String → Answer
  exports_as format (ok text) = answers (pos 200) (content_type_of format) (exported text)
  exports_as format (err e) = refuses e (pos 500)
  exports_as format panicked = panics

  unfoldable pub exports_of : Manager → Option ExportRequest → Answer
  exports_of m none = invalid_body
  exports_of m (some req) =
      exports_as req.format (export_mocks x.yaml_codec x.json_codec x.to_lower m req)

  unfoldable pub handle_export : HttpRequest → Manager → Answer
  handle_export r m =
      if r.method == "POST" then exports_of m (x.decode_export r.body) else not_allowed

  unfoldable pub handle_stats : HttpRequest → Manager → Answer
  handle_stats r m =
      if r.method == "GET"
      then answers (pos 200) "application/json" (statistics (get_stats m))
      else not_allowed

  -- The handler that is registered for each route.
  unfoldable pub handle : Route → HttpRequest → Manager → Answer × Manager
  handle mocks r m = handle_mocks r m
  handle mock_by_id r m = handle_mock_by_id r m
  handle versions r m = (handle_versions r m, m)
  handle version r m = (handle_version r m, m)
  handle rollback r m = handle_rollback r m
  handle templates r m = handle_templates r m
  handle template_by_id r m = (handle_template_by_id r m, m)
  handle instantiate r m = handle_instantiate_template r m
  handle import_route r m = handle_import r m
  handle export_route r m = (handle_export r m, m)
  handle stats r m = (handle_stats r m, m)
