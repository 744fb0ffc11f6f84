-- ===== src/Validator/Valid.antt =====
-- The validator's verdict, put together from its checks.
use pmp_mock_http.Prelude.{
  ℕ, ◌+◌, ℤ, String, Bool, true, not, ◌&&◌, Option, none, some, List, [], ◌∷◌, ◌≡◌, refl, all, ◌==◌,
  Dict,
}
use pmp_mock_http.Models.{
  Mock, Request, Response, ResponseItem, JsonPathMatcher, ChaosConfig, LatencyConfig, Value,
}
use pmp_mock_http.Matcher.Criteria.{is_empty}
use pmp_mock_http.Validator.Report.{ValidatorExternals}
use pmp_mock_http.Validator.Request.{
  check_pattern, check_header, check_headers, check_json_path, check_json_paths, check_java_script,
  check_schema_json, check_schema, validate_request,
}
use pmp_mock_http.Validator.Response.{
  check_codes, check_chaos, check_random, check_percentile, check_latency, check_settings,
  check_items, check_mode, validate_response,
}
use pmp_mock_http.Validator.Mocks.{warn_duplicates, validate_mock, validate_from, validate_mocks}
use pmp_mock_http.Validator.Checks.{
  IsConsistent, Checks, Checks-same, Checks-reject, Checks-reject_if, Checks-warn_if,
  Checks-reject_error, Checks-then, Checks-if,
}
use pmp_mock_http.Validator.Sound.{
  codes_ok, chaos_ok, pattern_ok, header_ok, json_path_ok, java_script_ok, schema_json_ok,
  request_ok, latency_ok, settings_ok, items_ok, response_ok, mock_ok,
}

check_codes-Checks :
    (prefix : String) (codes : List ℤ) → Checks (check_codes prefix codes) (codes_ok codes)
unfolding check_codes
check_codes-Checks prefix [] = Checks-same
check_codes-Checks prefix (code ∷ codes) =
    Checks-then (Checks-reject_if _ _) (check_codes-Checks prefix codes)

check_chaos-Checks :
    (prefix : String) (chaos : Option ChaosConfig)
    → Checks (check_chaos prefix chaos) (chaos_ok chaos)
unfolding check_chaos
check_chaos-Checks prefix none = Checks-same
check_chaos-Checks prefix (some chaos) =
    Checks-if chaos.enabled
      (Checks-then
        (Checks-then
          (Checks-then (Checks-then (Checks-reject_if _ _) (Checks-warn_if _ _))
            (check_codes-Checks prefix chaos.error_codes))
          (Checks-reject_if _ _))
        (Checks-reject_if _ _))
      Checks-same

module _ (x : ValidatorExternals) where
  check_pattern-Checks :
      (is_regex : Bool) (pattern message : String)
      → Checks (check_pattern x is_regex pattern message) (pattern_ok x is_regex pattern)
  unfolding check_pattern
  check_pattern-Checks is_regex pattern message =
      Checks-if (is_regex && not (pattern == "")) (Checks-reject_error _ _) Checks-same

  check_header-Checks :
      (prefix : String) (header : String × String)
      → Checks (check_header x prefix header) (header_ok x header)
  unfolding check_header
  check_header-Checks prefix (key, value) =
      Checks-then (Checks-reject_error _ _) (Checks-reject_error _ _)

  check_headers-Checks :
      (prefix : String) (headers : List (String × String))
      → Checks (check_headers x prefix headers) (all (header_ok x) headers)
  unfolding check_headers
  check_headers-Checks prefix [] = Checks-same
  check_headers-Checks prefix (header ∷ headers) =
      Checks-then (check_header-Checks prefix header) (check_headers-Checks prefix headers)

  check_json_path-Checks :
      (prefix : String) (j : ℕ) (m : JsonPathMatcher)
      → Checks (check_json_path x prefix j m) (json_path_ok x m)
  unfolding check_json_path
  check_json_path-Checks prefix j m =
      Checks-then (Checks-reject_if _ _) (Checks-if m.regex (Checks-reject_error _ _) Checks-same)

  check_json_paths-Checks :
      (prefix : String) (j : ℕ) (ms : List JsonPathMatcher)
      → Checks (check_json_paths x prefix j ms) (all (json_path_ok x) ms)
  unfolding check_json_paths
  check_json_paths-Checks prefix j [] = Checks-same
  check_json_paths-Checks prefix j (m ∷ ms) =
      Checks-then (check_json_path-Checks prefix j m) (check_json_paths-Checks prefix (j + 1) ms)

  check_java_script-Checks :
      (prefix script : String)
      → Checks (check_java_script x prefix script) (java_script_ok x script)
  unfolding check_java_script
  check_java_script-Checks prefix script = Checks-if (script == "") Checks-same (
      Checks-then (Checks-then (Checks-reject_error _ _) (Checks-reject_error _ _))
        (Checks-reject_error _ _))

  check_schema_json-Checks :
      (prefix : String) (schema : Dict Value) (o : Option String)
      → Checks (check_schema_json x prefix schema o) (schema_json_ok x schema o)
  unfolding check_schema_json
  check_schema_json-Checks prefix schema (some e) = Checks-reject _
  check_schema_json-Checks prefix schema none = Checks-reject_error _ _

  validate_request-Checks :
      (req : Request) (prefix : String) → Checks (validate_request x req prefix) (request_ok x req)
  unfolding validate_request check_schema
  validate_request-Checks req prefix =
      Checks-then
        (Checks-then
          (Checks-then
            (Checks-then
              (Checks-then (Checks-then (check_pattern-Checks _ _ _) (check_pattern-Checks _ _ _))
                (check_pattern-Checks _ _ _))
              (Checks-if req.is_regex.headers (check_headers-Checks prefix _) Checks-same))
            (check_json_paths-Checks prefix 0 req.json_path))
          (check_java_script-Checks prefix req.java_script))
        (Checks-if (is_empty req.validate_schema) Checks-same
          (check_schema_json-Checks prefix req.validate_schema (x.marshal req.validate_schema)))

  check_latency-Checks :
      (prefix : String) (latency : Option LatencyConfig)
      → Checks (check_latency x prefix latency) (latency_ok x latency)
  unfolding check_latency check_random check_percentile
  check_latency-Checks prefix none = Checks-same
  check_latency-Checks prefix (some latency) =
      Checks-if (x.to_lower latency.type == "fixed") Checks-same (
        Checks-if (x.to_lower latency.type == "random")
          (Checks-then (Checks-reject_if _ _) (Checks-reject_if _ _))
          (Checks-if (x.to_lower latency.type == "percentile")
            (Checks-then (Checks-reject_if _ _) (Checks-warn_if _ _)) (Checks-reject_if _ _)))

  check_settings-Checks :
      (prefix : String) (status_code : ℤ) (chaos : Option ChaosConfig)
      (latency : Option LatencyConfig)
      → Checks (check_settings x prefix status_code chaos latency) (settings_ok x chaos latency)
  unfolding check_settings
  check_settings-Checks prefix status_code chaos latency =
      Checks-then (Checks-then (Checks-warn_if _ _) (check_chaos-Checks prefix chaos))
        (check_latency-Checks prefix latency)

  check_items-Checks :
      (prefix : String) (j : ℕ) (items : List ResponseItem)
      → Checks (check_items x prefix j items) (items_ok x items)
  unfolding check_items
  check_items-Checks prefix j [] = Checks-same
  check_items-Checks prefix j (item ∷ items) =
      Checks-then (check_settings-Checks _ item.status_code item.chaos item.latency)
        (check_items-Checks prefix (j + 1) items)

  validate_response-Checks :
      (resp : Response) (prefix : String)
      → Checks (validate_response x resp prefix) (response_ok x resp)
  unfolding validate_response check_mode
  validate_response-Checks resp prefix =
      Checks-then
        (Checks-then (check_settings-Checks prefix resp.status_code resp.chaos resp.latency)
          (check_items-Checks prefix 0 resp.sequence))
        (Checks-reject_if _ _)

  validate_mock-Checks : (i : ℕ) (mock : Mock) → Checks (validate_mock x i mock) (mock_ok x mock)
  unfolding validate_mock
  validate_mock-Checks i mock =
      Checks-then (Checks-then (Checks-warn_if _ _) (validate_request-Checks mock.request _))
        (validate_response-Checks mock.response _)

  warn_duplicates-Checks : (names : Dict ℕ) → Checks (warn_duplicates names) true
  unfolding warn_duplicates
  warn_duplicates-Checks [] = Checks-same
  warn_duplicates-Checks ((name, count) ∷ names) =
      Checks-then (Checks-warn_if _ _) (warn_duplicates-Checks names)

  validate_from-Checks :
      (i : ℕ) (mocks : List Mock) (names : Dict ℕ)
      → Checks (validate_from x i mocks names) (all (mock_ok x) mocks)
  unfolding validate_from
  validate_from-Checks i [] names = warn_duplicates-Checks (x.range_names names)
  validate_from-Checks i (mock ∷ mocks) names =
      Checks-then (validate_mock-Checks i mock) (validate_from-Checks (i + 1) mocks _)

  -- The validator reports a list of mocks as valid exactly if every mock has patterns and schemas
  -- that compile, a script that runs to its end without an error on one fixed request, whose body is
  -- empty, paths that are not empty, enabled chaos and a latency within their bounds, in its response
  -- and in the items of its sequence, and a known mode; and it reports an error exactly if it reports
  -- the list as not valid. So a script that compiles is not valid if it fails on that request. Names,
  -- whether given or given twice, and unusual status codes decide nothing.
  pub validate_mocks-valid :
      (mocks : List Mock)
      → ((validate_mocks x mocks).valid ≡ all (mock_ok x) mocks)
        × IsConsistent (validate_mocks x mocks)
  unfolding validate_mocks
  validate_mocks-valid mocks =
      ((validate_from-Checks 0 mocks []).decides _, (validate_from-Checks 0 mocks []).keeps _ refl)
