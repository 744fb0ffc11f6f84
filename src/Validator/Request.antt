-- ===== src/Validator/Request.antt =====
-- `validateRequest`.
use pmp_mock_http.Prelude.{
  ℕ, ◌+◌, String, ◌<>◌, decimal, Bool, not, ◌&&◌, Option, none, some, List, [], ◌∷◌, Dict, ◌==◌,
  if◌then◌else◌,
}
use pmp_mock_http.Models.{Request, JsonPathMatcher, Value}
use pmp_mock_http.Matcher.Criteria.{is_empty}
use pmp_mock_http.Validator.Report.{
  ValidationResult, ValidatorExternals, reject, reject_if, reject_error,
}

module _ (x : ValidatorExternals) where
  -- A pattern that is given and is a regular expression compiles.
  unfoldable pub check_pattern : Bool → String → String → ValidationResult → ValidationResult
  check_pattern is_regex pattern message result =
      if is_regex && not (pattern == "")
      then reject_error (x.compile pattern) message result
      else result

  unfoldable pub check_header : String → String × String → ValidationResult → ValidationResult
  check_header prefix (key, value) result =
      reject_error (x.compile value)
        (prefix <> ": invalid header value regex for '" <> key <> "': ")
        (reject_error (x.compile key) (prefix <> ": invalid header key regex '" <> key <> "': ")
          result)

  unfoldable pub check_headers :
      String → List (String × String) → ValidationResult → ValidationResult
  check_headers prefix [] result = result
  check_headers prefix (header ∷ headers) result =
      check_headers prefix headers (check_header prefix header result)

  unfoldable pub check_json_path :
      String → ℕ → JsonPathMatcher → ValidationResult → ValidationResult
  check_json_path prefix j m result =
      let place = prefix <> ": json_path[" <> decimal j <> "]" in
      let checked = reject_if (m.path == "") (place <> " has empty path") result in
      if m.regex
      then reject_error (x.compile m.value) (place <> " invalid regex: ") checked
      else checked

  unfoldable pub check_json_paths :
      String → ℕ → List JsonPathMatcher → ValidationResult → ValidationResult
  check_json_paths prefix j [] result = result
  check_json_paths prefix j (m ∷ ms) result =
      check_json_paths prefix (j + 1) ms (check_json_path prefix j m result)

  unfoldable pub check_java_script : String → String → ValidationResult → ValidationResult
  check_java_script prefix script result =
      if script == ""
      then result
      else reject_error (x.run_string script) (prefix <> ": invalid JavaScript: ") (
          reject_error x.set_request (prefix <> ": failed to set request object: ")
            (reject_error x.set_global (prefix <> ": failed to initialize global object: ") result))

  -- A schema that cannot be marshalled is not looked at further.
  unfoldable pub check_schema_json :
      String → Dict Value → Option String → ValidationResult → ValidationResult
  check_schema_json prefix schema (some e) result =
      reject (prefix <> ": invalid validate_schema: " <> e) result
  check_schema_json prefix schema none result =
      reject_error (x.new_schema schema) (prefix <> ": invalid JSON schema: ") result

  unfoldable pub check_schema : String → Dict Value → ValidationResult → ValidationResult
  check_schema prefix schema result =
      if is_empty schema then result else check_schema_json prefix schema (x.marshal schema) result

  unfoldable pub validate_request : Request → String → ValidationResult → ValidationResult
  validate_request req prefix result =
      let patterns = check_pattern req.is_regex.body req.body (prefix <> ": invalid Body regex: ") (
        check_pattern req.is_regex.method req.method (prefix <> ": invalid Method regex: ")
          (check_pattern req.is_regex.uri req.uri (prefix <> ": invalid URI regex: ") result)) in
      let headers =
        if req.is_regex.headers
        then check_headers prefix (x.range_headers req.headers) patterns
        else patterns in
      check_schema prefix req.validate_schema
        (check_java_script prefix req.java_script (check_json_paths prefix 0 req.json_path headers))
