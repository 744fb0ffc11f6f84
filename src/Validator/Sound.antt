-- ===== src/Validator/Sound.antt =====
-- What the validator asks of a mock, said without reports and messages.
use pmp_mock_http.Prelude.{
  ℤ, pos, ltb_ℤ, String, Bool, true, false, not, ◌&&◌, ◌||◌, Option, none, some, List, all, ◌==◌,
  if◌then◌else◌,
}
use pmp_mock_http.Models.{
  Mock, Request, Response, ResponseItem, JsonPathMatcher, ChaosConfig, LatencyConfig, Value,
}
use pmp_mock_http.Matcher.Criteria.{is_empty}
use pmp_mock_http.Validator.Report.{ValidatorExternals}
use pmp_mock_http.Validator.Response.{negative, unusual, off_rate}
use pmp_mock_http.Validator.Checks.{is_none}

abbrev pub codes_ok : List ℤ → Bool
codes_ok codes = all (λ code. not (unusual code)) codes

-- Enabled chaos has a rate from 0 to 1, codes from 100 to 599, and bounds that are not negative and
-- in order.
abbrev pub chaos_ok : Option ChaosConfig → Bool
chaos_ok none = true
chaos_ok (some chaos) =
    if chaos.enabled
    then ((((not (off_rate chaos.failure_rate) && true) && codes_ok chaos.error_codes)
          && not (negative chaos.latency_min || negative chaos.latency_max))
        && not (ltb_ℤ (pos 0) chaos.latency_max && ltb_ℤ chaos.latency_max chaos.latency_min))
    else true

module _ (x : ValidatorExternals) where
  abbrev pub compiles : String → Bool
  compiles pattern = is_none (x.compile pattern)

  -- An empty pattern is not compiled.
  abbrev pub pattern_ok : Bool → String → Bool
  pattern_ok is_regex pattern = if is_regex && not (pattern == "") then compiles pattern else true

  abbrev pub header_ok : String × String → Bool
  header_ok (key, value) = compiles key && compiles value

  abbrev pub json_path_ok : JsonPathMatcher → Bool
  json_path_ok m = not (m.path == "") && (if m.regex then compiles m.value else true)

  abbrev pub java_script_ok : String → Bool
  java_script_ok script =
      if script == ""
      then true
      else (is_none x.set_global && is_none x.set_request) && is_none (x.run_string script)

  abbrev pub schema_json_ok : List (String × Value) → Option String → Bool
  schema_json_ok schema (some e) = false
  schema_json_ok schema none = is_none (x.new_schema schema)

  abbrev pub request_ok : Request → Bool
  request_ok req =
      (((((pattern_ok req.is_regex.uri req.uri && pattern_ok req.is_regex.method req.method)
              && pattern_ok req.is_regex.body req.body)
            && (if req.is_regex.headers then all header_ok (x.range_headers req.headers) else true))
          && all json_path_ok req.json_path)
        && java_script_ok req.java_script)
      && (if is_empty req.validate_schema
          then true
          else schema_json_ok req.validate_schema (x.marshal req.validate_schema))

  abbrev pub latency_ok : Option LatencyConfig → Bool
  latency_ok none = true
  latency_ok (some latency) =
      if x.to_lower latency.type == "fixed"
      then true
      else if x.to_lower latency.type == "random"
      then not (negative latency.min || negative latency.max)
        && not (ltb_ℤ (pos 0) latency.max && ltb_ℤ latency.max latency.min)
      else if x.to_lower latency.type == "percentile"
      then not (negative latency.p50 || (negative latency.p95 || negative latency.p99)) && true
      else not (not (latency.type == ""))

  abbrev pub settings_ok : Option ChaosConfig → Option LatencyConfig → Bool
  settings_ok chaos latency = (true && chaos_ok chaos) && latency_ok latency

  abbrev pub items_ok : List ResponseItem → Bool
  items_ok items = all (λ item. settings_ok item.chaos item.latency) items

  -- The mode of a sequence that has one.
  abbrev pub mode_ok : Response → Bool
  mode_ok resp = not (
      not (is_empty resp.sequence)
      && (not (resp.sequence_mode == "")
          && (not (x.to_lower resp.sequence_mode == "cycle")
              && not (x.to_lower resp.sequence_mode == "once"))))

  abbrev pub response_ok : Response → Bool
  response_ok resp = (settings_ok resp.chaos resp.latency && items_ok resp.sequence) && mode_ok resp

  abbrev pub mock_ok : Mock → Bool
  mock_ok mock = (true && request_ok mock.request) && response_ok mock.response
