-- ===== src/Validator/Tests.antt =====
-- The validator at a list of mocks.
use pmp_mock_http.Prelude.{
  decimal, get, insert, pos, true, false, none, some, [], ◌∷◌, all, ◌==◌, if◌then◌else◌, ◌≡◌, refl,
}
use pmp_mock_http.Models.{lt_float64, Mock, ChaosConfig, empty_mock, empty_response, empty_request}
use pmp_mock_http.Server.Types.{Rolls}
use pmp_mock_http.Server.Chances.{fails, apply_chaos}
use pmp_mock_http.Server.Answer.{valid_code}
use pmp_mock_http.Management.Stats.{bump}
use pmp_mock_http.Validator.Report.{ValidatorExternals, reject, reject_if, reject_error, warn_if}
use pmp_mock_http.Validator.Checks.{IsConsistent}
use pmp_mock_http.Validator.Request.{
  check_pattern, check_headers, check_json_paths, check_java_script, check_schema, validate_request,
}
use pmp_mock_http.Validator.Response.{
  check_codes, check_chaos, check_latency, check_settings, check_items, check_mode,
  validate_response,
}
use pmp_mock_http.Validator.Mocks.{
  count_name, warn_duplicates, validate_mock, validate_from, validate_mocks,
}
use pmp_mock_http.Validator.Sound.{mock_ok}
use pmp_mock_http.Validator.Valid.{validate_mocks-valid}
use pmp_mock_http.Validator.Safe.{validated-chaos-valid}

-- The only pattern that does not compile is "(".
abbrev libraries : ValidatorExternals
libraries = record {
  compile = λ pattern. if pattern == "(" then some "missing )" else none;
  set_global = none;
  set_request = none;
  run_string = λ script. none;
  marshal = λ schema. none;
  new_schema = λ schema. none;
  to_lower = λ text. text;
  range_headers = λ headers. headers;
  range_names = λ names. names;
}

abbrev rolls : Rolls
rolls = record {
  failure = record { bits = 0 };
  error_code = λ n. 0;
  chaos_latency = λ n. 0;
  percentile = record { bits = 0 };
  latency = λ n. 0;
}

abbrev chaos : ChaosConfig
chaos = record {
  enabled = true;
  failure_rate = record { bits = 0x3FE0000000000000 };
  error_codes = pos 503 ∷ pos 500 ∷ [];
  latency_min = pos 10;
  latency_max = pos 20;
}

abbrev mock : Mock
mock = record empty_mock {
  name = "users";
  response = record empty_response { status_code = pos 200; chaos = some chaos };
}

abbrev broken : Mock
broken = record mock {
  request = record empty_request {
    uri = "(";
    is_regex = record { uri = true; method = false; headers = false; body = false };
  };
}

validate_mocks-valid_example :
    ((validate_mocks libraries (mock ∷ broken ∷ [])).valid
      ≡ all (mock_ok libraries) (mock ∷ broken ∷ []))
    × IsConsistent (validate_mocks libraries (mock ∷ broken ∷ []))
validate_mocks-valid_example = validate_mocks-valid libraries (mock ∷ broken ∷ [])

broken_report :
    (validate_mocks libraries (broken ∷ [])).errors
    ≡ "Mock #1 (users): invalid URI regex: missing )" ∷ []
unfolding validate_mocks validate_from validate_mock validate_request validate_response
    check_pattern check_headers check_json_paths check_java_script check_schema check_settings
    check_items check_mode check_chaos check_codes check_latency warn_duplicates count_name reject
    reject_if reject_error warn_if lt_float64 bump get insert decimal
broken_report = refl

mock_valid : (validate_mocks libraries (mock ∷ [])).valid ≡ true
unfolding lt_float64
mock_valid = (validate_mocks-valid libraries (mock ∷ [])).0

mock_fails : apply_chaos rolls mock.response.chaos ≡ fails (pos 503)
unfolding apply_chaos lt_float64
mock_fails = refl

validated-chaos-valid_example : valid_code (pos 503) ≡ true
validated-chaos-valid_example =
    validated-chaos-valid libraries (mock ∷ []) rolls 0 mock (pos 503) mock_valid refl mock_fails
