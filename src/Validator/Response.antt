-- ===== src/Validator/Response.antt =====
-- `validateResponse`.
use pmp_mock_http.Prelude.{
  ℕ, ◌+◌, ℤ, pos, ltb_ℤ, String, ◌<>◌, decimal, Bool, not, ◌&&◌, ◌||◌, Option, none, some, List, [],
  ◌∷◌, ◌==◌, if◌then◌else◌,
}
use pmp_mock_http.Models.{Response, ResponseItem, ChaosConfig, LatencyConfig, Float64, lt_float64}
use pmp_mock_http.Matcher.Criteria.{is_empty}
use pmp_mock_http.Management.Manager.{signed}
use pmp_mock_http.Validator.Report.{ValidationResult, ValidatorExternals, reject_if, warn_if}

-- `n < 0`
abbrev pub negative : ℤ → Bool
negative n = ltb_ℤ n (pos 0)

-- `code < 100 || code > 599`
abbrev pub unusual : ℤ → Bool
unusual code = ltb_ℤ code (pos 100) || ltb_ℤ (pos 599) code

-- `rate < 0 || rate > 1`, with the constants as bits.
abbrev pub off_rate : Float64 → Bool
off_rate rate =
    lt_float64 rate (record { bits = 0 }) || lt_float64 (record { bits = 0x3FF0000000000000 }) rate

unfoldable pub check_codes : String → List ℤ → ValidationResult → ValidationResult
check_codes prefix [] result = result
check_codes prefix (code ∷ codes) result =
    check_codes prefix codes
      (reject_if (unusual code) (prefix <> ": invalid chaos error code " <> signed code) result)

unfoldable pub check_chaos : String → Option ChaosConfig → ValidationResult → ValidationResult
check_chaos prefix none result = result
check_chaos prefix (some chaos) result =
    if chaos.enabled
    then reject_if (ltb_ℤ (pos 0) chaos.latency_max && ltb_ℤ chaos.latency_max chaos.latency_min)
        (prefix <> ": chaos latency_min must be <= latency_max")
        (reject_if (negative chaos.latency_min || negative chaos.latency_max)
          (prefix <> ": chaos latency values must be >= 0")
          (check_codes prefix chaos.error_codes (
            warn_if (is_empty chaos.error_codes)
              (prefix <> ": chaos enabled but no error_codes specified")
              (reject_if (off_rate chaos.failure_rate)
                (prefix <> ": chaos failure_rate must be between 0 and 1") result))))
    else result

unfoldable pub check_random : String → LatencyConfig → ValidationResult → ValidationResult
check_random prefix latency result =
    reject_if (ltb_ℤ (pos 0) latency.max && ltb_ℤ latency.max latency.min)
      (prefix <> ": latency min must be <= max")
      (reject_if (negative latency.min || negative latency.max)
        (prefix <> ": latency min/max must be >= 0") result)

unfoldable pub check_percentile : String → LatencyConfig → ValidationResult → ValidationResult
check_percentile prefix latency result =
    warn_if (ltb_ℤ latency.p95 latency.p50 || ltb_ℤ latency.p99 latency.p95)
      (prefix <> ": latency percentiles should be ordered p50 <= p95 <= p99")
      (reject_if (negative latency.p50 || (negative latency.p95 || negative latency.p99))
        (prefix <> ": latency percentiles must be >= 0") result)

module _ (x : ValidatorExternals) where
  unfoldable pub check_latency : String → Option LatencyConfig → ValidationResult → ValidationResult
  check_latency prefix none result = result
  check_latency prefix (some latency) result =
      let type = x.to_lower latency.type in
      if type == "fixed"
      then result
      else if type == "random"
      then check_random prefix latency result
      else if type == "percentile"
      then check_percentile prefix latency result
      else reject_if (not (latency.type == ""))
          (prefix <> ": invalid latency type '" <> latency.type
            <> "' (must be: fixed, random, or percentile)")
          result

  -- The checks that a response and the items of its sequence share.
  unfoldable pub check_settings :
      String → ℤ → Option ChaosConfig → Option LatencyConfig → ValidationResult → ValidationResult
  check_settings prefix status_code chaos latency result = check_latency prefix latency (
      check_chaos prefix chaos (
        warn_if (unusual status_code) (prefix <> ": unusual status code " <> signed status_code)
          result))

  -- The recursive call on an item: the response that is built from it has no sequence and no mode,
  -- so that the call ends with its settings.
  unfoldable pub check_items : String → ℕ → List ResponseItem → ValidationResult → ValidationResult
  check_items prefix j [] result = result
  check_items prefix j (item ∷ items) result = check_items prefix (j + 1) items (
      check_settings (prefix <> " sequence[" <> decimal j <> "]") item.status_code item.chaos
        item.latency result)

  unfoldable pub check_mode : String → Response → ValidationResult → ValidationResult
  check_mode prefix resp result =
      let mode = x.to_lower resp.sequence_mode in
      reject_if
        (not (is_empty resp.sequence)
          && (not (resp.sequence_mode == "") && (not (mode == "cycle") && not (mode == "once"))))
        (prefix <> ": invalid sequence_mode '" <> resp.sequence_mode
          <> "' (must be: cycle or once)")
        result

  unfoldable pub validate_response : Response → String → ValidationResult → ValidationResult
  validate_response resp prefix result = check_mode prefix resp (
      check_items prefix 0 resp.sequence
        (check_settings prefix resp.status_code resp.chaos resp.latency result))
