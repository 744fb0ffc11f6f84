-- ===== src/Validator/Mocks.antt =====
-- `ValidateMocks`.
use pmp_mock_http.Prelude.{
  ℕ, ◌+◌, String, ◌<>◌, decimal, true, List, [], ◌∷◌, Dict, ltb, ◌==◌, if◌then◌else◌,
}
use pmp_mock_http.Models.{Mock}
use pmp_mock_http.Management.Stats.{bump}
use pmp_mock_http.Validator.Report.{ValidationResult, ValidatorExternals, warn_if}
use pmp_mock_http.Validator.Request.{validate_request}
use pmp_mock_http.Validator.Response.{validate_response}

-- fmt.Sprintf("Mock #%d (%s)", i+1, mock.Name)
abbrev mock_prefix : ℕ → Mock → String
mock_prefix i mock = "Mock #" <> decimal (i + 1) <> " (" <> mock.name <> ")"

-- `nameCount`, in which a mock without a name is not counted.
unfoldable pub count_name : Dict ℕ → Mock → Dict ℕ
count_name names mock = if mock.name == "" then names else bump names mock.name

unfoldable pub warn_duplicates : List (String × ℕ) → ValidationResult → ValidationResult
warn_duplicates [] result = result
warn_duplicates ((name, count) ∷ names) result = warn_duplicates names (
    warn_if (ltb 1 count)
      ("Duplicate mock name '" <> name <> "' (" <> decimal count <> " occurrences)") result)

module _ (x : ValidatorExternals) where
  unfoldable pub validate_mock : ℕ → Mock → ValidationResult → ValidationResult
  validate_mock i mock result =
      let prefix = mock_prefix i mock in
      validate_response x mock.response prefix (
        validate_request x mock.request prefix
          (warn_if (mock.name == "") (prefix <> ": mock has no name") result))

  unfoldable pub validate_from : ℕ → List Mock → Dict ℕ → ValidationResult → ValidationResult
  validate_from i [] names result = warn_duplicates (x.range_names names) result
  validate_from i (mock ∷ mocks) names result =
      validate_from (i + 1) mocks (count_name names mock) (validate_mock i mock result)

  unfoldable pub validate_mocks : List Mock → ValidationResult
  validate_mocks mocks =
      validate_from 0 mocks [] (record { valid = true; errors = []; warnings = [] })
