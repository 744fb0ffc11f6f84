-- ===== src/Validator/Report.antt =====
-- `ValidationResult`, which every check is given and may add to, and the libraries that the checks
-- call: a text is the message of an error, `none` that there is none.
use pmp_mock_http.Prelude.{
  String, ◌<>◌, Bool, false, Option, none, some, List, [], ◌∷◌, ◌++◌, Dict, ℕ, if◌then◌else◌,
}
use pmp_mock_http.Models.{Value}

pub record ValidationResult : Type 0 where
  pub valid : Bool
  pub errors : List String
  pub warnings : List String

pub record ValidatorExternals : Type 0 where
  -- regexp.Compile
  pub compile : String → Option String
  -- a new goja runtime: vm.Set("global", …), vm.Set("request", …) and vm.RunString(script)
  pub set_global : Option String
  pub set_request : Option String
  pub run_string : String → Option String
  -- the error of json.Marshal, and that of gojsonschema.NewSchema on what was marshalled
  pub marshal : Dict Value → Option String
  pub new_schema : Dict Value → Option String
  -- strings.ToLower
  pub to_lower : String → String
  -- the order in which Go ranges over the headers, and over the counts of names
  pub range_headers : Dict String → Dict String
  pub range_names : Dict ℕ → Dict ℕ

-- `result.Valid = false`, and the message is appended to the errors.
unfoldable pub reject : String → ValidationResult → ValidationResult
reject message result = record result { valid = false; errors = result.errors ++ message ∷ [] }

unfoldable pub reject_if : Bool → String → ValidationResult → ValidationResult
reject_if bad message result = if bad then reject message result else result

-- `if err != nil`: the message ends with the error.
unfoldable pub reject_error : Option String → String → ValidationResult → ValidationResult
reject_error none message result = result
reject_error (some e) message result = reject (message <> e) result

unfoldable pub warn_if : Bool → String → ValidationResult → ValidationResult
warn_if bad message result =
    if bad then record result { warnings = result.warnings ++ message ∷ [] } else result
