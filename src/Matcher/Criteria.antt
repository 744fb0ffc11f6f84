-- ===== src/Matcher/Criteria.antt =====
-- `matches` and what it calls: the criteria of a mock's `request` section.
use pmp_mock_http.Prelude.{
  String, Bool, true, false, ◌&&◌, none, some, List, [], ◌∷◌, Dict, get, any, all, ◌==◌,
  if◌then◌else◌,
}
use pmp_mock_http.Models.{Mock, JsonPathMatcher, Value}
use pmp_mock_http.Http.{HttpRequest, Header}
use pmp_mock_http.Externals.{Externals, equal_fold}

-- `len(m) == 0`
abbrev pub is_empty {ℓ} : {A : Type ℓ} → List A → Bool
is_empty [] = true
is_empty (_ ∷ _) = false

module _ {VM : Type 0} (x : Externals VM) where
  -- regexp.MatchString, where an invalid pattern counts as no match.
  unfoldable pub regexp_matches : String → String → Bool
  regexp_matches pattern value = elim (x.match_regexp pattern value) [ none ↦ false | some b ↦ b ]

  unfoldable pub match_string : String → String → Bool → Bool
  unfolding regexp_matches
  match_string value pattern use_regex =
      if pattern == ""
      then true
      else if use_regex
      then regexp_matches pattern value
      else equal_fold x value pattern

  -- The values of the request's headers that one of the mock's headers is compared with.
  unfoldable pub pair_matched : String → String → String × List String → Bool
  unfolding regexp_matches
  pair_matched mock_key mock_value (req_key, req_values) =
      regexp_matches mock_key req_key && any (λ v. regexp_matches mock_value v) req_values

  values : Header → String → List String
  values h key = elim (get h (x.canonical_key key)) [ none ↦ [] | some vs ↦ vs ]

  -- One round of the loop over the mock's headers: whether `matched` is true at its end.
  unfoldable pub header_matched : Header → Bool → String × String → Bool
  unfolding pair_matched values
  header_matched h use_regex (mock_key, mock_value) =
      if use_regex
      then any (pair_matched mock_key mock_value) h
      else any (λ v. equal_fold x v mock_value) (values h mock_key)

  unfoldable pub match_headers : Header → Dict String → Bool → Bool
  unfolding header_matched
  match_headers h mock_headers use_regex = all (header_matched h use_regex) mock_headers

  -- One round of the loop of `matchJSONPath`.
  unfoldable pub path_matched : String → JsonPathMatcher → Bool
  unfolding regexp_matches
  path_matched body m = elim (x.json_get body m.path) [
    | none ↦ false
    | some found ↦ if m.regex then regexp_matches m.value found else found == m.value
  ]

  unfoldable pub match_json_path : String → List JsonPathMatcher → Bool
  unfolding path_matched
  match_json_path body matchers =
      if x.json_valid body then all (path_matched body) matchers else false

  unfoldable pub validate_schema : String → Dict Value → Bool
  validate_schema body schema =
      if x.json_valid body
      then elim (x.marshal schema) [
        | none ↦ false
        | some schema_json ↦ elim (x.validate schema_json body) [ none ↦ false | some b ↦ b ]
      ]
      else false

  unfoldable pub matches : HttpRequest → String → Mock → Bool
  matches r body mock =
      let want = mock.request in
      match_string r.path want.uri want.is_regex.uri
      && (match_string r.method want.method want.is_regex.method
          && (match_headers r.header want.headers want.is_regex.headers
              && ((if want.body == "" then true else match_string body want.body want.is_regex.body)
                  && ((if is_empty want.json_path
                        then true
                        else match_json_path body want.json_path)
                      && (if is_empty want.validate_schema
                          then true
                          else validate_schema body want.validate_schema)))))
