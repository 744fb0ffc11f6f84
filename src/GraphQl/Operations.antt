-- ===== src/GraphQl/Operations.antt =====
-- Which operation a request matches, and the response to it.
use pmp_mock_http.Prelude.{
  String, Bool, true, false, not, ◌&&◌, Option, none, some, List, [], ◌∷◌, Dict, get, contains,
  ◌==◌, if◌then◌else◌,
}
use pmp_mock_http.Models.{Value}
use pmp_mock_http.Matcher.Criteria.{is_empty}
use pmp_mock_http.GraphQl.Types.{GraphQlOperation, GraphQlRequest, GraphQlResponse}
use pmp_mock_http.GraphQl.Query.{normalize_query}

-- A response with one error that has a message only.
abbrev pub error_response : String → GraphQlResponse
error_response message = record {
  response_data = none;
  errors = record { message = message; path = []; locations = []; extensions = [] } ∷ [];
  extensions = [];
}

unfoldable pub exact_query : GraphQlRequest → GraphQlOperation → Bool
exact_query req op = normalize_query req.query == normalize_query op.query

unfoldable pub partial_query : GraphQlRequest → GraphQlOperation → Bool
partial_query req op = contains (normalize_query req.query) (normalize_query op.query)

-- The switch on the mode, in which "regex" compares nothing.
unfoldable pub query_matches : GraphQlRequest → GraphQlOperation → Bool
query_matches req op =
    if op.match_mode == "exact"
    then exact_query req op
    else if op.match_mode == "partial"
    then partial_query req op
    else if op.match_mode == "regex"
    then true
    else exact_query req op

-- `print` is fmt.Sprintf("%v").
module _ (print : Value → String) where
  unfoldable pub variable_matches : Option Value → Value → Bool
  variable_matches none expected = false
  variable_matches (some v) expected = print v == print expected

  -- The order in which Go ranges over the map does not matter, since all of them have to match.
  unfoldable pub match_variables : Dict Value → List (String × Value) → Bool
  match_variables variables [] = true
  match_variables variables ((key, expected) ∷ rest) =
      if variable_matches (get variables key) expected
      then match_variables variables rest
      else false

  unfoldable pub matches_operation : GraphQlRequest → GraphQlOperation → Bool
  matches_operation req op =
      if not (req.operation_name == "") && not (req.operation_name == op.name)
      then false
      else if not (query_matches req op)
      then false
      else if not (is_empty op.variables) && not (match_variables req.variables op.variables)
      then false
      else true

  unfoldable pub first_matching : GraphQlRequest → List GraphQlOperation → GraphQlResponse
  first_matching req [] = error_response "No matching GraphQL operation found"
  first_matching req (op ∷ ops) =
      let rest = first_matching req ops in
      if matches_operation req op
      then record { response_data = op.response; errors = op.errors; extensions = op.extensions }
      else rest
