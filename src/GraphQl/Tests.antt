-- ===== src/GraphQl/Tests.antt =====
-- A handler with three operations.
use pmp_mock_http.Prelude.{split, String, false, none, some, [], ◌∷◌, ◌≡◌, ◌↔◌, refl, get}
use pmp_mock_http.Models.{text}
use pmp_mock_http.Http.{first_value}
use pmp_mock_http.GraphQl.Types.{GraphQlOperation, GraphQlRequest}
use pmp_mock_http.GraphQl.Query.{
  is_space, word, fields, join, trim_left, trim_right, trim_space, without_comments,
  normalize_query,
}
use pmp_mock_http.GraphQl.Words.{query_words, normalize_query-eq_iff}
use pmp_mock_http.GraphQl.Operations.{
  error_response, exact_query, query_matches, match_variables, matches_operation, first_matching,
}
use pmp_mock_http.GraphQl.Handler.{
  Handler, GraphQlExternals, find_matching_operation, panics, json_body, json_request, handle_post,
  serve_http,
}
use pmp_mock_http.GraphQl.First.{IsFirst, find_matching_operation-IsFirst, response_of}

abbrev libraries : GraphQlExternals
libraries = record {
  print = λ v. "";
  decode_request = λ body. none;
  decode_batch = λ body. none;
  decode_variables = λ variables. none;
  execute_schema = λ req. error_response "";
  new_schema = none;
}

abbrev operation : String → String → GraphQlOperation
operation name query = record {
  name = name;
  type = "query";
  query = query;
  variables = [];
  response = some (text name);
  errors = [];
  extensions = [];
  template = false;
  match_mode = "";
  variable_match = [];
}

abbrev handler : Handler
handler = record {
  has_schema = false;
  introspection = false;
  operations = operation "A" "{ a }" ∷ operation "B" "query B {\n  b\n}" ∷ [];
  validator_mode = "";
}

abbrev request : GraphQlRequest
request = record {
  query = "# all\nquery B { b }";
  operation_name = "";
  variables = [];
  extensions = [];
}

normalize_query-eq_iff_example :
    (normalize_query "# all\nquery B { b }" ≡ normalize_query "query B {\n  b\n}")
    ↔ (query_words "# all\nquery B { b }" ≡ query_words "query B {\n  b\n}")
normalize_query-eq_iff_example = normalize_query-eq_iff "# all\nquery B { b }" "query B {\n  b\n}"

find_matching_operation-IsFirst_example :
    IsFirst libraries.print request handler.operations
      (find_matching_operation libraries handler request)
find_matching_operation-IsFirst_example = find_matching_operation-IsFirst libraries handler request

second_found :
    find_matching_operation libraries handler request
    ≡ response_of (operation "B" "query B {\n  b\n}")
unfolding find_matching_operation first_matching matches_operation query_matches exact_query
    match_variables normalize_query trim_space trim_left trim_right join fields word split
    without_comments is_space
second_found = refl

-- A POST of a blank JSON body panics.
blank_panics :
    serve_http libraries handler (record {
      method = "POST";
      path = "/graphql";
      raw_query = "";
      request_uri = "/graphql";
      query = [];
      form = none;
      header = ("Content-Type", "application/json" ∷ []) ∷ [];
      body = some " ";
      host = "localhost";
      remote_addr = "";
      tls = false;
    })
    ≡ panics
unfolding serve_http handle_post json_request json_body trim_space trim_left trim_right is_space
    first_value get
blank_panics = refl
