-- ===== src/GraphQl/Handler.antt =====
-- `ServeHTTP` and `handleBatch`.
use pmp_mock_http.Prelude.{
  ℤ, pos, String, Bool, true, false, ◌&&◌, Option, none, some, List, [], Dict, contains, map, ◌==◌,
  if◌then◌else◌,
}
use pmp_mock_http.Http.{HttpRequest, first_value}
use pmp_mock_http.Models.{Value, text, slice, object, nil, cons}
use pmp_mock_http.GraphQl.Types.{GraphQlConfig, GraphQlOperation, GraphQlRequest, GraphQlResponse}
use pmp_mock_http.GraphQl.Query.{trim_space, is_introspection_query}
use pmp_mock_http.GraphQl.Operations.{error_response, first_matching}

-- Of the schema of graphql-go only its presence is kept. A nil pointer is `false`.
pub record Handler : Type 0 where
  pub has_schema : Bool
  pub introspection : Bool
  pub operations : List GraphQlOperation
  pub validator_mode : String

pub record GraphQlExternals : Type 0 where
  pub print : Value → String
  -- json.Unmarshal into a request, a batch and the variables
  pub decode_request : String → Option GraphQlRequest
  pub decode_batch : String → Option (List GraphQlRequest)
  pub decode_variables : String → Option (Dict Value)
  -- graphql.Do on the schema that parseSchema builds
  pub execute_schema : GraphQlRequest → GraphQlResponse
  -- graphql.NewSchema of the schema that parseSchema builds: the message of its error
  pub new_schema : Option String

-- A response as JSON with its status, a batch of them, http.Error, or a panic.
pub data Answer : Type 0 where
  responds : ℤ → GraphQlResponse → Answer
  responds_batch : List GraphQlResponse → Answer
  refuses : String → ℤ → Answer
  panics : Answer

unfoldable pub send_error : String → ℤ → Answer
send_error message status_code = responds status_code (error_response message)

abbrev named : String → Value
named name = object (cons "name" (text name) nil)

-- `sendIntrospectionResponse`
unfoldable pub introspection_response : GraphQlResponse
introspection_response = record {
  response_data = some (
      object (
        cons "__schema"
          (object (
            cons "queryType" (named "Query") (
              cons "mutationType" (named "Mutation") (
                cons "subscriptionType" (named "Subscription")
                  (cons "types" (slice nil) (cons "directives" (slice nil) nil))))))
          nil));
  errors = [];
  extensions = [];
}

module _ (x : GraphQlExternals) where
  -- `NewHandler`: the error, or the handler.
  unfoldable pub made_handler : GraphQlConfig → Bool → Handler
  made_handler config has_schema = record {
    has_schema = has_schema;
    introspection = config.introspection;
    operations = config.operations;
    validator_mode = config.validation_mode;
  }

  unfoldable pub new_handler : GraphQlConfig → Option Handler
  new_handler config =
      if config.schema == ""
      then some (made_handler config false)
      else elim x.new_schema [ none ↦ some (made_handler config true) | some e ↦ none ]

  unfoldable pub find_matching_operation : Handler → GraphQlRequest → GraphQlResponse
  find_matching_operation h req = first_matching x.print req h.operations

  unfoldable pub handle_batch : Handler → List GraphQlRequest → Answer
  handle_batch h requests = responds_batch (map (find_matching_operation h) requests)

  -- From the parsed request on.
  unfoldable pub answer : Handler → GraphQlRequest → Answer
  answer h req =
      if h.introspection && is_introspection_query req.query
      then (if h.has_schema
          then responds (pos 200) (x.execute_schema req)
          else responds (pos 200) introspection_response)
      else responds (pos 200) (find_matching_operation h req)

  unfoldable pub answer_or : Handler → String → Option GraphQlRequest → Answer
  answer_or h message none = send_error message (pos 400)
  answer_or h message (some req) = answer h req

  unfoldable pub batch_or : Handler → Option (List GraphQlRequest) → Answer
  batch_or h none = send_error "Invalid JSON" (pos 400)
  batch_or h (some requests) = handle_batch h requests

  -- `strings.TrimSpace(string(body))[0]`, which panics if the body is blank.
  unfoldable pub json_body : Handler → String → String → Answer
  json_body h body String.[] = panics
  json_body h body (String.◌∷◌ c rest) =
      if String.◌∷◌ c "" == "["
      then batch_or h (x.decode_batch body)
      else answer_or h "Invalid JSON" (x.decode_request body)

  abbrev query_request : String → String → Dict Value → GraphQlRequest
  query_request query operation_name variables = record {
    query = query;
    operation_name = operation_name;
    variables = variables;
    extensions = [];
  }

  unfoldable pub json_request : Handler → Option String → Answer
  json_request h none = send_error "Failed to read request body" (pos 400)
  json_request h (some body) = json_body h body (trim_space body)

  unfoldable pub raw_request : Handler → Option String → Answer
  raw_request h none = send_error "Failed to read request body" (pos 400)
  raw_request h (some body) = answer h (query_request body "" [])

  unfoldable pub handle_post : Handler → HttpRequest → Answer
  handle_post h r =
      let content_type = first_value r.header "Content-Type" in
      if contains content_type "application/json"
      then json_request h r.body
      else if contains content_type "application/graphql"
      then raw_request h r.body
      else send_error "Unsupported Content-Type" (pos 415)

  unfoldable pub get_variables : String → Option (Dict Value)
  get_variables variables = if variables == "" then some [] else x.decode_variables variables

  unfoldable pub with_variables : HttpRequest → Option (Dict Value) → Option GraphQlRequest
  with_variables r none = none
  with_variables r (some variables) =
      some (
        query_request (first_value r.query "query") (first_value r.query "operationName") variables)

  unfoldable pub handle_get : Handler → HttpRequest → Answer
  handle_get h r =
      answer_or h "Invalid variables JSON"
        (with_variables r (get_variables (first_value r.query "variables")))

  unfoldable pub serve_http : Handler → HttpRequest → Answer
  serve_http h r =
      if r.method == "POST"
      then handle_post h r
      else if r.method == "GET"
      then handle_get h r
      else refuses "Method not allowed" (pos 405)
