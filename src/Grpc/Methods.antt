-- ===== src/Grpc/Methods.antt =====
-- `handleUnknownService` and the handlers of the four kinds of method.
use pmp_mock_http.Prelude.{
  ℕ, ◌-◌, ◌%◌, ◌^◌, nat_eq, ◌||◌, ℤ, pos, negsuc, eq_ℤ, ltb_ℤ, String, ◌<>◌, Bool, true, Option,
  none, some, List, [], ◌∷◌, ◌++◌, Dict, get, split, contains, ◌==◌, if◌then◌else◌,
}
use pmp_mock_http.Models.{Value}
use pmp_mock_http.Matcher.Criteria.{is_empty}
use pmp_mock_http.Grpc.Types.{
  RequestMatcher, ResponseConfig, MethodConfig, ServiceConfig, Services, Received, message,
  end_of_stream, broken, Effect, sends_header, sends, fails_to_send, sets_trailer, sleeps, Outcome,
  ok, status, stream_error, GrpcExternals,
}

-- `if delay > 0 { time.Sleep(…) }`
unfoldable pub wait : ℤ → List Effect
wait delay = if ltb_ℤ (pos 0) delay then sleeps delay ∷ [] else []

unfoldable pub header_of : Dict String → List Effect
header_of metadata = if is_empty metadata then [] else sends_header metadata ∷ []

unfoldable pub trailer_of : Dict String → List Effect
trailer_of trailers = if is_empty trailers then [] else sets_trailer trailers ∷ []

-- codes.Code(code), which is a uint32.
unfoldable pub code_of : ℤ → ℕ
code_of (pos n) = n % 2 ^ 32
code_of (negsuc n) = 2 ^ 32 - 1 - n % 2 ^ 32

-- `if method.StatusCode != 0`; status.Error of the code 0 is nil.
unfoldable pub final_status : MethodConfig → Outcome
final_status method =
    let code = code_of method.status_code in
    if eq_ℤ method.status_code (pos 0) || nat_eq code 0
    then ok
    else status (pos code) method.status_message

unfoldable pub find_method : List MethodConfig → String → Option MethodConfig
find_method [] name = none
find_method (method ∷ methods) name =
    if method.name == name then some method else find_method methods name

module _ (x : GrpcExternals) where
  unfoldable pub matches_body : String → Dict Value → Option (Dict Value) → Bool
  matches_body mode fields none = true
  matches_body mode fields (some body) =
      if mode == "partial"
      then contains (x.marshal fields) (x.marshal body)
      else x.marshal fields == x.marshal body

  unfoldable pub matches_request : Dict Value → Option RequestMatcher → Bool
  matches_request fields none = true
  matches_request fields (some matcher) = matches_body matcher.match_mode fields matcher.body

  -- `stream.SendMsg(resp)`: its error, if any, and all that was done.
  unfoldable pub sent : Dict Value → Option String → List Effect → Option String × List Effect
  sent body none done = (none, done ++ sends body ∷ [])
  sent body (some e) done = (some e, done ++ fails_to_send body ∷ [])

  unfoldable pub send : Dict Value → List Effect → Option String × List Effect
  send body done = sent body (x.send_error done) done

  -- What follows a message that was sent; an error of the stream ends the call.
  unfoldable pub and_then :
      Option String × List Effect → (List Effect → Outcome × List Effect) → Outcome × List Effect
  and_then (none, done) next = next done
  and_then (some e, done) next = (stream_error e, done)

  unfoldable pub unary_response :
      MethodConfig → Option ResponseConfig → List Effect → Outcome × List Effect
  unary_response method none done = (final_status method, done)
  unary_response method (some response) done =
      and_then (send response.body (done ++ header_of response.metadata))
        (λ done'. (final_status method, done' ++ trailer_of response.trailers))

  unfoldable pub handle_unary : MethodConfig → List Received → Outcome × List Effect
  handle_unary method (message fields ∷ rest) =
      if matches_request fields method.request
      then unary_response method method.response (wait method.delay)
      else (status (pos 3) "request does not match expected pattern", [])
  handle_unary method (broken e ∷ rest) = (stream_error e, [])
  handle_unary method (end_of_stream ∷ rest) = (stream_error "EOF", [])
  handle_unary method [] = (stream_error "EOF", [])

  unfoldable pub first_header : List ResponseConfig → List Effect
  first_header [] = []
  first_header (response ∷ responses) = header_of response.metadata

  unfoldable pub send_responses : List ResponseConfig → List Effect → Outcome × List Effect
  send_responses [] done = (ok, done)
  send_responses (response ∷ responses) done =
      and_then (send response.body (done ++ wait response.stream_delay)) (send_responses responses)

  unfoldable pub handle_server_stream : MethodConfig → List Received → Outcome × List Effect
  handle_server_stream method (message fields ∷ rest) =
      if matches_request fields method.request
      then send_responses method.responses (first_header method.responses)
      else (status (pos 3) "request does not match expected pattern", [])
  handle_server_stream method (broken e ∷ rest) = (stream_error e, [])
  handle_server_stream method (end_of_stream ∷ rest) = (stream_error "EOF", [])
  handle_server_stream method [] = (stream_error "EOF", [])

  unfoldable pub single_response : Option ResponseConfig → Outcome × List Effect
  single_response none = (ok, [])
  single_response (some response) = and_then (send response.body []) (λ done. (ok, done))

  -- The messages are received up to the end of the stream, and not looked at.
  unfoldable pub handle_client_stream : MethodConfig → List Received → Outcome × List Effect
  handle_client_stream method (message fields ∷ rest) = handle_client_stream method rest
  handle_client_stream method (broken e ∷ rest) = (stream_error e, [])
  handle_client_stream method (end_of_stream ∷ rest) = single_response method.response
  handle_client_stream method [] = single_response method.response

  -- The response that corresponds to a message is the first of those that are left.
  unfoldable pub converse :
      List Received → List ResponseConfig → List Effect → Outcome × List Effect
  converse [] responses done = (ok, done)
  converse (end_of_stream ∷ rest) responses done = (ok, done)
  converse (broken e ∷ rest) responses done = (stream_error e, done)
  converse (message fields ∷ rest) [] done = converse rest [] done
  converse (message fields ∷ rest) (response ∷ responses) done =
      and_then (send response.body (done ++ wait response.stream_delay)) (converse rest responses)

  unfoldable pub handle_bidirectional : MethodConfig → List Received → Outcome × List Effect
  handle_bidirectional method received = converse received method.responses []

  unfoldable pub handle_method : MethodConfig → List Received → Outcome × List Effect
  handle_method method received =
      if method.stream_type == "server_stream"
      then handle_server_stream method received
      else if method.stream_type == "client_stream"
      then handle_client_stream method received
      else if method.stream_type == "bidirectional"
      then handle_bidirectional method received
      else handle_unary method received

  unfoldable pub method_found : String → Option MethodConfig → List Received → Outcome × List Effect
  method_found name none received = (status (pos 12) ("method " <> name <> " not found"), [])
  method_found name (some method) received = handle_method method received

  unfoldable pub service_found :
      String → String → Option ServiceConfig → List Received → Outcome × List Effect
  service_found service_name name none received =
      (status (pos 12) ("service " <> service_name <> " not found"), [])
  service_found service_name name (some service) received =
      method_found name (find_method service.methods name) received

  -- The parts of the method's name, between its slashes.
  unfoldable pub call_parts : Services → List String → List Received → Outcome × List Effect
  call_parts services (empty ∷ service_name ∷ name ∷ []) received =
      service_found service_name name (get services service_name) received
  call_parts services _ received = (status (pos 3) "invalid method name", [])

  -- `none` for a stream without a method's name.
  unfoldable pub handle_unknown_service :
      Services → Option String → List Received → Outcome × List Effect
  handle_unknown_service services none received = (status (pos 13) "failed to get method name", [])
  handle_unknown_service services (some name) received =
      call_parts services (split b'/' "" name) received
