-- ===== src/Server/Answer.antt =====
-- What `handleRequest` answers for a mock, and what it tells the tracker and the recorder.
use pmp_mock_http.Prelude.{
  ℕ, ℤ, pos, negsuc, ltb_ℤ, String, ◌<>◌, Bool, true, false, ◌&&◌, Option, none, some, List, [],
  ◌∷◌, ◌++◌, Dict, get, insert, ltb, ◌==◌, if◌then◌else◌,
}
use Prim.Native.String.{len, slice}
use pmp_mock_http.Models.{Mock, Response}
use pmp_mock_http.Http.{HttpRequest, first_values}
use pmp_mock_http.Tracker.{Tracker, RequestLog, log}
use pmp_mock_http.Recorder.{record_request}
use pmp_mock_http.Management.Manager.{signed}
use pmp_mock_http.Server.Types.{
  CorsConfig, Server, RequestData, new_request_data, recorded_request, Effect, writes_header,
  writes, sleeps, opens_web_socket, opens_stream, counts, panics, Rolls, ServerExternals,
}
use pmp_mock_http.Server.Chances.{calculate_latency}

-- `WriteHeader` panics on a code that has not three digits.
abbrev pub valid_code : ℤ → Bool
valid_code (pos n) = ltb 99 n && ltb n 1000
valid_code (negsuc n) = false

-- `time.Sleep`, which is called for a positive latency only.
abbrev pub sleep : ℤ → List Effect
sleep latency = if ltb_ℤ (pos 0) latency then sleeps latency ∷ [] else []

-- The first 1024 bytes of a longer body and "...", else the body.
abbrev pub shown_body : String → String
shown_body body = if ltb 1024 (len body) then slice body 0 1024 <> "..." else body

-- The headers of CORS.
cors_headers : CorsConfig → Dict String
cors_headers cors =
    ("Access-Control-Allow-Origin", cors.origins)
    ∷ ("Access-Control-Allow-Methods", cors.methods)
    ∷ ("Access-Control-Allow-Headers", cors.headers)
    ∷ ("Access-Control-Max-Age", "86400")
    ∷ []

unfoldable pub base_headers : Option CorsConfig → Dict String
unfolding cors_headers
base_headers none = []
base_headers (some cors) = if cors.enabled then cors_headers cors else []

-- A preflight request of CORS.
unfoldable pub is_preflight : Option CorsConfig → String → Bool
is_preflight none method = false
is_preflight (some cors) method = cors.enabled && method == "OPTIONS"

-- The entry of the tracker: what all have in common, with what each place sets.
unfoldable pub entry : HttpRequest → String → Bool → String → Option Mock → ℤ → String → RequestLog
unfolding first_values
entry r body matched mock_name mock_config status_code response = record {
  id = 0;
  timestamp = 0;
  method = r.method;
  uri = r.request_uri;
  headers = first_values r.header;
  body = body;
  matched = matched;
  mock_name = mock_name;
  mock_config = mock_config;
  status_code = status_code;
  response = response;
  remote_addr = r.remote_addr;
}

-- `s.tracker.Log` if there is a tracker.
unfoldable pub logged : Option Tracker → ℕ → RequestLog → Option Tracker
logged none now e = none
logged (some t) now e = some (log t now e)

abbrev pub track : {VM : Type 0} → Server VM → ℕ → RequestLog → Server VM
track s now e = record s { tracker = logged s.tracker now e }

-- The handler of a mock's name, or a new one for the mock.
unfoldable pub handler_for : Dict Mock → Mock → Mock × Dict Mock
handler_for handlers mock = elim (get handlers mock.name) [
  | some handler ↦ (handler, handlers)
  | none ↦ (mock, insert handlers mock.name mock)
]

module _ {VM : Type 0} (now : ℕ) (r : HttpRequest) where
  unfoldable pub handle_web_socket : Server VM → Mock → List Effect × Server VM
  unfolding handler_for entry logged
  handle_web_socket s mock =
      let (handler, handlers) = handler_for s.web_socket_handlers mock in
      (
        opens_web_socket handler ∷ [],
        track (record s { web_socket_handlers = handlers }) now
            (entry r "" true (mock.name <> " (websocket)") (some mock) (pos 101)
              "WebSocket connection established"),
      )

  unfoldable pub handle_sse : Server VM → Mock → List Effect × Server VM
  unfolding handler_for entry logged
  handle_sse s mock =
      let (handler, handlers) = handler_for s.sse_handlers mock in
      (
        opens_stream handler ∷ [],
        track (record s { sse_handlers = handlers }) now
            (entry r "" true (mock.name <> " (sse)") (some mock) (pos 200)
              "SSE stream established"),
      )

module _ (y : ServerExternals) where
  -- A text rendered as a template, or the text itself if it cannot be.
  unfoldable pub render_or_keep : String → RequestData → String
  render_or_keep text request_data = elim (y.render text request_data) [ none ↦ text | some t ↦ t ]

  rendered_all : Dict String → RequestData → Dict String
  unfolding render_or_keep
  rendered_all [] request_data = []
  rendered_all ((key, value) ∷ headers) request_data =
      (key, render_or_keep value request_data) ∷ rendered_all headers request_data

  unfoldable pub render_header_templates : Dict String → Bool → RequestData → Dict String
  unfolding rendered_all
  render_header_templates headers use_templates request_data =
      if use_templates then rendered_all headers request_data else headers

  -- `w.Header().Set` for each header.
  unfoldable pub set_headers : Dict String → Dict String → Dict String
  set_headers written [] = written
  set_headers written ((key, value) ∷ headers) =
      set_headers (insert written (y.canonical_key key) value) headers

  unfoldable pub response_body : Response → RequestData → String
  unfolding render_or_keep
  response_body response request_data =
      if response.body == ""
      then ""
      else if response.template
      then render_or_keep response.body request_data
      else response.body

  abbrev pub chaos_body : ℤ → String
  chaos_body code = "{\"error\":\"Chaos engineering failure\",\"status\":" <> signed code <> "}"

  -- The recording of what was answered, if recording is enabled.
  unfoldable pub recorded :
      {VM : Type 0}
      → ℕ
      → HttpRequest
      → String
      → ℤ
      → Dict String
      → String
      → Server VM
      → List Effect × Server VM
  unfolding record_request first_values
  recorded now r shown code headers body s =
      if s.recorder.enabled
      then (
        counts recorded_request ∷ [],
        record s {
          recorder =
              record_request s.recorder now r.method r.path (first_values r.header) shown code
                headers body;
        },
      )
      else ([], s)

  -- What is written to the response, tracked and recorded, once the latency is over.
  unfoldable pub written :
      {VM : Type 0}
      → ℕ
      → HttpRequest
      → String
      → Mock
      → Dict String
      → Server VM
      → List Effect × Server VM
  unfolding render_header_templates set_headers response_body entry logged recorded
  written {VM = VM} now r body mock base s =
      let response = mock.response in
      let request_data = new_request_data r body in
      let headers = set_headers base (
        y.range_headers
          (render_header_templates response.headers response.header_templates request_data)) in
      let text = response_body response request_data in
      let s' : Server VM =
        track s now
          (entry r (shown_body body) true mock.name (some mock) response.status_code text) in
      let (recording, s'') =
        recorded now r (shown_body body) response.status_code headers text s' in
      (
        writes_header response.status_code headers
              ∷ (if response.body == "" then [] else writes text ∷ [])
            ++ recording,
        s'',
      )

  -- The answer after a latency, or the panic of computing it.
  unfoldable pub served_after :
      {VM : Type 0}
      → ℕ
      → HttpRequest
      → String
      → Mock
      → Dict String
      → Option ℤ
      → Server VM
      → List Effect × Server VM
  unfolding written
  served_after now r body mock base none s = (panics ∷ [], s)
  served_after now r body mock base (some latency) s =
      let (answer, s') = written now r body mock base s in
      if valid_code mock.response.status_code
      then (sleep latency ++ answer, s')
      else (sleep latency ++ panics ∷ [], s)

  -- The answer of a mock whose chaos let the request through.
  unfoldable pub served :
      {VM : Type 0}
      → ℕ
      → Rolls
      → HttpRequest
      → String
      → Mock
      → Dict String
      → Server VM
      → List Effect × Server VM
  unfolding served_after
  served now rolls r body mock base s =
      served_after now r body mock base
        (calculate_latency rolls mock.response.latency mock.response.delay) s
