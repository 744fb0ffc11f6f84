-- ===== src/Server/Types.antt =====
-- The server's state, and what it does with a request, as a list of effects in their order.
use pmp_mock_http.Prelude.{ℕ, ℤ, String, Bool, Option, List, [], Dict}
use pmp_mock_http.Models.{Mock, Callback, Float64}
use pmp_mock_http.Http.{HttpRequest, first_values}
use pmp_mock_http.Matcher.Search.{Matcher, SortSlice, new_matcher, update_mocks}
use pmp_mock_http.Tracker.{Tracker}
use pmp_mock_http.Recorder.{Recorder, new_recorder}

pub record CorsConfig : Type 0 where
  pub enabled : Bool
  pub origins : String
  pub methods : String
  pub headers : String

-- A nil pointer is `none`. Of the proxy client only its presence is kept; a handler of a WebSocket
-- or of an event stream is the mock that it was made for.
pub record Server (VM : Type 0) : Type 0 where
  pub matcher : Matcher VM
  pub tracker : Option Tracker
  pub proxied : Bool
  pub recorder : Recorder
  pub cors_config : Option CorsConfig
  pub web_socket_handlers : Dict Mock
  pub sse_handlers : Dict Mock

-- `NewServer` (with no tracker) and `NewServerWithTracker`; `proxied` tells whether a proxy client
-- could be made.
unfoldable pub new_server :
    {VM : Type 0}
    → SortSlice
    → VM
    → List Mock
    → Option Tracker
    → Bool
    → Option CorsConfig
    → Server VM
unfolding new_matcher new_recorder
new_server sort_slice global_vm mocks tracker proxied cors_config = record {
  matcher = new_matcher sort_slice global_vm mocks;
  tracker = tracker;
  proxied = proxied;
  recorder = new_recorder;
  cors_config = cors_config;
  web_socket_handlers = [];
  sse_handlers = [];
}

-- `UpdateMocks`
unfoldable pub update_server_mocks : {VM : Type 0} → SortSlice → Server VM → List Mock → Server VM
unfolding update_mocks
update_server_mocks sort_slice s mocks = record s {
  matcher = update_mocks sort_slice s.matcher mocks;
}

-- internal/template/renderer.go: what a template and a callback see of a request.
pub record RequestData : Type 0 where
  pub method : String
  pub uri : String
  pub path : String
  pub raw_query : String
  pub headers : Dict String
  pub body : String
  pub remote_addr : String

unfoldable pub new_request_data : HttpRequest → String → RequestData
unfolding first_values
new_request_data r body = record {
  method = r.method;
  uri = r.request_uri;
  path = r.path;
  raw_query = r.raw_query;
  headers = first_values r.header;
  body = body;
  remote_addr = r.remote_addr;
}

-- What is counted for the observability of the server.
pub data Metric : Type 0 where
  match_failure recorded_request : Metric
  match_of : String → Metric
  proxy_request : String → Metric
  web_socket_connection sse_connection : ℤ → Metric

-- The writes to the response (`WriteHeader` with the headers set by then), http.Error, and all else
-- that is seen outside the server.
pub data Effect : Type 0 where
  writes_header : ℤ → Dict String → Effect
  writes : String → Effect
  http_error : String → ℤ → Effect
  forwards : Effect
  sleeps : ℤ → Effect
  calls_back : Callback → RequestData → Effect
  opens_web_socket opens_stream : Mock → Effect
  counts : Metric → Effect
  panics : Effect

-- The results of math/rand at each place that calls it; those of `rand.Intn` depend on its bound.
pub record Rolls : Type 0 where
  pub failure : Float64
  pub error_code : ℕ → ℕ
  pub chaos_latency : ℕ → ℕ
  pub percentile : Float64
  pub latency : ℕ → ℕ

-- What the server calls: the template renderer, the proxy client (whether it succeeds), the range
-- over a map of headers, the canonical key of a header, and the decoder of a JSON object of strings.
pub record ServerExternals : Type 0 where
  pub render : String → RequestData → Option String
  pub forward : HttpRequest → Bool
  pub range_headers : Dict String → Dict String
  pub canonical_key : String → String
  pub decode_strings : String → Option (Dict String)
