-- ===== src/Server/Tests.antt =====
-- A server with two mocks, and the server's theorems there.
use pmp_mock_http.Prelude.{
  get, All, ℕ, ◌%◌, pos, String, true, false, none, some, [], ◌∷◌, ◌==◌, if◌then◌else◌, ◌≡◌, refl,
}
use pmp_mock_http.Models.{
  Mock, ChaosConfig, LatencyConfig, empty_mock, empty_request, empty_response,
}
use pmp_mock_http.Http.{HttpRequest, ok}
use pmp_mock_http.Externals.Sample.{sample}
use pmp_mock_http.Matcher.Search.{Matcher, find_match, find_from, attempt, respond}
use pmp_mock_http.Matcher.Scenario.{belongs_to_scenario}
use pmp_mock_http.Matcher.Criteria.{matches, match_string, match_headers}
use pmp_mock_http.Matcher.Sequence.{get_sequential_response}
use pmp_mock_http.Matcher.Best.{IsCandidate}
use pmp_mock_http.Matcher.Missing.{find_match-none_iff}
use pmp_mock_http.Externals.{equal_fold}
use pmp_mock_http.Tracker.{Tracker}
use pmp_mock_http.Matcher.Sorting.{sort_by_priority, sort_by_priority-IsSort}
use pmp_mock_http.Server.Unmatched.{handle_request-not_found}
use pmp_mock_http.Server.Types.{
  opens_web_socket, counts, match_failure, http_error, Server, Rolls, ServerExternals,
}
use pmp_mock_http.Server.Answer.{handle_web_socket, is_preflight, logged, entry, shown_body}
use pmp_mock_http.Server.Request.{handle_request}
use pmp_mock_http.Server.Scenarios.{}
use pmp_mock_http.Server.Handlers.{serves, reloads, run, run-handle_web_socket}
use pmp_mock_http.Server.Tracked.{Tracks, handle_request-Tracks}

abbrev libraries : ServerExternals
libraries = record {
  render = λ text r. if text == "{{" then none else some text;
  forward = λ r. true;
  range_headers = λ headers. headers;
  canonical_key = λ key. key;
  decode_strings = λ body. none;
}

abbrev rolls : Rolls
rolls = record {
  failure = record { bits = 0 };
  error_code = λ n. 7 % n;
  chaos_latency = λ n. 7 % n;
  percentile = record { bits = 0 };
  latency = λ n. 7 % n;
}

abbrev mock : Mock
mock = record empty_mock {
  name = "users";
  response = record empty_response { status_code = pos 200; body = "[]" };
}

abbrev tracker : Tracker
tracker = record { logs = []; next_id = 1; max_logs = 10 }

abbrev server : Server ℕ
server = record {
  matcher = record { mocks = mock ∷ []; global_vm = 0; call_counts = []; active_scenario = "" };
  tracker = some tracker;
  proxied = false;
  recorder = record { enabled = true; recordings = [] };
  cors_config = none;
  web_socket_handlers = [];
  sse_handlers = [];
}

abbrev request : String → HttpRequest
request method = record {
  method = method;
  path = "/users";
  raw_query = "";
  request_uri = "/users";
  query = ("scenario", "night" ∷ []) ∷ [];
  form = none;
  header = [];
  body = some "{}";
  host = "localhost";
  remote_addr = "";
  tls = false;
}

not_preflight : is_preflight server.cors_config "GET" ≡ false
unfolding is_preflight
not_preflight = refl

handle_request-Tracks_example :
    Tracks tracker 5
      (request "GET")
      (handle_request libraries sample 5 rolls (request "GET") server)
handle_request-Tracks_example =
    handle_request-Tracks tracker 5 (request "GET") libraries sample rolls "{}" server refl refl
      not_preflight refl

abbrev cached_server : Server ℕ
cached_server = record server { web_socket_handlers = ("users", mock) ∷ [] }

abbrev reloaded : Mock
reloaded = record mock { protocol = "websocket" }

cached : get cached_server.web_socket_handlers "users" ≡ some mock
unfolding get
cached = refl

run-handle_web_socket_example :
    (handle_web_socket 6
      (request "GET")
      (run libraries sample sort_by_priority cached_server
        (reloads (reloaded ∷ []) ∷ serves 5 rolls (request "GET") ∷ []))
      reloaded).0
    ≡ opens_web_socket mock ∷ []
run-handle_web_socket_example =
    run-handle_web_socket libraries sample sort_by_priority cached_server
      (reloads (reloaded ∷ []) ∷ serves 5 rolls (request "GET") ∷ []) reloaded mock 6
      (request "GET") cached

abbrev unused : Mock
unused = record mock { request = record empty_request { method = "DELETE" } }

abbrev other_matcher : Matcher ℕ
other_matcher = record {
  mocks = unused ∷ [];
  global_vm = 0;
  call_counts = [];
  active_scenario = "";
}

abbrev other_server : Server ℕ
other_server = record server { matcher = other_matcher }

other_sorted : other_matcher.mocks ≡ sort_by_priority (unused ∷ [])
unfolding sort_by_priority
other_sorted = refl

other_missed : find_match sample other_matcher (request "GET") ≡ (ok none, other_matcher)
unfolding find_match find_from attempt respond belongs_to_scenario matches match_string
    match_headers equal_fold get_sequential_response
other_missed = refl

other_unfit : All (λ p. ¬ IsCandidate sample (request "GET") "{}" "" p) (unused ∷ [])
other_unfit =
    (find_match-none_iff sample sort_by_priority (unused ∷ []) other_matcher (request "GET") "{}"
        sort_by_priority-IsSort other_sorted refl (refl, tt)).0
      other_missed

handle_request-not_found_example :
    handle_request libraries sample 5 rolls (request "GET") other_server ≡ (
      counts match_failure ∷ http_error "404 page not found" (pos 404) ∷ [],
      record other_server {
        tracker =
            logged (some tracker) 5 (
              entry (request "GET") (shown_body "{}") false "" none (pos 404) "404 page not found");
      },
    )
handle_request-not_found_example =
    handle_request-not_found libraries sample 5 rolls (request "GET") "{}" other_server
      sort_by_priority (unused ∷ []) sort_by_priority-IsSort other_sorted refl not_preflight refl
      (refl, tt) other_unfit

abbrev chaos : ChaosConfig
chaos = record {
  enabled = true;
  failure_rate = record { bits = 0x3FF0000000000000 };
  error_codes = pos 500 ∷ pos 503 ∷ [];
  latency_min = pos 0;
  latency_max = pos 0;
}

abbrev latency : LatencyConfig
latency = record {
  type = "random";
  min = pos 10;
  max = pos 20;
  p50 = pos 0;
  p95 = pos 0;
  p99 = pos 0;
}
