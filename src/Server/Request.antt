-- ===== src/Server/Request.antt =====
-- `handleRequest`. The request holds the read lock until it returns; it is one step here. The
-- readings of the clock are one argument `now`.
use pmp_mock_http.Prelude.{
  ℕ, pos, negsuc, String, ◌<>◌, true, false, Option, none, some, List, [], ◌∷◌, ◌++◌, Dict, ◌==◌,
  if◌then◌else◌,
}
use pmp_mock_http.Models.{Mock, Callback}
use pmp_mock_http.Http.{HttpRequest, Result, ok, err, panicked}
use pmp_mock_http.Externals.{Externals}
use pmp_mock_http.Matcher.Search.{find_match}
use pmp_mock_http.Server.Types.{
  Server, RequestData, new_request_data, match_failure, match_of, proxy_request,
  web_socket_connection, sse_connection, Effect, writes_header, writes, http_error, forwards,
  calls_back, counts, panics, Rolls, ServerExternals,
}
use pmp_mock_http.Server.Chances.{Chaos, fails, delays, out_of_range, apply_chaos}
use pmp_mock_http.Server.Answer.{
  valid_code, sleep, shown_body, base_headers, is_preflight, entry, logged, track,
  handle_web_socket, handle_sse, chaos_body, served,
}

module _ (y : ServerExternals) where
  unfoldable pub chaotic :
      {VM : Type 0}
      → ℕ
      → Rolls
      → HttpRequest
      → String
      → Mock
      → Dict String
      → Chaos
      → Server VM
      → List Effect × Server VM
  unfolding served entry logged
  chaotic now rolls r body mock base (fails code) s =
      if valid_code code
      then (
        writes_header code base ∷ writes (chaos_body y code) ∷ [],
        track s now (
            entry r (shown_body body) true (mock.name <> " (chaos)") (some mock) code
              (chaos_body y code)),
      )
      else (panics ∷ [], s)
  chaotic now rolls r body mock base (delays latency) s =
      let (effects, s') = served y now rolls r body mock base s in (sleep latency ++ effects, s')
  chaotic now rolls r body mock base out_of_range s = (panics ∷ [], s)

  unfoldable pub called_back : Option Callback → RequestData → List Effect
  called_back none request_data = []
  called_back (some callback) request_data = calls_back callback request_data ∷ []

  unfoldable pub matched_mock :
      {VM : Type 0}
      → ℕ
      → Rolls
      → HttpRequest
      → String
      → Mock
      → Dict String
      → Server VM
      → List Effect × Server VM
  unfolding handle_web_socket handle_sse chaotic called_back
  matched_mock now rolls r body mock base s =
      let (web_socket, s₁) = handle_web_socket now r s mock in
      let (stream, s₂) = handle_sse now r s mock in
      let (answer, s₃) =
        chaotic now rolls r body mock base (apply_chaos rolls mock.response.chaos) s in
      if mock.protocol == "websocket"
      then (
        counts (match_of mock.name) ∷ counts (web_socket_connection (pos 1)) ∷ web_socket
            ++ counts (web_socket_connection (negsuc 0)) ∷ [],
        s₁,
      )
      else if mock.protocol == "sse"
      then (
        counts (match_of mock.name) ∷ counts (sse_connection (pos 1)) ∷ stream
            ++ counts (sse_connection (negsuc 0)) ∷ [],
        s₂,
      )
      else (
        counts (match_of mock.name) ∷ called_back mock.response.callback (new_request_data r body)
            ++ answer,
        s₃,
      )

  -- No mock matched: the proxy, or 404.
  unfoldable pub unmatched :
      {VM : Type 0} → ℕ → HttpRequest → String → Server VM → List Effect × Server VM
  unfolding entry logged
  unmatched now r body s =
      if s.proxied
      then (if y.forward r
          then (counts match_failure ∷ forwards ∷ counts (proxy_request "success") ∷ [], s)
          else (
            counts match_failure
                ∷ counts (proxy_request "error")
                ∷ http_error "Proxy error" (pos 502)
                ∷ [],
            track s now (entry r (shown_body body) false "" none (pos 502) "Proxy error"),
          ))
      else (
        counts match_failure ∷ http_error "404 page not found" (pos 404) ∷ [],
        track s now (entry r (shown_body body) false "" none (pos 404) "404 page not found"),
      )

  unfoldable pub answered :
      {VM : Type 0}
      → ℕ
      → Rolls
      → HttpRequest
      → String
      → Dict String
      → Result (Option Mock)
      → Server VM
      → List Effect × Server VM
  unfolding matched_mock unmatched entry logged
  answered now rolls r body base (ok none) s = unmatched now r body s
  answered now rolls r body base (ok (some mock)) s = matched_mock now rolls r body mock base s
  answered now rolls r body base (err message) s = (
    http_error "Error processing request" (pos 500) ∷ [],
    track s now (entry r (shown_body body) false "" none (pos 500) "Error processing request"),
  )
  answered now rolls r body base panicked s = (panics ∷ [], s)

  -- The request once its body is read, which may fail.
  unfoldable pub read_request :
      {VM : Type 0}
      → Externals VM
      → ℕ
      → Rolls
      → HttpRequest
      → Option String
      → Server VM
      → List Effect × Server VM
  unfolding answered
  read_request x now rolls r none s = (http_error "Error reading request body" (pos 500) ∷ [], s)
  read_request x now rolls r (some body) s =
      let (found, matcher) = find_match x s.matcher r in
      answered now rolls r body (base_headers s.cors_config) found (record s { matcher = matcher })

  unfoldable pub handle_request :
      {VM : Type 0} → Externals VM → ℕ → Rolls → HttpRequest → Server VM → List Effect × Server VM
  unfolding read_request
  handle_request x now rolls r s =
      if is_preflight s.cors_config r.method
      then (writes_header (pos 204) (base_headers s.cors_config) ∷ [], s)
      else read_request x now rolls r r.body s
