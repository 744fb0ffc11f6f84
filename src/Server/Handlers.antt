-- ===== src/Server/Handlers.antt =====
-- The handlers of WebSockets are kept for good.
use pmp_mock_http.Prelude.{
  ℕ, ℤ, String, Option, none, some, List, [], ◌∷◌, Dict, get, get-insert, ◌==◌, ◌≡◌, refl, inl, inr,
  arith, eq_iff, Bool-cases, Option-cases,
}
use pmp_mock_http.Models.{Mock}
use pmp_mock_http.Http.{HttpRequest, Result, ok, err, panicked}
use pmp_mock_http.Externals.{Externals}
use pmp_mock_http.Matcher.Search.{SortSlice, find_match}
use pmp_mock_http.Server.Types.{
  Server, update_server_mocks, opens_web_socket, Rolls, ServerExternals,
}
use pmp_mock_http.Server.Chances.{Chaos, fails, delays, out_of_range, apply_chaos}
use pmp_mock_http.Server.Answer.{
  valid_code, handler_for, handle_web_socket, handle_sse, recorded, written, served_after, served,
  is_preflight, base_headers,
}
use pmp_mock_http.Server.Request.{
  chaotic, matched_mock, unmatched, answered, read_request, handle_request,
}

-- What happens to a server: a request, or a reload of its mocks.
pub data Event : Type 0 where
  serves : ℕ → Rolls → HttpRequest → Event
  reloads : List Mock → Event

handler_for-keeps :
    (handlers : Dict Mock) (mock : Mock) (name : String) (old : Mock)
    → get handlers name ≡ some old
    → get (handler_for handlers mock).1 name ≡ some old
unfolding handler_for
handler_for-keeps handlers mock name old h = elim (Option-cases (get handlers mock.name)) [
  | inl missing ↦
      rw (missing, handler_for)
        (rw (get-insert handlers mock.name name mock) (elim (Bool-cases (mock.name == name)) [
          | inl same ↦ absurd (cc (missing, h, (eq_iff mock.name name).0 same))
          | inr apart ↦ rw apart h
        ]))
  | inr (handler, used) ↦ rw (used, handler_for) h
]

module _ {VM : Type 0} (y : ServerExternals) (name : String) (old : Mock) where
  -- The cache has this handler under this name.
  abbrev Cached : Server VM → Type 0
  Cached s = get s.web_socket_handlers name ≡ some old

  module _ (now : ℕ) (r : HttpRequest) where
    recorded-Cached :
        (shown : String) (code : ℤ) (headers : Dict String) (body : String) (s : Server VM)
        → Cached s
        → Cached (recorded y now r shown code headers body s).1
    unfolding recorded
    recorded-Cached shown code headers body s h = ground (arith, h)

    served_after-Cached :
        (body : String) (mock : Mock) (base : Dict String) (o : Option ℤ) (s : Server VM)
        → Cached s
        → Cached (served_after y now r body mock base o s).1
    unfolding served_after written
    served_after-Cached body mock base none s h = h
    served_after-Cached body mock base (some latency) s h =
        elim (Bool-cases (valid_code mock.response.status_code)) [
          | inl valid ↦ rw valid (recorded-Cached _ _ _ _ _ h)
          | inr invalid ↦ rw invalid h
        ]

    served-Cached :
        (rolls : Rolls) (body : String) (mock : Mock) (base : Dict String) (s : Server VM)
        → Cached s
        → Cached (served y now rolls r body mock base s).1
    unfolding served
    served-Cached rolls body mock base s h = served_after-Cached body mock base _ s h

    chaotic-Cached :
        (rolls : Rolls) (body : String) (mock : Mock) (base : Dict String) (c : Chaos)
        (s : Server VM)
        → Cached s
        → Cached (chaotic y now rolls r body mock base c s).1
    unfolding chaotic
    chaotic-Cached rolls body mock base (fails code) s h = elim (Bool-cases (valid_code code)) [
      | inl valid ↦ rw valid h
      | inr invalid ↦ rw invalid h
    ]
    chaotic-Cached rolls body mock base (delays latency) s h =
        served-Cached rolls body mock base s h
    chaotic-Cached rolls body mock base out_of_range s h = h

    matched_mock-Cached :
        (rolls : Rolls) (body : String) (mock : Mock) (base : Dict String) (s : Server VM)
        → Cached s
        → Cached (matched_mock y now rolls r body mock base s).1
    unfolding matched_mock handle_web_socket handle_sse
    matched_mock-Cached rolls body mock base s h =
        elim (Bool-cases (mock.protocol == "websocket")) [
          | inl web_socket ↦ rw web_socket (handler_for-keeps s.web_socket_handlers mock name old h)
          | inr other ↦ elim (Bool-cases (mock.protocol == "sse")) [
            | inl stream ↦ rw other (rw stream h)
            | inr plain ↦ rw other (
                rw plain
                  (chaotic-Cached rolls body mock base (apply_chaos rolls mock.response.chaos) s h))
          ]
        ]

    answered-Cached :
        (rolls : Rolls) (body : String) (base : Dict String) (found : Result (Option Mock))
        (s : Server VM)
        → Cached s
        → Cached (answered y now rolls r body base found s).1
    unfolding answered unmatched
    answered-Cached rolls body base (ok none) s h = elim (Bool-cases s.proxied) [
      | inl proxied ↦ elim (Bool-cases (y.forward r)) [
        | inl forwarded ↦ rw proxied (rw forwarded h)
        | inr failed ↦ rw proxied (rw failed h)
      ]
      | inr direct ↦ rw direct h
    ]
    answered-Cached rolls body base (ok (some mock)) s h =
        matched_mock-Cached rolls body mock base s h
    answered-Cached rolls body base (err message) s h = h
    answered-Cached rolls body base panicked s h = h

    request-Cached :
        (x : Externals VM) (rolls : Rolls) (body : Option String) (s : Server VM)
        → Cached s
        → Cached (read_request y x now rolls r body s).1
    unfolding read_request
    request-Cached x rolls none s h = h
    request-Cached x rolls (some body) s h =
        answered-Cached rolls body (base_headers s.cors_config) (find_match x s.matcher r).0 _ h

module _ {VM : Type 0} (y : ServerExternals) (x : Externals VM) (sort_slice : SortSlice) where
  unfoldable pub step : Server VM → Event → Server VM
  step s (serves now rolls r) = (handle_request y x now rolls r s).1
  step s (reloads mocks) = update_server_mocks sort_slice s mocks

  unfoldable pub run : Server VM → List Event → Server VM
  run s [] = s
  run s (event ∷ events) = run (step s event) events

  step-Cached :
      (name : String) (old : Mock) (s : Server VM) (event : Event)
      → get s.web_socket_handlers name ≡ some old
      → get (step s event).web_socket_handlers name ≡ some old
  unfolding step handle_request update_server_mocks
  step-Cached name old s (serves now rolls r) h =
      elim (Bool-cases (is_preflight s.cors_config r.method)) [
        | inl preflight ↦ rw (preflight, step) h
        | inr other ↦ rw (other, step) (request-Cached y name old now r x rolls r.body s h)
      ]
  step-Cached name old s (reloads mocks) h = h

  run-Cached :
      (name : String) (old : Mock) (s : Server VM) (events : List Event)
      → get s.web_socket_handlers name ≡ some old
      → get (run s events).web_socket_handlers name ≡ some old
  unfolding run
  run-Cached name old s [] h = h
  run-Cached name old s (event ∷ events) h =
      run-Cached name old (step s event) events (step-Cached name old s event h)

  -- Once the server has a WebSocket handler under a mock's name, then after any requests and reloads
  -- of mocks it opens a WebSocket with that handler for every mock of this name, whatever that mock
  -- says.
  pub run-handle_web_socket :
      (s : Server VM) (events : List Event) (mock old : Mock) (now : ℕ) (r : HttpRequest)
      → get s.web_socket_handlers mock.name ≡ some old
      → (handle_web_socket now r (run s events) mock).0 ≡ opens_web_socket old ∷ []
  unfolding handle_web_socket handler_for
  run-handle_web_socket s events mock old now r h =
      rw (run-Cached mock.name old s events h, handler_for) refl
