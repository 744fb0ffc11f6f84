-- ===== src/Server/Tracked.antt =====
-- The tracker holds what was answered.
use pmp_mock_http.Prelude.{
  ℕ, ℤ, String, ◌<>◌, true, false, Option, none, some, List, [], ◌∷◌, ◌++◌, Dict, ◌==◌, ◌≡◌, refl,
  sym, ap, ◌∙◌, ◌⊎◌, inl, inr, arith, Bool-cases, subst,
}
use pmp_mock_http.Models.{Mock}
use pmp_mock_http.Http.{HttpRequest, Result, ok, err, panicked}
use pmp_mock_http.Externals.{Externals}
use pmp_mock_http.Matcher.Search.{find_match}
use pmp_mock_http.Tracker.{Tracker, RequestLog, log}
use pmp_mock_http.Server.Types.{
  Server, new_request_data, match_of, Effect, counts, panics, Rolls, ServerExternals,
}
use pmp_mock_http.Server.Chances.{Chaos, fails, delays, out_of_range, apply_chaos}
use pmp_mock_http.Server.Answer.{
  chaos_body, response_body, shown_body, valid_code, sleep, entry, logged, handle_web_socket,
  handle_sse, recorded, written, served_after, served, is_preflight,
}
use pmp_mock_http.Server.Status.{
  status_of, panicking, opening, status_of-sleep, panicking-append, opening-append,
  called_back-silent,
}
use pmp_mock_http.Server.Request.{
  chaotic, called_back, matched_mock, unmatched, answered, read_request, handle_request,
}

-- Either the handler panicked, and the tracker is as it was, or one entry was logged, for the
-- request and with the status that was answered.
pub data Tracks {VM : Type 0} (t : Tracker) (now : ℕ) (r : HttpRequest)
    (out : List Effect × Server VM) : Type 0 where
  unwound : panicking out.0 ≡ true → out.1.tracker ≡ some t → Tracks t now r out
  noted :
      (e : RequestLog)
      → out.1.tracker ≡ some (log t now e)
      → (e.method ≡ r.method) × (e.uri ≡ r.request_uri)
      → (status_of out.0 ≡ some e.status_code) ⊎ (opening out.0 ≡ true)
      → Tracks t now r out

logged-some :
    (o : Option Tracker) (now : ℕ) (e : RequestLog) {t : Tracker}
    → o ≡ some t
    → logged o now e ≡ some (log t now e)
unfolding logged
logged-some o now e h = ap (λ p. logged p now e) h

module _ {VM : Type 0} (t : Tracker) (now : ℕ) (r : HttpRequest) where
  delayed-Tracks :
      (latency : ℤ) (effects : List Effect) (s : Server VM)
      → Tracks t now r (effects, s)
      → Tracks t now r (sleep latency ++ effects, s)
  delayed-Tracks latency effects s (unwound p h) =
      unwound (panicking-append (sleep latency) effects p) h
  delayed-Tracks latency effects s (noted e h same (inl status)) =
      noted e h same (inl (status_of-sleep latency effects ∙ status))
  delayed-Tracks latency effects s (noted e h same (inr opened)) =
      noted e h same (inr (opening-append (sleep latency) effects opened))

  -- Effects before that answer nothing.
  prefixed-Tracks :
      (before effects : List Effect) (s : Server VM)
      → ((rest : List Effect) → status_of (before ++ rest) ≡ status_of rest)
      → Tracks t now r (effects, s)
      → Tracks t now r (before ++ effects, s)
  prefixed-Tracks before effects s silent (unwound p h) =
      unwound (panicking-append before effects p) h
  prefixed-Tracks before effects s silent (noted e h same (inl status)) =
      noted e h same (inl (silent effects ∙ status))
  prefixed-Tracks before effects s silent (noted e h same (inr opened)) =
      noted e h same (inr (opening-append before effects opened))

  module _ (y : ServerExternals) where
    recorded-tracker :
        (shown : String) (code : ℤ) (headers : Dict String) (body : String) (s : Server VM)
        → (recorded y now r shown code headers body s).1.tracker ≡ s.tracker
    unfolding recorded
    recorded-tracker shown code headers body s = ground arith

    written-Tracks :
        (body : String) (mock : Mock) (base : Dict String) (s : Server VM)
        → s.tracker ≡ some t
        → Tracks t now r (written y now r body mock base s)
    unfolding written entry
    written-Tracks body mock base s held =
        let text = response_body y mock.response (new_request_data r body) in
        let e =
          entry r (shown_body body) true mock.name (some mock) mock.response.status_code text in
        noted e (recorded-tracker _ _ _ _ _ ∙ logged-some s.tracker now e held) (refl, refl)
          (inl refl)

    served_after-Tracks :
        (body : String) (mock : Mock) (base : Dict String) (o : Option ℤ) (s : Server VM)
        → s.tracker ≡ some t
        → Tracks t now r (served_after y now r body mock base o s)
    unfolding served_after
    served_after-Tracks body mock base none s held = unwound refl held
    served_after-Tracks body mock base (some latency) s held =
        let answer = written y now r body mock base s in
        elim (Bool-cases (valid_code mock.response.status_code)) [
          | inl valid ↦
              rw valid
                (delayed-Tracks latency answer.0 answer.1 (written-Tracks body mock base s held))
          | inr invalid ↦ rw invalid (delayed-Tracks latency (panics ∷ []) s (unwound refl held))
        ]

    served-Tracks :
        (rolls : Rolls) (body : String) (mock : Mock) (base : Dict String) (s : Server VM)
        → s.tracker ≡ some t
        → Tracks t now r (served y now rolls r body mock base s)
    unfolding served
    served-Tracks rolls body mock base s held = served_after-Tracks body mock base _ s held

    chaotic-Tracks :
        (rolls : Rolls) (body : String) (mock : Mock) (base : Dict String) (c : Chaos)
        (s : Server VM)
        → s.tracker ≡ some t
        → Tracks t now r (chaotic y now rolls r body mock base c s)
    unfolding chaotic entry
    chaotic-Tracks rolls body mock base (fails code) s held =
        let e =
          entry r (shown_body body) true (mock.name <> " (chaos)") (some mock) code
            (chaos_body y code) in
        elim (Bool-cases (valid_code code)) [
          | inl valid ↦
              rw valid (noted e (logged-some s.tracker now e held) (refl, refl) (inl refl))
          | inr invalid ↦ rw invalid (unwound refl held)
        ]
    chaotic-Tracks rolls body mock base (delays latency) s held =
        delayed-Tracks latency _ _ (served-Tracks rolls body mock base s held)
    chaotic-Tracks rolls body mock base out_of_range s held = unwound refl held

    matched_mock-Tracks :
        (rolls : Rolls) (body : String) (mock : Mock) (base : Dict String) (s : Server VM)
        → s.tracker ≡ some t
        → Tracks t now r (matched_mock y now rolls r body mock base s)
    unfolding matched_mock handle_web_socket handle_sse entry
    matched_mock-Tracks rolls body mock base s held =
        elim (Bool-cases (mock.protocol == "websocket")) [
          | inl web_socket ↦
              rw web_socket (noted _ (logged-some s.tracker now _ held) (refl, refl) (inr refl))
          | inr other ↦ elim (Bool-cases (mock.protocol == "sse")) [
            | inl stream ↦
                rw other
                  (rw stream (noted _ (logged-some s.tracker now _ held) (refl, refl) (inr refl)))
            | inr plain ↦ rw other (
                rw plain (
                  prefixed-Tracks
                    (counts (match_of mock.name)
                      ∷ called_back y mock.response.callback (new_request_data r body))
                    _ _
                    (called_back-silent y mock.response.callback (new_request_data r body)
                      mock.name)
                    (chaotic-Tracks rolls body mock base (apply_chaos rolls mock.response.chaos) s
                      held)))
          ]
        ]

    answered-Tracks :
        (rolls : Rolls) (body : String) (base : Dict String) (found : Result (Option Mock))
        (s : Server VM)
        → s.tracker ≡ some t
        → s.proxied ≡ false
        → Tracks t now r (answered y now rolls r body base found s)
    unfolding answered unmatched entry
    answered-Tracks rolls body base (ok none) s held direct =
        rw direct (noted _ (logged-some s.tracker now _ held) (refl, refl) (inl refl))
    answered-Tracks rolls body base (ok (some mock)) s held direct =
        matched_mock-Tracks rolls body mock base s held
    answered-Tracks rolls body base (err message) s held direct =
        noted _ (logged-some s.tracker now _ held) (refl, refl) (inl refl)
    answered-Tracks rolls body base panicked s held direct = unwound refl held

    -- For a server with a tracker and no proxy, a request that is no preflight and whose body can be
    -- read adds exactly one entry to the tracker, with the request's method and URI and, unless a
    -- WebSocket or an event stream is opened, the status that was answered; a handler that panics
    -- adds none.
    pub handle_request-Tracks :
        (x : Externals VM) (rolls : Rolls) (body : String) (s : Server VM)
        → s.tracker ≡ some t
        → s.proxied ≡ false
        → is_preflight s.cors_config r.method ≡ false
        → r.body ≡ some body
        → Tracks t now r (handle_request y x now rolls r s)
    unfolding handle_request read_request
    handle_request-Tracks x rolls body s held direct request read = rw request (
        subst (λ o. Tracks t now r (read_request y x now rolls r o s)) (sym read)
          (answered-Tracks rolls body _ (find_match x s.matcher r).0 _ held direct))
