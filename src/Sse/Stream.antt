-- ===== src/Sse/Stream.antt =====
-- `handleEventSequence` and `HandleStream`.
use pmp_mock_http.Prelude.{
  ℕ, zero, suc, ◌+◌, ℤ, pos, ltb_ℤ, String, ◌<>◌, Bool, not, ◌&&◌, ◌||◌, Option, none, some, List,
  [], ◌∷◌, ◌++◌, ◌==◌, if◌then◌else◌,
}
use pmp_mock_http.Http.{HttpRequest}
use pmp_mock_http.Models.{Mock, SseConfig, SseEvent}
use pmp_mock_http.Server.Types.{RequestData, new_request_data}
use pmp_mock_http.Matcher.Criteria.{is_empty}
use pmp_mock_http.Management.Manager.{signed}
use pmp_mock_http.Sse.Types.{
  SseExternals, Effect, sets_header, http_error, flushes, sleeps, starts_keep_alive,
  stops_keep_alive,
}
use pmp_mock_http.Sse.Writing.{Writing, going, failed, write, send_event}
use pmp_mock_http.Sse.Script.{handle_java_script_mode}

-- `if delay > 0 { time.Sleep(…) }`
unfoldable pub pause : ℤ → List Effect
pause delay = if ltb_ℤ (pos 0) delay then sleeps delay ∷ [] else []

-- How the loop over the events ends: by a return, or after the last one, with the number of events
-- that were sent.
pub data Round : Type 0 where
  returned : ℕ → List Effect → Round
  completed : ℕ → List Effect → Round

unfoldable pub rendered_or : String → Option String → String
rendered_or text none = text
rendered_or text (some rendered) = rendered

-- `mode`, which is "cycle" if none is given.
unfoldable pub stream_mode : SseConfig → String
stream_mode sse = if sse.mode == "" then "cycle" else sse.mode

-- `h.mock.SSE.CloseAfter > 0 && eventsSent >= h.mock.SSE.CloseAfter`
unfoldable pub closes : SseConfig → ℕ → Bool
closes sse sent = ltb_ℤ (pos 0) sse.close_after && not (ltb_ℤ (pos sent) sse.close_after)

-- The goroutine of the ticker, which is started before the loop and stopped at its end.
unfoldable pub start_keep_alive : SseConfig → List Effect → List Effect
start_keep_alive sse done =
    if ltb_ℤ (pos 0) sse.keep_alive then done ++ starts_keep_alive sse.keep_alive ∷ [] else done

unfoldable pub stop_keep_alive : SseConfig → List Effect → List Effect
stop_keep_alive sse done =
    if ltb_ℤ (pos 0) sse.keep_alive then done ++ stops_keep_alive ∷ [] else done

module _ (x : SseExternals) (sse : SseConfig) (seen : RequestData) where
  unfoldable pub event_text : SseEvent → String
  unfolding rendered_or
  event_text event =
      if event.template || (sse.template && event.template)
      then rendered_or event.event_data (x.render event.event_data seen)
      else event.event_data

  -- One event, with its delay.
  unfoldable pub show_event : SseEvent → List Effect → List Effect
  show_event event done =
      send_event x event.event (event_text event) event.id event.retry (done ++ pause event.delay)

  unfoldable pub send_events : List SseEvent → ℕ → List Effect → Round
  send_events [] sent done = completed sent done
  send_events (event ∷ events) sent done =
      let after = show_event event done in
      let rest = send_events events (sent + 1) (after ++ pause sse.interval) in
      if x.is_done done
      then returned sent done
      else if closes sse (sent + 1)
      then returned (sent + 1) after
      else rest

  unfoldable pub next_round :
      (ℕ → List Effect → Option (ℕ × List Effect)) → Round → Option (ℕ × List Effect)
  next_round again (returned sent done) = some (sent, done)
  next_round again (completed sent done) =
      let more = again sent done in if stream_mode sse == "once" then some (sent, done) else more

  -- The outer loop, on fuel: `none` if it runs out. An empty list of events would cycle for ever;
  -- HandleStream does not call the loop with one.
  unfoldable pub cycle : ℕ → ℕ → List Effect → Option (ℕ × List Effect)
  cycle zero sent done = none
  cycle (suc fuel) sent done = next_round (cycle fuel) (send_events sse.events sent done)

  unfoldable pub ended : Option (ℕ × List Effect) → Option (List Effect)
  unfolding stop_keep_alive
  ended none = none
  ended (some (sent, done)) = some (stop_keep_alive sse done)

  unfoldable pub handle_event_sequence : ℕ → List Effect → Option (List Effect)
  handle_event_sequence fuel done = ended (cycle fuel 0 (start_keep_alive sse done))

module _ (x : SseExternals) where
  unfoldable pub stream_headers : List Effect
  stream_headers =
      sets_header "Content-Type" "text/event-stream"
      ∷ sets_header "Cache-Control" "no-cache"
      ∷ sets_header "Connection" "keep-alive"
      ∷ sets_header "Access-Control-Allow-Origin" "*"
      ∷ []

  unfoldable pub default_message : List Effect → List Effect
  default_message done = send_event x "message" "SSE connection established" "" (pos 0) done

  -- What follows the initial retry value: a script, the events, or the default message.
  unfoldable pub stream_body : ℕ → SseConfig → RequestData → List Effect → Option (List Effect)
  stream_body fuel sse seen done =
      if not (sse.java_script == "")
      then some (handle_java_script_mode x sse.java_script seen done)
      else if not (is_empty sse.events)
      then handle_event_sequence x sse seen fuel done
      else some (default_message done)

  unfoldable pub after_retry : ℕ → SseConfig → RequestData → Writing → Option (List Effect)
  after_retry fuel sse seen (failed done) = some done
  after_retry fuel sse seen (going done) = stream_body fuel sse seen (done ++ flushes ∷ [])

  unfoldable pub stream_of : ℕ → Option SseConfig → RequestData → List Effect → Option (List Effect)
  stream_of fuel none seen done = some (default_message done)
  stream_of fuel (some sse) seen done =
      if ltb_ℤ (pos 0) sse.retry
      then after_retry fuel sse seen (write x ("retry: " <> signed sse.retry <> "\n\n") done)
      else stream_body fuel sse seen done

  unfoldable pub handle_stream : ℕ → Mock → HttpRequest → Option (List Effect)
  handle_stream fuel mock r =
      if x.is_flusher
      then stream_of fuel mock.sse (new_request_data r "") stream_headers
      else some (stream_headers ++ http_error "Streaming not supported" (pos 500) ∷ [])
