-- ===== src/Sse/Types.antt =====
-- What a stream does, in order, and what it calls.
use pmp_mock_http.Prelude.{ℤ, String, Bool, Option, List}
use pmp_mock_http.Server.Types.{RequestData}

-- Lines of the log are left out.
pub data Effect : Type 0 where
  sets_header : String → String → Effect
  -- A call of fmt.Fprintf on the response that succeeds, and one that returns an error.
  writes : String → Effect
  fails_to_write : String → Effect
  flushes : Effect
  -- time.Sleep, in milliseconds
  sleeps : ℤ → Effect
  http_error : String → ℤ → Effect
  -- The ticker's goroutine that writes ": keep-alive\n\n" at an interval, and its stop.
  starts_keep_alive : ℤ → Effect
  stops_keep_alive : Effect

-- What a script calls: sse.send, sse.sendEvent, sse.close and sleep.
pub data Call : Type 0 where
  send : String → Call
  send_event_of : String → String → String → ℤ → Call
  close : Call
  sleep_for : ℤ → Call

-- The connection decides by what was done so far: whether a write fails, and whether the context of
-- the request is done. A text is the message of an error of goja, `none` that there is none.
pub record SseExternals : Type 0 where
  pub write_fails : List Effect → Bool
  pub is_done : List Effect → Bool
  pub is_flusher : Bool
  pub render : String → RequestData → Option String
  pub set_console : Option String
  pub set_sse : Option String
  pub set_request : RequestData → Option String
  pub set_global : Option String
  pub set_sleep : Option String
  -- The calls that the script makes, and the error that it ends with.
  pub run_string : String → RequestData → List Call × Option String
