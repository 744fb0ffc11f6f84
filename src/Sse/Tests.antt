-- ===== src/Sse/Tests.antt =====
-- A stream of two events, and a script.
use pmp_mock_http.Prelude.{
  pos, String, true, false, none, some, List, [], ◌∷◌, ◌==◌, ◌≡◌, refl, All, arith, all_runes,
}
use pmp_mock_http.Models.{SseConfig, SseEvent}
use pmp_mock_http.Server.Types.{RequestData}
use pmp_mock_http.Sse.Types.{
  SseExternals, writes, flushes, sleeps, Call, send, send_event_of, close,
}
use pmp_mock_http.Sse.Writing.{write, line, finished, send_event}
use pmp_mock_http.Sse.Script.{calls}
use pmp_mock_http.Sse.Stream.{
  pause, stream_mode, show_event, event_text, handle_event_sequence, start_keep_alive,
  stop_keep_alive,
}
use pmp_mock_http.Sse.Turns.{played, handle_event_sequence-played}
use pmp_mock_http.Sse.Reader.{idle, ends_line, read_stream}
use pmp_mock_http.Sse.Wire.{wire}
use pmp_mock_http.Sse.RoundTrip.{read_back, IsOneLineCall, calls-read}

abbrev libraries : SseExternals
libraries = record {
  write_fails = λ done. false;
  is_done = λ done. false;
  is_flusher = true;
  render = λ text seen. some text;
  set_console = none;
  set_sse = none;
  set_request = λ seen. none;
  set_global = none;
  set_sleep = none;
  run_string = λ script seen. ([], none);
}

abbrev event : String → SseEvent
event text = record {
  event = "";
  event_data = text;
  id = "";
  retry = pos 0;
  delay = pos 0;
  template = false;
}

abbrev sse : SseConfig
sse = record {
  events = event "a" ∷ event "b" ∷ [];
  mode = "cycle";
  interval = pos 5;
  retry = pos 0;
  keep_alive = pos 0;
  close_after = pos 3;
  template = false;
  java_script = "";
}

abbrev seen : RequestData
seen = record {
  method = "GET";
  uri = "/";
  path = "/";
  raw_query = "";
  headers = [];
  body = "";
  remote_addr = "";
}

cycles : (stream_mode sse == "once") ≡ false
unfolding stream_mode
cycles = refl

handle_event_sequence-played_example :
    handle_event_sequence libraries sse seen 3 []
    ≡ some (stop_keep_alive sse (played libraries sse seen 3 0 (start_keep_alive sse [])))
handle_event_sequence-played_example =
    handle_event_sequence-played libraries sse seen 3 (λ done. refl) refl 3 [] (omega arith) cycles
      (omega arith) (omega arith)

three_events :
    played libraries sse seen 3 0 []
    ≡ writes "data: a\n\n"
      ∷ flushes
      ∷ sleeps (pos 5)
      ∷ writes "data: b\n\n"
      ∷ flushes
      ∷ sleeps (pos 5)
      ∷ writes "data: a\n\n"
      ∷ flushes
      ∷ []
unfolding show_event event_text send_event line write finished pause
three_events = refl

abbrev script_calls : List Call
script_calls = send "a" ∷ close ∷ send_event_of "tick" "b" "7" (pos 30) ∷ []

one_line_calls : All IsOneLineCall script_calls
unfolding all_runes ends_line
one_line_calls = ((refl, refl, refl, refl), (tt, ((refl, refl, refl, refl), tt)))

calls-read_example :
    read_stream (idle "" none) (wire (calls libraries script_calls []))
    ≡ read_back "" none script_calls
calls-read_example = calls-read libraries "" none script_calls (λ done. refl) one_line_calls
