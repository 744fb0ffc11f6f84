-- ===== src/WebSocket/Tests.antt =====
-- A handler with room for one connection, and a sequence of messages.
use pmp_mock_http.Prelude.{ℕ, ◌+◌, ◌<◌, pos, String, false, some, [], ◌∷◌, ◌≡◌, refl, arith}
use pmp_mock_http.Models.{WebSocketConfig, WebSocketMessage}
use pmp_mock_http.Server.Types.{RequestData}
use pmp_mock_http.WebSocket.Types.{sends, sleeps, closes, passes_to, WebSocketExternals}
use pmp_mock_http.WebSocket.Modes.{
  pause, message_frame, message_text, closes_after, send_messages, handle_sequence_mode,
  handle_broadcast_mode, pass_on, handle_mode, greeted, serve_connection,
}
use pmp_mock_http.WebSocket.Registry.{
  Hub, new_hub, is_full, without, get_connection_count, admit, register, Reach, starts, steps,
  admits, registers,
}
use pmp_mock_http.WebSocket.Limit.{Reach-limit}

abbrev libraries : WebSocketExternals ℕ
libraries = record {
  write_fails = λ done. false;
  render = λ text seen. some text;
  set_up_fails = λ seen. false;
  run_string = λ script seen. (0, [], false);
  has_callback = λ vm. false;
  on_message = λ vm text. (vm, []);
}

abbrev message : String → WebSocketMessage
message text = record { type = "text"; message_data = text; delay = pos 0; template = false }

abbrev config : WebSocketConfig
config = record {
  mode = "sequence";
  messages = message "a" ∷ message "b" ∷ message "c" ∷ [];
  interval = pos 5;
  close_after = pos 2;
  java_script = "";
  on_connect = "";
  on_disconnect = "";
  template = false;
  max_connections = pos 1;
}

abbrev seen : RequestData
seen = record {
  method = "GET";
  path = "/";
  uri = "/";
  raw_query = "";
  headers = [];
  body = "";
  remote_addr = "";
}

two_messages :
    serve_connection libraries (some config) seen 7 []
    ≡ sends (record { type = 1; body = "a" })
      ∷ sleeps (pos 5)
      ∷ sends (record { type = 1; body = "b" })
      ∷ closes
      ∷ []
unfolding serve_connection greeted handle_mode handle_sequence_mode send_messages closes_after
    message_frame message_text pause
two_messages = refl

-- A message is passed to every connection but that of its sender.
passed_on :
    serve_connection libraries
      (some (record config { mode = "broadcast" }))
      seen
      7
      ((record { type = 1; body = "hi" }, 8 ∷ 7 ∷ 9 ∷ []) ∷ [])
    ≡ passes_to 8 (record { type = 1; body = "hi" })
      ∷ passes_to 9 (record { type = 1; body = "hi" })
      ∷ closes
      ∷ []
unfolding serve_connection greeted handle_mode handle_broadcast_mode pass_on
passed_on = refl

-- Two calls that are both tested before either registers its connection exceed the limit of one.
abbrev crowded : Hub
crowded = record { connections = 2 ∷ 1 ∷ []; admitted = 0 }

crowded-Reach : Reach (some config) 2 crowded
unfolding new_hub admit register is_full get_connection_count without
crowded-Reach =
    steps
      (steps
        (steps (steps starts (admits new_hub refl) (omega arith)) (admits (admit new_hub) refl)
          (omega arith))
        (registers (admit (admit new_hub)) 1 (omega arith)) (omega arith))
      (registers (register 1 (admit (admit new_hub))) 2 (omega arith)) (omega arith)

Reach-limit_example : get_connection_count crowded < 1 + 2
Reach-limit_example = Reach-limit config 1 refl (omega arith) 2 crowded (omega arith) crowded-Reach
