-- ===== src/WebSocket/Modes.antt =====
-- `HandleConnection` from the connection on, and the modes. A connection is the list of messages
-- that it receives up to a read error.
use pmp_mock_http.Prelude.{
  ℕ, ◌+◌, ℤ, pos, ltb_ℤ, nat_eq, String, Bool, not, ◌&&◌, ◌||◌, Option, none, some, List, [], ◌∷◌,
  ◌++◌, ◌==◌, if◌then◌else◌,
}
use pmp_mock_http.Models.{WebSocketConfig, WebSocketMessage}
use pmp_mock_http.Server.Types.{RequestData}
use pmp_mock_http.WebSocket.Types.{
  Frame, Effect, sends, fails_to_send, sleeps, closes, passes_to, Call, send, close,
  WebSocketExternals,
}

abbrev text_frame : String → Frame
text_frame text = record { type = 1; body = text }

unfoldable pub pause : ℤ → List Effect
pause delay = if ltb_ℤ (pos 0) delay then sleeps delay ∷ [] else []

unfoldable pub rendered_or : String → Option String → String
rendered_or text none = text
rendered_or text (some rendered) = rendered

-- The frame of a message with its text.
unfoldable pub message_frame : WebSocketMessage → String → Frame
message_frame message text = record {
  type = if message.type == "binary" then 2 else 1;
  body = text;
}

-- `h.mock.WebSocket.CloseAfter > 0 && messagesSent >= h.mock.WebSocket.CloseAfter`
unfoldable pub closes_after : WebSocketConfig → ℕ → Bool
closes_after config sent =
    ltb_ℤ (pos 0) config.close_after && not (ltb_ℤ (pos sent) config.close_after)

-- The writes of a broadcast: to every connection but the sender.
unfoldable pub pass_on : ℕ → List ℕ → Frame → List Effect
pass_on sender [] frame = []
pass_on sender (conn ∷ connections) frame =
    let rest = pass_on sender connections frame in
    if nat_eq conn sender then rest else passes_to conn frame ∷ rest

abbrev frames_of : List (Frame × List ℕ) → List Frame
frames_of [] = []
frames_of ((frame, connections) ∷ received) = frame ∷ frames_of received

module _ {VM : Type 0} (x : WebSocketExternals VM) where
  unfoldable pub handle_echo_mode : List Frame → List Effect → List Effect
  handle_echo_mode [] done = done
  handle_echo_mode (frame ∷ frames) done =
      let rest = handle_echo_mode frames (done ++ sends frame ∷ []) in
      if x.write_fails done then done ++ fails_to_send frame ∷ [] else rest

  module _ (config : WebSocketConfig) (seen : RequestData) where
    unfoldable pub message_text : WebSocketMessage → String
    message_text message =
        if message.template || config.template
        then rendered_or message.message_data (x.render message.message_data seen)
        else message.message_data

    -- After the last message the connection is only read from.
    unfoldable pub send_messages : List WebSocketMessage → ℕ → List Effect → List Effect
    send_messages [] sent done = done
    send_messages (message ∷ messages) sent done =
        let waited = done ++ pause message.delay in
        let frame = message_frame message (message_text message) in
        let after = waited ++ sends frame ∷ [] in
        let rest = send_messages messages (sent + 1) (after ++ pause config.interval) in
        if x.write_fails waited
        then waited ++ fails_to_send frame ∷ []
        else if closes_after config (sent + 1)
        then after
        else rest

    unfoldable pub handle_sequence_mode : List Effect → List Effect
    handle_sequence_mode done = send_messages config.messages 0 done

    -- Each message comes with the connections that are registered when it is passed on.
    unfoldable pub handle_broadcast_mode : ℕ → List (Frame × List ℕ) → List Effect → List Effect
    handle_broadcast_mode self [] done = done
    handle_broadcast_mode self ((frame, connections) ∷ received) done =
        handle_broadcast_mode self received (done ++ pass_on self connections frame)

    unfoldable pub call : Call → List Effect → List Effect
    call close done = done ++ closes ∷ []
    call (send text) done =
        if x.write_fails done
        then done ++ fails_to_send (text_frame text) ∷ []
        else done ++ sends (text_frame text) ∷ []

    unfoldable pub calls : List Call → List Effect → List Effect
    calls [] done = done
    calls (c ∷ cs) done = calls cs (call c done)

    unfoldable pub call_back : VM → List Frame → List Effect → List Effect
    call_back vm [] done = done
    call_back vm (frame ∷ frames) done =
        let (vm', cs) = x.on_message vm frame.body in
        let answered = call_back vm' frames (calls cs done) in
        let ignored = call_back vm frames done in if x.has_callback vm then answered else ignored

    unfoldable pub after_script : VM × List Call × Bool → List Frame → List Effect → List Effect
    after_script (vm, cs, failed) frames done =
        if failed then calls cs done else call_back vm frames (calls cs done)

    unfoldable pub handle_java_script_mode : List Frame → List Effect → List Effect
    handle_java_script_mode frames done =
        if config.java_script == ""
        then handle_echo_mode frames done
        else if x.set_up_fails seen
        then done
        else after_script (x.run_string config.java_script seen) frames done

    unfoldable pub handle_mode : ℕ → List (Frame × List ℕ) → List Effect → List Effect
    handle_mode self received done =
        if config.mode == "sequence"
        then handle_sequence_mode done
        else if config.mode == "broadcast"
        then handle_broadcast_mode self received done
        else if config.mode == "javascript"
        then handle_java_script_mode (frames_of received) done
        else handle_echo_mode (frames_of received) done

    unfoldable pub greeting : String
    greeting =
        if config.template
        then rendered_or config.on_connect (x.render config.on_connect seen)
        else config.on_connect

    -- The message on connecting, if there is one, and then the mode; a failed write ends the
    -- connection.
    unfoldable pub greeted : ℕ → List (Frame × List ℕ) → List Effect
    greeted self received =
        if config.on_connect == ""
        then handle_mode self received []
        else if x.write_fails []
        then fails_to_send (text_frame greeting) ∷ []
        else handle_mode self received (sends (text_frame greeting) ∷ [])

  -- A connection is closed at its end, by the deferred function.
  unfoldable pub serve_connection :
      Option WebSocketConfig → RequestData → ℕ → List (Frame × List ℕ) → List Effect
  serve_connection none seen self received = handle_echo_mode (frames_of received) [] ++ closes ∷ []
  serve_connection (some config) seen self received =
      greeted config seen self received ++ closes ∷ []
