-- ===== src/WebSocket/Types.antt =====
-- What a connection receives and does, and what it calls.
use pmp_mock_http.Prelude.{ℕ, ℤ, String, Bool, Option, List}
use pmp_mock_http.Server.Types.{RequestData}

-- A message with its type, of which 1 is text and 2 is binary.
pub record Frame : Type 0 where
  pub type : ℕ
  pub body : String

pub data Effect : Type 0 where
  sends : Frame → Effect
  fails_to_send : Frame → Effect
  sleeps : ℤ → Effect
  closes : Effect
  -- The write of a broadcast to another connection, whose error is only logged.
  passes_to : ℕ → Frame → Effect

-- What a script calls: connection.send (sendJSON is one of the marshalled text) and
-- connection.close.
pub data Call : Type 0 where
  send : String → Call
  close : Call

-- `VM` is the state of a goja runtime with the callback that a script sets by onMessage. What a call
-- returns to the script is left out.
pub record WebSocketExternals (VM : Type 0) : Type 0 where
  -- whether a write fails, by what was done so far
  pub write_fails : List Effect → Bool
  pub render : String → RequestData → Option String
  -- vm.Set of console, connection, request, global and onMessage: whether one of them fails
  pub set_up_fails : RequestData → Bool
  -- the runtime after the script, its calls, and whether it ends with an error
  pub run_string : String → RequestData → VM × List Call × Bool
  pub has_callback : VM → Bool
  pub on_message : VM → String → VM × List Call
