-- ===== src/Sse/Script.antt =====
-- `handleJavaScriptMode`: a script that sends the events. The calls it makes return nothing to it,
-- so that they are known before they are made.
use pmp_mock_http.Prelude.{pos, String, ◌<>◌, Option, none, some, List, [], ◌∷◌, ◌++◌}
use pmp_mock_http.Server.Types.{RequestData}
use pmp_mock_http.Sse.Types.{
  SseExternals, Effect, sleeps, Call, send, send_event_of, close, sleep_for,
}
use pmp_mock_http.Sse.Writing.{send_event}

module _ (x : SseExternals) where
  unfoldable pub call : Call → List Effect → List Effect
  call (send text) done = send_event x "" text "" (pos 0) done
  call (send_event_of event_type text id retry) done = send_event x event_type text id retry done
  call close done = done
  call (sleep_for ms) done = done ++ sleeps ms ∷ []

  unfoldable pub calls : List Call → List Effect → List Effect
  calls [] done = done
  calls (c ∷ cs) done = calls cs (call c done)

  unfoldable pub report_error : String → Option String → List Effect → List Effect
  report_error message none done = done
  report_error message (some e) done = send_event x "error" (message <> e) "" (pos 0) done

  -- The script's own calls stand before its error.
  unfoldable pub run_script : List Call × Option String → List Effect → List Effect
  run_script (cs, e) done = report_error "JavaScript error: " e (calls cs done)

  -- The first of the errors of the set-up ends it.
  unfoldable pub first_error : List (Option String) → Option String
  first_error [] = none
  first_error (none ∷ steps) = first_error steps
  first_error (some e ∷ steps) = some e

  unfoldable pub script_after : Option String → String → RequestData → List Effect → List Effect
  script_after (some e) script seen done = report_error "JavaScript setup error: " (some e) done
  script_after none script seen done = run_script (x.run_string script seen) done

  unfoldable pub handle_java_script_mode : String → RequestData → List Effect → List Effect
  handle_java_script_mode script seen done =
      script_after
        (first_error
          (x.set_console ∷ x.set_sse ∷ x.set_request seen ∷ x.set_global ∷ x.set_sleep ∷ []))
        script seen done
