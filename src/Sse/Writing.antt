-- ===== src/Sse/Writing.antt =====
-- `sendEvent`: the lines of an event.
use pmp_mock_http.Prelude.{
  ℤ, pos, ltb_ℤ, String, ◌<>◌, Bool, true, not, List, [], ◌∷◌, ◌++◌, ◌==◌, if◌then◌else◌,
}
use pmp_mock_http.Management.Manager.{signed}
use pmp_mock_http.Sse.Types.{SseExternals, Effect, writes, fails_to_write, flushes}

-- An event that is being written, or given up because of an error; with all that was done so far.
pub data Writing : Type 0 where
  going : List Effect → Writing
  failed : List Effect → Writing

module _ (x : SseExternals) where
  unfoldable pub write : String → List Effect → Writing
  write text done =
      if x.write_fails done
      then failed (done ++ fails_to_write text ∷ [])
      else going (done ++ writes text ∷ [])

  -- A line that is only written if it is given, and if no line before it failed.
  unfoldable pub line : Bool → String → Writing → Writing
  line given text (failed done) = failed done
  line given text (going done) = if given then write text done else going done

  unfoldable pub finished : Writing → List Effect
  finished (failed done) = done
  finished (going done) = done ++ flushes ∷ []

  unfoldable pub send_event : String → String → String → ℤ → List Effect → List Effect
  send_event event_type event_data id retry done =
      let named = line (not (event_type == "")) ("event: " <> event_type <> "\n") (going done) in
      let identified = line (not (id == "")) ("id: " <> id <> "\n") named in
      let timed = line (ltb_ℤ (pos 0) retry) ("retry: " <> signed retry <> "\n") identified in
      finished (line true ("data: " <> event_data <> "\n\n") timed)
