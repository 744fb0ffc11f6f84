-- ===== src/Server/Recording.antt =====
-- The endpoints that control the recording. An answer in JSON or YAML is what is encoded in it.
use pmp_mock_http.Prelude.{ℕ, Bool, List, length, ◌==◌, if◌then◌else◌}
use pmp_mock_http.Models.{MockSpec}
use pmp_mock_http.Http.{HttpRequest, first_value}
use pmp_mock_http.Recorder.{
  Recorder, RecordedRequest, GroupOrder, is_enabled, start, stop, clear, count, get_recordings,
  export_as_mocks,
}

pub data RecordingReply : Type 0 where
  method_not_allowed started cleared : RecordingReply
  stopped : ℕ → RecordingReply
  status : Bool → ℕ → RecordingReply
  exported_json exported_yaml : MockSpec → RecordingReply
  listed : ℕ → List RecordedRequest → RecordingReply

unfoldable pub handle_recording_start : HttpRequest → Recorder → RecordingReply × Recorder
unfolding start
handle_recording_start r s =
    if r.method == "POST" then (started, start s) else (method_not_allowed, s)

unfoldable pub handle_recording_stop : HttpRequest → Recorder → RecordingReply × Recorder
unfolding stop count
handle_recording_stop r s =
    if r.method == "POST"
    then (let s' = stop s in (stopped (count s'), s'))
    else (method_not_allowed, s)

unfoldable pub handle_recording_status : HttpRequest → Recorder → RecordingReply
unfolding is_enabled count
handle_recording_status r s =
    if r.method == "GET" then status (is_enabled s) (count s) else method_not_allowed

unfoldable pub handle_recording_clear : HttpRequest → Recorder → RecordingReply × Recorder
unfolding clear
handle_recording_clear r s =
    if r.method == "POST" then (cleared, clear s) else (method_not_allowed, s)

unfoldable pub handle_recording_export : GroupOrder → HttpRequest → Recorder → RecordingReply
unfolding export_as_mocks first_value
handle_recording_export order r s =
    let spec = export_as_mocks order s (first_value r.query "group" == "uri") in
    if r.method == "GET"
    then (if first_value r.query "format" == "json" then exported_json spec else exported_yaml spec)
    else method_not_allowed

unfoldable pub handle_recording_list : HttpRequest → Recorder → RecordingReply
unfolding get_recordings
handle_recording_list r s =
    let recordings = get_recordings s in
    if r.method == "GET" then listed (length recordings) recordings else method_not_allowed
