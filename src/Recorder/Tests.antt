-- ===== src/Recorder/Tests.antt =====
-- Three recordings, and the recorder's theorems there.
use pmp_mock_http.Prelude.{
  all_runes, ◌<>◌, ℕ, ◌%◌, pos, true, false, some, List, [], ◌∷◌, ◌++◌, get, map, get_elem?,
  rune_text, ◌≡◌, refl,
}
use pmp_mock_http.Http.{ok}
use pmp_mock_http.Matcher.Sequence.{get_sequential_response}
use pmp_mock_http.Matcher.Turns.{serve, times}
use pmp_mock_http.Recorder.{
  RecordedRequest, new_recorder, get_recordings, export_as_mocks, single_mocks, members, grouped,
  group_mock, recorded_response,
}
use pmp_mock_http.Recorder.Sessions.{starts, stops, sees, run, all_seen, run-session}
use pmp_mock_http.Recorder.Groups.{recorded_under, grouped-members}
use pmp_mock_http.Recorder.Replay.{group_mock-replays}

abbrev recorded : ℕ → RecordedRequest
recorded status = record {
  timestamp = 0;
  method = "GET";
  uri = "/users";
  headers = [];
  body = "";
  response = record { status_code = pos status; headers = []; body = "" };
}

abbrev recordings : List RecordedRequest
recordings = recorded 200 ∷ recorded 500 ∷ []

run-session_example :
    get_recordings (
      run new_recorder (
        (sees (recorded 404) ∷ [])
        ++ starts ∷ (all_seen recordings ++ stops ∷ all_seen recordings)))
    ≡ recordings
run-session_example = run-session new_recorder (sees (recorded 404) ∷ []) recordings recordings

grouped-members_example :
    members (get (grouped [] recordings) ("GET" <> (" " <> "/users")))
    ≡ recorded_under "GET" "/users" recordings
unfolding all_runes
grouped-members_example = grouped-members recordings "GET" "/users" refl (refl, (refl, tt))

group_mock-replays_example :
    (q : RecordedRequest) × (get_elem? recordings
        (times (group_mock "GET /users" (recorded 200) (recorded 500 ∷ [])).name [] % 2)
      ≡ some q)
    × ((get_sequential_response
          (group_mock "GET /users" (recorded 200) (recorded 500 ∷ []))
          (serve [] [])).0
        ≡ ok (recorded_response q))
group_mock-replays_example = group_mock-replays "GET /users" (recorded 200) (recorded 500 ∷ []) []

-- The first recording is exported under the number U+0001.
names_example :
    map
      (λ m. m.name)
      (export_as_mocks
        (λ groups. groups)
        (record { enabled = true; recordings = recordings })
        false).mocks
    ≡ "GET /users #\u{1}" ∷ "GET /users #\u{2}" ∷ []
unfolding export_as_mocks single_mocks rune_text
names_example = refl
