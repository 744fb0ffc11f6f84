-- ===== src/Recorder.antt =====
-- internal/recorder/recorder.go: the recording of requests and responses, and their export as mocks.
-- Each method runs under the recorder's lock. `time.Now()` is an argument of the call that reads it.
pub mod Sessions
pub mod Groups
pub mod Replay
mod Tests
use pmp_mock_http.Prelude.{
  ℕ, ◌+◌, ℤ, String, ◌<>◌, Bool, true, false, Option, none, some, List, [], ◌∷◌, ◌++◌, Dict, get,
  insert, rune_text, length, map, if◌then◌else◌,
}
use pmp_mock_http.Models.{
  Mock, MockSpec, Response, ResponseItem, empty_mock, empty_request, empty_response, empty_item,
}

pub record RecordedResponse : Type 0 where
  pub status_code : ℤ
  pub headers : Dict String
  pub body : String

pub record RecordedRequest : Type 0 where
  pub timestamp : ℕ
  pub method : String
  pub uri : String
  pub headers : Dict String
  pub body : String
  pub response : RecordedResponse

pub record Recorder : Type 0 where
  pub enabled : Bool
  pub recordings : List RecordedRequest

unfoldable pub new_recorder : Recorder
new_recorder = record { enabled = false; recordings = [] }

unfoldable pub is_enabled : Recorder → Bool
is_enabled r = r.enabled

unfoldable pub start : Recorder → Recorder
start r = record { enabled = true; recordings = [] }

unfoldable pub stop : Recorder → Recorder
stop r = record r { enabled = false }

unfoldable pub record_request :
    Recorder → ℕ → String → String → Dict String → String → ℤ → Dict String → String → Recorder
record_request r now method uri req_headers req_body status_code resp_headers resp_body =
    if r.enabled
    then record r {
      recordings =
          r.recordings
          ++ record {
            timestamp = now;
            method = method;
            uri = uri;
            headers = req_headers;
            body = req_body;
            response = record {
              status_code = status_code;
              headers = resp_headers;
              body = resp_body;
            };
          }
            ∷ [];
    }
    else r

unfoldable pub get_recordings : Recorder → List RecordedRequest
get_recordings r = r.recordings

unfoldable pub clear : Recorder → Recorder
clear r = record r { recordings = [] }

unfoldable pub count : Recorder → ℕ
count r = length r.recordings

-- `uriGroups`, by method and URI.
abbrev pub group_key : RecordedRequest → String
group_key recorded = recorded.method <> " " <> recorded.uri

-- `uriGroups[key]`, nil if there is none.
abbrev pub members : Option (List RecordedRequest) → List RecordedRequest
members none = []
members (some recs) = recs

unfoldable pub grouped :
    Dict (List RecordedRequest) → List RecordedRequest → Dict (List RecordedRequest)
grouped groups [] = groups
grouped groups (recorded ∷ recs) =
    grouped
      (insert groups (group_key recorded)
        (members (get groups (group_key recorded)) ++ recorded ∷ []))
      recs

-- The response of a mock that answers as one recording did.
abbrev pub recorded_response : RecordedRequest → Response
recorded_response recorded = record empty_response {
  status_code = recorded.response.status_code;
  headers = recorded.response.headers;
  body = recorded.response.body;
}

abbrev pub recorded_item : RecordedRequest → ResponseItem
recorded_item recorded = record empty_item {
  status_code = recorded.response.status_code;
  headers = recorded.response.headers;
  body = recorded.response.body;
}

abbrev pub single_mock : String → RecordedRequest → Mock
single_mock name recorded = record empty_mock {
  name = name;
  request = record empty_request { uri = recorded.uri; method = recorded.method };
  response = recorded_response recorded;
}

-- A group with its first recording, which a group always has.
unfoldable pub group_mock : String → RecordedRequest → List RecordedRequest → Mock
group_mock key first [] = single_mock ("Recorded: " <> key) first
group_mock key first (second ∷ recs) = record empty_mock {
  name = "Recorded: " <> key <> " (sequence)";
  request = record empty_request { uri = first.uri; method = first.method };
  response = record empty_response {
    sequence = map recorded_item (first ∷ second ∷ recs);
    sequence_mode = "cycle";
  };
}

-- The loop over the groups. On an empty group `recs[0]` would panic; there is none.
unfoldable pub group_mocks : Dict (List RecordedRequest) → List Mock
group_mocks [] = []
group_mocks ((key, []) ∷ groups) = group_mocks groups
group_mocks ((key, first ∷ recs) ∷ groups) = group_mock key first recs ∷ group_mocks groups

-- The mocks of single recordings; the number in a name is converted as a rune.
unfoldable pub single_mocks : ℕ → List RecordedRequest → List Mock
single_mocks i [] = []
single_mocks i (recorded ∷ recs) =
    single_mock (recorded.method <> " " <> recorded.uri <> " #" <> rune_text (i + 1)) recorded
    ∷ single_mocks (i + 1) recs

-- The order in which Go ranges over the groups, which the language leaves open.
abbrev pub GroupOrder : Type 0
GroupOrder = Dict (List RecordedRequest) → Dict (List RecordedRequest)

unfoldable pub export_as_mocks : GroupOrder → Recorder → Bool → MockSpec
export_as_mocks order r group_by_uri = record {
  mocks =
      if group_by_uri
      then group_mocks (order (grouped [] r.recordings))
      else single_mocks 0 r.recordings;
}
