-- ===== src/Tracker/Tests.antt =====
-- Runs of the tracker, and its theorems at concrete calls.
use pmp_mock_http.Prelude.{
  ℕ, pos, pos_part, ltb_ℤ, false, none, some, List, [], ◌∷◌, reverse, last, if◌then◌else◌, ◌≡◌, ◌≢◌,
  refl, arith, map,
}
use pmp_mock_http.Tracker.{RequestLog, new_tracker, get_logs, log, clear}
use pmp_mock_http.Tracker.History.{Call, logged, cleared, run, journal, empty_journal, get_logs-run}
use pmp_mock_http.Tracker.Ids.{run-distinct_ids}

abbrev entry : RequestLog
entry = record {
  id = 0;
  timestamp = 0;
  method = "GET";
  uri = "/";
  headers = [];
  body = "";
  matched = false;
  mock_name = "";
  mock_config = none;
  status_code = pos 404;
  response = "";
  remote_addr = "";
}

abbrev calls : List Call
calls = logged 5 entry ∷ cleared ∷ logged 6 entry ∷ logged 7 entry ∷ logged 8 entry ∷ []

kept_ids : map (λ (e : RequestLog). e.id) (run (new_tracker (pos 2)) calls).logs ≡ 3 ∷ 4 ∷ []
unfolding run new_tracker log clear
kept_ids = refl

abbrev numbered : ℕ → ℕ → RequestLog
numbered id now = record entry { id = id; timestamp = now }

get_logs-run_example :
    (get_logs (run (new_tracker (pos 2)) calls)
      ≡ some (reverse (last (new_tracker (pos 2)).max_logs (journal empty_journal calls).entries)))
    × ((new_tracker (pos 2)).max_logs ≡ (if ltb_ℤ (pos 0) (pos 2) then pos_part (pos 2) else 1000))
get_logs-run_example = get_logs-run (pos 2) calls

run-distinct_ids_example : ◌≢◌ {A = ℕ} 3 4
unfolding run new_tracker log clear
run-distinct_ids_example =
    run-distinct_ids (pos 2) calls 0 1 (numbered 3 7) (numbered 4 8) (omega arith) (omega arith)
      refl refl
