-- ===== src/Tracker.antt =====
-- internal/tracker/tracker.go: the bounded log of requests. Each method runs under the tracker's
-- lock, so a history is a sequence of calls. `time.Now()` is an argument of the call that reads it.
pub mod History
pub mod Ids
mod Tests
use pmp_mock_http.Prelude.{
  ℕ, zero, suc, ◌+◌, ◌-◌, ◌%◌, ◌^◌, ℤ, pos, ltb_ℤ, pos_part, String, Bool, Option, none, some, List,
  [], ◌∷◌, ◌++◌, Dict, length, get_elem?, drop, ltb, if◌then◌else◌,
}
use pmp_mock_http.Models.{Mock}

-- `id` is an int64, by its 64 bits; `timestamp` is the reading of the clock.
pub record RequestLog : Type 0 where
  pub id : ℕ
  pub timestamp : ℕ
  pub method : String
  pub uri : String
  pub headers : Dict String
  pub body : String
  pub matched : Bool
  pub mock_name : String
  pub mock_config : Option Mock
  pub status_code : ℤ
  pub response : String
  pub remote_addr : String

-- `max_logs` is positive once `new_tracker` has set it.
pub record Tracker : Type 0 where
  pub logs : List RequestLog
  pub next_id : ℕ
  pub max_logs : ℕ

unfoldable pub new_tracker : ℤ → Tracker
new_tracker max_logs =
    let max : ℕ = (if ltb_ℤ (pos 0) max_logs then pos_part max_logs else 1000) in
    record { logs = []; next_id = 1; max_logs = max }

-- `t.nextID++` on an int64.
abbrev pub next : ℕ → ℕ
next id = (id + 1) % 2 ^ 64

-- The entry as it is stored.
abbrev pub stamped : ℕ → ℕ → RequestLog → RequestLog
stamped id now entry = record entry { id = id; timestamp = now }

unfoldable pub log : Tracker → ℕ → RequestLog → Tracker
log t now entry =
    let logs : List RequestLog = t.logs ++ stamped t.next_id now entry ∷ [] in
    record t {
      logs = if ltb t.max_logs (length logs) then drop (length logs - t.max_logs) logs else logs;
      next_id = next t.next_id;
    }

-- The loop of `GetLogs`: `suc j` stands for the index j, and `none` for an index out of range.
read_back : List RequestLog → ℕ → Option (List RequestLog)
read_back logs zero = some []
read_back logs (suc j) = elim (get_elem? logs j) [
  | none ↦ none
  | some entry ↦ elim (read_back logs j) [ none ↦ none | some rest ↦ some (entry ∷ rest) ]
]

unfoldable pub get_logs : Tracker → Option (List RequestLog)
unfolding read_back
get_logs t = read_back t.logs (length t.logs)

unfoldable pub clear : Tracker → Tracker
clear t = record t { logs = [] }

unfoldable pub count : Tracker → ℕ
count t = length t.logs
