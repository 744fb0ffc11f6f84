-- ===== src/Matcher/Tests.antt =====
-- Searches and sequences at concrete mocks, and the matcher's theorems there.
use pmp_mock_http.Prelude.{
  ℕ, pos, false, not, ◌&&◌, none, some, List, [], ◌∷◌, get, All, any, get_elem?, ◌==◌, ◌≡◌, ◌↔◌,
  refl,
}
use pmp_mock_http.Models.{Mock, ResponseItem, empty_mock, empty_request, empty_response, empty_item}
use pmp_mock_http.Http.{HttpRequest, ok}
use pmp_mock_http.Externals.{equal_fold}
use pmp_mock_http.Externals.Sample.{sample}
use pmp_mock_http.Matcher.Criteria.{match_string, match_headers, matches}
use pmp_mock_http.Matcher.Scenario.{available_scenarios, belongs_to_scenario}
use pmp_mock_http.Matcher.Available.{has, Distinct, available_scenarios-exact}
use pmp_mock_http.Matcher.Sequence.{
  item_response, item_at, response_index, get_sequential_response, call_count,
}
use pmp_mock_http.Matcher.Turns.{serve, times, place, get_sequential_response-turn}
use pmp_mock_http.Matcher.Search.{Matcher, new_matcher, attempt, respond, find_from, find_match}
use pmp_mock_http.Matcher.Best.{IsBest, IsCandidate, find_match-IsBest}
use pmp_mock_http.Matcher.Missing.{find_match-none_iff}
use pmp_mock_http.Matcher.Sorting.{sort_by_priority, sort_by_priority-IsSort}

abbrev request : HttpRequest
request = record {
  method = "get";
  path = "/users";
  raw_query = "";
  request_uri = "/users";
  query = [];
  form = none;
  header = ("Accept", "text/html" ∷ []) ∷ [];
  body = some "{}";
  host = "localhost";
  remote_addr = "";
  tls = false;
}

abbrev low : Mock
low = record empty_mock { name = "low"; priority = pos 1 }

abbrev item : ℕ → ResponseItem
item code = record empty_item { status_code = pos code }

abbrev high : Mock
high = record empty_mock {
  name = "high";
  scenarios = "night" ∷ "" ∷ "day" ∷ [];
  priority = pos 5;
  request = record empty_request { uri = "/users"; method = "GET" };
  response = record empty_response { sequence = item 200 ∷ item 500 ∷ [] };
}

abbrev mocks : List Mock
mocks = low ∷ high ∷ []

abbrev start : Matcher ℕ
start = new_matcher sort_by_priority 0 mocks

abbrev answer : Mock
answer = record high { response = record empty_response { status_code = pos 200 } }

find_high : (find_match sample start request).0 ≡ ok (some answer)
unfolding find_match find_from attempt respond new_matcher sort_by_priority belongs_to_scenario
    matches match_string match_headers equal_fold get_sequential_response item_response item_at
    response_index call_count get
find_high = refl

find_match-IsBest_example : IsBest sample request "{}" "" mocks answer
unfolding new_matcher
find_match-IsBest_example =
    find_match-IsBest sample sort_by_priority mocks start request "{}" answer
      sort_by_priority-IsSort refl refl find_high

find_match-none_iff_example :
    (find_match sample start request ≡ (ok none, start))
    ↔ All (λ p. ¬ IsCandidate sample request "{}" "" p) mocks
unfolding new_matcher
find_match-none_iff_example =
    find_match-none_iff sample sort_by_priority mocks start request "{}" sort_by_priority-IsSort
      refl refl (refl, (refl, tt))

get_sequential_response-turn_example :
    (chosen : ResponseItem) × (get_elem?
        (item 200 ∷ item 500 ∷ [])
        (place "" 2 (times "high" (high ∷ low ∷ high ∷ [])))
      ≡ some chosen)
    × ((get_sequential_response high (serve (high ∷ low ∷ high ∷ []) [])).0
        ≡ ok (item_response chosen))
get_sequential_response-turn_example =
    get_sequential_response-turn high (item 200) (item 500 ∷ []) (high ∷ low ∷ high ∷ []) refl

available_scenarios-exact_example :
    (has (available_scenarios mocks) "day"
      ≡ (any (λ (m : Mock). has m.scenarios "day") mocks && not ("day" == "")))
    × Distinct (available_scenarios mocks)
available_scenarios-exact_example = available_scenarios-exact mocks "day"
