-- ===== src/Matcher/Sequence.antt =====
-- `getSequentialResponse`: the responses of a mock with a sequence, by the number of its calls. A
-- count is a number: it is an int in the source, which 2^63 calls would overflow.
use pmp_mock_http.Prelude.{
  ℕ, ◌+◌, ◌-◌, ◌%◌, String, none, some, List, [], ◌∷◌, Dict, get, insert, length, get_elem?, leb,
  ◌==◌, if◌then◌else◌,
}
use pmp_mock_http.Models.{Mock, Response, ResponseItem, empty_response}
use pmp_mock_http.Http.{Result, ok, panicked}

-- `m.callCounts[name]`
unfoldable pub call_count : Dict ℕ → String → ℕ
call_count counts name = elim (get counts name) [ none ↦ 0 | some n ↦ n ]

-- The mode "" is "cycle", and so is every mode but "once".
unfoldable pub response_index : String → ℕ → ℕ → ℕ
response_index mode sequence_len call_count =
    if mode == "once"
    then (if leb sequence_len call_count then sequence_len - 1 else call_count)
    else call_count % sequence_len

unfoldable pub item_response : ResponseItem → Response
item_response item = record empty_response {
  status_code = item.status_code;
  headers = item.headers;
  body = item.body;
  delay = item.delay;
  template = item.template;
  callback = item.callback;
}

-- `sequence[index]`, which panics out of range.
unfoldable pub item_at : List ResponseItem → ℕ → Result Response
unfolding item_response
item_at sequence index = elim (get_elem? sequence index) [
  | none ↦ panicked
  | some item ↦ ok (item_response item)
]

-- `getSequentialResponse` by the mock's sequence, which the source reads from the mock.
unfoldable pub sequential : Mock → List ResponseItem → Dict ℕ → Result Response × Dict ℕ
sequential mock [] counts = (ok mock.response, counts)
sequential mock (item ∷ items) counts =
    let n : ℕ = call_count counts mock.name in
    (
      item_at (item ∷ items) (response_index mock.response.sequence_mode (length (item ∷ items)) n),
      insert counts mock.name (n + 1),
    )

unfoldable pub get_sequential_response : Mock → Dict ℕ → Result Response × Dict ℕ
unfolding sequential
get_sequential_response mock counts = sequential mock mock.response.sequence counts
