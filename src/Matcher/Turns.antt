-- ===== src/Matcher/Turns.antt =====
-- Which response of its sequence a mock gives, after any calls of any mocks.
use Prim.Native.Nat.{min}
use pmp_mock_http.Prelude.{
  ℕ, suc, ◌+◌, ◌-◌, ◌%◌, ◌<◌, String, not, ◌&&◌, some, List, [], ◌∷◌, Dict, get, insert, length,
  get_elem?, ◌==◌, if◌then◌else◌, ◌≡◌, ◌∙◌, ap, arith, eq_iff, get_elem?-total, get-insert,
}
use pmp_mock_http.Models.{Mock, ResponseItem}
use pmp_mock_http.Http.{ok}
use pmp_mock_http.Matcher.Criteria.{is_empty}
use pmp_mock_http.Matcher.Sequence.{
  call_count, response_index, item_response, item_at, sequential, get_sequential_response,
}

-- The counts after the mocks of a list have each given a response.
unfoldable pub serve : List Mock → Dict ℕ → Dict ℕ
serve [] counts = counts
serve (mock ∷ mocks) counts = serve mocks (get_sequential_response mock counts).1

-- How many of them have a sequence and the name.
unfoldable pub times : String → List Mock → ℕ
times name [] = 0
times name (mock ∷ mocks) =
    (if (mock.name == name) && not (is_empty mock.response.sequence) then 1 else 0)
    + times name mocks

call_count-insert :
    (counts : Dict ℕ) (k j : String) (n : ℕ)
    → call_count (insert counts k n) j ≡ (if k == j then n else call_count counts j)
unfolding call_count
call_count-insert counts k j n = rw (get-insert counts k j n, call_count) (ground arith)

call_count-sequential :
    (mock : Mock) (items : List ResponseItem) (counts : Dict ℕ) (name : String)
    → call_count (sequential mock items counts).1 name
      ≡ call_count counts name + (if (mock.name == name) && not (is_empty items) then 1 else 0)
unfolding sequential
call_count-sequential mock [] counts name = ground arith
call_count-sequential mock (item ∷ items) counts name = ground (
  arith,
  call_count-insert counts mock.name name (call_count counts mock.name + 1),
  eq_iff mock.name name,
)

call_count-step :
    (mock : Mock) (counts : Dict ℕ) (name : String)
    → call_count (get_sequential_response mock counts).1 name
      ≡ call_count counts name
        + (if (mock.name == name) && not (is_empty mock.response.sequence) then 1 else 0)
unfolding get_sequential_response
call_count-step mock counts name = call_count-sequential mock mock.response.sequence counts name

call_count-serve :
    (mocks : List Mock) (counts : Dict ℕ) (name : String)
    → call_count (serve mocks counts) name ≡ call_count counts name + times name mocks
unfolding serve times
call_count-serve [] counts name = omega arith
call_count-serve (mock ∷ mocks) counts name = omega (
  arith,
  call_count-serve mocks (get_sequential_response mock counts).1 name,
  call_count-step mock counts name,
)

-- The place in a sequence of `len` items after `n` earlier calls.
abbrev pub place : String → ℕ → ℕ → ℕ
place mode len n = if mode == "once" then min n (len - 1) else n % len

response_index-eq-place :
    (mode : String) (len n : ℕ) → response_index mode (suc len) n ≡ place mode (suc len) n
unfolding response_index
response_index-eq-place mode len n = ground arith

place-lt : (mode : String) (len n : ℕ) → place mode (suc len) n < suc len
place-lt mode len n = ground arith

sequential-place :
    (mock : Mock) (item : ResponseItem) (items : List ResponseItem) (counts : Dict ℕ)
    → (chosen : ResponseItem) × (get_elem?
          (item ∷ items)
          (place mock.response.sequence_mode (length (item ∷ items)) (call_count counts mock.name))
        ≡ some chosen)
      × ((sequential mock (item ∷ items) counts).0 ≡ ok (item_response chosen))
unfolding sequential item_at
sequential-place mock item items counts =
    let mode = mock.response.sequence_mode in
    let n : ℕ = call_count counts mock.name in
    let (chosen, found, _) =
      get_elem?-total (item ∷ items) (place mode (length (item ∷ items)) n)
        (place-lt mode (length items) n) in
    (
      chosen,
      found,
      rw (response_index-eq-place mode (length items) n, item_at) (rw (found, item_at)),
    )

call_count-fresh : (n : ℕ) (name : String) → call_count [] name + n ≡ n
unfolding call_count get
call_count-fresh n name = omega arith

-- After any calls since the mocks were loaded, a mock with a sequence gives the item whose place is
-- the number of earlier calls of mocks of its name: modulo the length of the sequence, or, in the
-- mode "once", no further than the last item.
pub get_sequential_response-turn :
    (mock : Mock) (item : ResponseItem) (items : List ResponseItem) (before : List Mock)
    → mock.response.sequence ≡ item ∷ items
    → (chosen : ResponseItem) × (get_elem?
          (item ∷ items)
          (place mock.response.sequence_mode (length (item ∷ items)) (times mock.name before))
        ≡ some chosen)
      × ((get_sequential_response mock (serve before [])).0 ≡ ok (item_response chosen))
get_sequential_response-turn mock item items before e =
    let (chosen, found, answered) = sequential-place mock item items (serve before []) in
    (
      chosen,
      rw count_first at found,
      unfold get_sequential_response in
          ap (λ (l : List ResponseItem). (sequential mock l (serve before [])).0) e ∙ answered,
    )
  where
    count_first : call_count (serve before []) mock.name ≡ times mock.name before
    count_first =
        call_count-serve before [] mock.name ∙ call_count-fresh (times mock.name before) mock.name
