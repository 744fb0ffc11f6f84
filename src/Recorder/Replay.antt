-- ===== src/Recorder/Replay.antt =====
-- An exported group answers as its recordings did.
use pmp_mock_http.Prelude.{
  ◌<>◌, ℕ, zero, suc, ◌%◌, String, some, List, [], ◌∷◌, length, get_elem?, map, ◌≡◌, refl, ap, ◌∙◌,
  arith, subst,
}
use pmp_mock_http.Models.{Mock, ResponseItem}
use pmp_mock_http.Http.{ok}
use pmp_mock_http.Matcher.Sequence.{item_response, get_sequential_response, sequential}
use pmp_mock_http.Matcher.Turns.{serve, times, get_sequential_response-turn}
use pmp_mock_http.Recorder.{RecordedRequest, recorded_response, recorded_item, group_mock}

recorded_item-response :
    (q : RecordedRequest) → item_response (recorded_item q) ≡ recorded_response q
unfolding item_response
recorded_item-response q = refl

length-items : (recs : List RecordedRequest) → length (map recorded_item recs) ≡ length recs
length-items [] = refl
length-items (q ∷ recs) = ap suc (length-items recs)

items-get :
    (recs : List RecordedRequest) (i : ℕ) (item : ResponseItem)
    → get_elem? (map recorded_item recs) i ≡ some item
    → (q : RecordedRequest) × (get_elem? recs i ≡ some q) × (item ≡ recorded_item q)
items-get [] i item h = absurd (cc h)
items-get (q ∷ recs) zero item h = (q, refl, cc)
items-get (q ∷ recs) (suc i) item h = items-get recs i item h

-- After any calls since the mocks were loaded, the mock of a group answers with the status, the
-- headers and the body of a recording: the one whose place is the number of earlier calls of mocks
-- of its name, modulo the number of recordings.
pub group_mock-replays :
    (key : String) (first : RecordedRequest) (recs : List RecordedRequest) (before : List Mock)
    → (q : RecordedRequest) × (get_elem?
          (first ∷ recs)
          (times (group_mock key first recs).name before % length (first ∷ recs))
        ≡ some q)
      × ((get_sequential_response (group_mock key first recs) (serve before [])).0
          ≡ ok (recorded_response q))
unfolding group_mock get_sequential_response sequential item_response
group_mock-replays key first [] before =
    let n : ℕ = times ("Recorded: " <> key) before in
    let zeroth : n % 1 ≡ 0 = omega arith in (first, ap (get_elem? (first ∷ [])) zeroth, refl)
group_mock-replays key first (second ∷ recs) before =
    let mock = group_mock key first (second ∷ recs) in
    let (item, found, answered) =
      get_sequential_response-turn mock (recorded_item first) (map recorded_item (second ∷ recs))
        before refl in
    let n : ℕ = times mock.name before in
    let (q, at, same) = items-get (first ∷ second ∷ recs) _ item found in
    (
      q,
      subst (λ len. get_elem? (first ∷ second ∷ recs) (n % len) ≡ some q)
          (length-items (first ∷ second ∷ recs)) at,
      answered ∙ ap (λ i. ok (item_response i)) same,
    )
