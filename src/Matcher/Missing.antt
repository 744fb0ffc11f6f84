-- ===== src/Matcher/Missing.antt =====
-- When `FindMatch` finds nothing.
use pmp_mock_http.Prelude.{
  ℕ, suc, ◌<◌, String, Option, none, some, List, [], ◌∷◌, Dict, length, ◌≡◌, ◌↔◌, inl, inr, refl,
  sym, ap, ◌∙◌, Bool-cases, All, arith, eq_iff, get_elem?-total,
}
use mathlib.Core.List.Permᴰ
use pmp_mock_http.Models.{Mock, Response, ResponseItem}
use pmp_mock_http.Http.{HttpRequest, Result, ok, err, panicked}
use pmp_mock_http.Externals.{Externals}
use pmp_mock_http.Matcher.Criteria.{matches}
use pmp_mock_http.Matcher.Accepts.{matches_iff}
use pmp_mock_http.Matcher.Sequence.{
  response_index, item_response, item_at, sequential, get_sequential_response, call_count,
}
use pmp_mock_http.Matcher.Scenario.{belongs_to_scenario}
use pmp_mock_http.Matcher.Search.{
  Matcher, SortSlice, skipped, chosen, respond, scripted, attempt, find_from, find_match,
}
use pmp_mock_http.Matcher.Best.{
  IsSort, IsCandidate, All-Permᴰ, Attempt-cases, find_from-chosen, find_from-skipped,
  find_match-found, attempt_candidate,
}

response_index-lt : (mode : String) (len n : ℕ) → response_index mode (suc len) n < suc len
unfolding response_index
response_index-lt mode len n = ground arith

item_at-ok :
    (items : List ResponseItem) (i : ℕ)
    → i < length items
    → (s : Response) × (item_at items i ≡ ok s)
unfolding item_at
item_at-ok items i h =
    let (item, found, _) = get_elem?-total items i h in (item_response item, rw (found, item_at))

-- The index into a sequence is always in range.
sequential-ok :
    (mock : Mock) (items : List ResponseItem) (counts : Dict ℕ)
    → (s : Response) × ((sequential mock items counts).0 ≡ ok s)
unfolding sequential
sequential-ok mock [] counts = (mock.response, refl)
sequential-ok mock (item ∷ items) counts =
    item_at-ok (item ∷ items) _
      (response_index-lt mock.response.sequence_mode (length items) (call_count counts mock.name))

get_sequential_response-ok :
    (mock : Mock) (counts : Dict ℕ)
    → (s : Response) × ((get_sequential_response mock counts).0 ≡ ok s)
unfolding get_sequential_response
get_sequential_response-ok mock counts = sequential-ok mock mock.response.sequence counts

module _ {VM : Type 0} (x : Externals VM) (r : HttpRequest) (body scenario : String) where
  -- An attempt that stops the search stops it with a mock.
  attempt-ok :
      (mock : Mock) (vm vm' : VM) (counts counts' : Dict ℕ) (s : Result Mock)
      → attempt x r body scenario mock vm counts ≡ chosen s vm' counts'
      → (m : Mock) × (s ≡ ok m)
  unfolding attempt scripted respond
  attempt-ok mock vm vm' counts counts' (ok m) e = (m, refl)
  attempt-ok mock vm vm' counts counts' (err t) e =
      absurd (ground (arith, (get_sequential_response-ok mock counts).1))
  attempt-ok mock vm vm' counts counts' panicked e =
      absurd (ground (arith, (get_sequential_response-ok mock counts).1))

  -- A list without scripts: the search ends with none exactly if no mock is a candidate, and then
  -- it leaves the scripts' state and the counts alone.
  find_from-none :
      (ms : List Mock) (vm : VM) (counts : Dict ℕ)
      → (find_from x r body scenario ms vm counts).0 ≡ ok none
      → All (λ p. ¬ IsCandidate x r body scenario p) ms
  find_from-none [] vm counts e = tt
  find_from-none (mock ∷ ms) vm counts e =
      elim (Attempt-cases x r body scenario (attempt x r body scenario mock vm counts)) [
        | inl (vm1, missed) ↦ (
          (λ c. attempt_candidate x r body scenario mock vm vm1 counts c missed),
          find_from-none ms vm1 counts
              (rw (find_from-skipped x r body scenario mock ms vm vm1 counts missed) at e),
        )
        | inr (s, vm1, counts1, stopped) ↦
            let (m, e') = attempt-ok mock vm vm1 counts counts1 s stopped in
            let found =
              find_from-chosen x r body scenario mock ms vm vm1 counts counts1 (ok m)
                (rw e' at stopped) in
            absurd (cc (found, e))
      ]

  skip_plain :
      (mock : Mock) (vm : VM) (counts : Dict ℕ)
      → mock.request.java_script ≡ ""
      → ¬ IsCandidate x r body scenario mock
      → attempt x r body scenario mock vm counts ≡ skipped vm
  unfolding attempt
  skip_plain mock vm counts plain h = elim (Bool-cases (belongs_to_scenario mock scenario)) [
    | inl belongs ↦ elim (Bool-cases (matches x r body mock)) [
      | inl yes_matches ↦ absurd (
          h (record {
            plain = plain;
            belongs = belongs;
            meets = (matches_iff x r body mock).0 yes_matches;
          }))
      | inr fails ↦ ground (arith, eq_iff mock.request.java_script "")
    ]
    | inr apart ↦ ground arith
  ]

  find_from-unchanged :
      (ms : List Mock) (vm : VM) (counts : Dict ℕ)
      → All (λ p. p.request.java_script ≡ "") ms
      → All (λ p. ¬ IsCandidate x r body scenario p) ms
      → find_from x r body scenario ms vm counts ≡ (ok none, vm, counts)
  find_from-unchanged [] vm counts plain h = unfold find_from in refl
  find_from-unchanged (mock ∷ ms) vm counts (plain, plains) (h, hs) =
      find_from-skipped x r body scenario mock ms vm vm counts (skip_plain mock vm counts plain h)
      ∙ find_from-unchanged ms vm counts plains hs

module _ {VM : Type 0} (x : Externals VM) where
  find_match-unchanged :
      (m : Matcher VM) (r : HttpRequest) (body : String)
      → r.body ≡ some body
      → find_from x r body m.active_scenario m.mocks m.global_vm m.call_counts
        ≡ (ok none, m.global_vm, m.call_counts)
      → find_match x m r ≡ (ok none, m)
  unfolding find_match
  find_match-unchanged m r body read e = ground arith

  -- Where no given mock has a script, FindMatch returns no mock, and leaves the matcher as it was,
  -- exactly if no given mock belongs to the active scenario and meets the request.
  pub find_match-none_iff :
      (sort_slice : SortSlice) (given : List Mock) (m : Matcher VM) (r : HttpRequest)
      (body : String)
      → IsSort sort_slice
      → m.mocks ≡ sort_slice given
      → r.body ≡ some body
      → All (λ p. p.request.java_script ≡ "") given
      → (find_match x m r ≡ (ok none, m))
        ↔ All (λ p. ¬ IsCandidate x r body m.active_scenario p) given
  find_match-none_iff sort_slice given m r body sorts held read plain = (
    λ e. All-Permᴰ _ (sorts.permutes given) (
        rw held at (
          find_from-none x r body m.active_scenario m.mocks m.global_vm m.call_counts (
            sym (find_match-found x m r body read)
            ∙ ap (λ (t : Result (Option Mock) × Matcher VM). t.0) e))),
    λ h. find_match-unchanged m r body read (
        find_from-unchanged x r body m.active_scenario m.mocks m.global_vm m.call_counts
          (rw held (All-Permᴰ _ (Permᴰ.symm (sorts.permutes given)) plain))
          (rw held (All-Permᴰ _ (Permᴰ.symm (sorts.permutes given)) h))),
  )
