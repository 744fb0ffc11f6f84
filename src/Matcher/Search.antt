-- ===== src/Matcher/Search.antt =====
-- The matcher, and `FindMatch`.
use pmp_mock_http.Prelude.{ℕ, String, Option, none, some, List, [], ◌∷◌, Dict, ◌==◌, if◌then◌else◌}
use pmp_mock_http.Models.{Mock, Response}
use pmp_mock_http.Http.{HttpRequest, Result, ok, err, panicked}
use pmp_mock_http.Externals.{Externals}
use pmp_mock_http.Matcher.Criteria.{matches}
use pmp_mock_http.Matcher.Script.{evaluate_java_script}
use pmp_mock_http.Matcher.Sequence.{get_sequential_response}
use pmp_mock_http.Matcher.Scenario.{belongs_to_scenario}

pub record Matcher (VM : Type 0) : Type 0 where
  pub mocks : List Mock
  pub global_vm : VM
  pub call_counts : Dict ℕ
  pub active_scenario : String

-- sort.Slice by priority, the highest first: a parameter, since the order of equal priorities is
-- not specified.
abbrev pub SortSlice : Type 0
SortSlice = List Mock → List Mock

-- `global_vm` is the new runtime with its object `global`.
unfoldable pub new_matcher : {VM : Type 0} → SortSlice → VM → List Mock → Matcher VM
new_matcher sort_slice global_vm mocks = record {
  mocks = sort_slice mocks;
  global_vm = global_vm;
  call_counts = [];
  active_scenario = "";
}

unfoldable pub update_mocks : {VM : Type 0} → SortSlice → Matcher VM → List Mock → Matcher VM
update_mocks sort_slice m mocks = record m { mocks = sort_slice mocks; call_counts = [] }

unfoldable pub set_scenario : {VM : Type 0} → Matcher VM → String → Matcher VM
set_scenario m scenario = record m { active_scenario = scenario }

-- What one round of the loop of `FindMatch` does.
pub data Attempt (VM : Type 0) : Type 0 where
  skipped : VM → Attempt VM
  chosen : Result Mock → VM → Dict ℕ → Attempt VM

-- The matched mock is a copy with its response replaced.
abbrev pub with_response : Mock → Result Response → Result Mock
with_response mock (ok r) = ok (record mock { response = r })
with_response mock (err e) = err e
with_response mock panicked = panicked

module _ {VM : Type 0} (x : Externals VM) where
  unfoldable pub respond : Mock → VM → Dict ℕ → Attempt VM
  respond mock vm counts =
      let (response, counts') = get_sequential_response mock counts in
      chosen (with_response mock response) vm counts'

  unfoldable pub scripted : HttpRequest → String → Mock → VM → Dict ℕ → Attempt VM
  unfolding respond
  scripted r body mock vm counts =
      let ((matched, custom), vm') = evaluate_java_script x r body mock.request.java_script vm in
      if matched
      then elim custom [
        | none ↦ respond mock vm' counts
        | some response ↦ chosen (ok (record mock { response = response })) vm' counts
      ]
      else skipped vm'

  unfoldable pub attempt : HttpRequest → String → String → Mock → VM → Dict ℕ → Attempt VM
  unfolding scripted respond
  attempt r body scenario mock vm counts =
      if belongs_to_scenario mock scenario
      then if mock.request.java_script == ""
        then if matches x r body mock then respond mock vm counts else skipped vm
        else scripted r body mock vm counts
      else skipped vm

  -- The loop of `FindMatch`.
  unfoldable pub find_from :
      HttpRequest → String → String → List Mock → VM → Dict ℕ → Result (Option Mock) × VM × Dict ℕ
  find_from r body scenario [] vm counts = (ok none, vm, counts)
  find_from r body scenario (mock ∷ rest) vm counts =
      elim (attempt r body scenario mock vm counts) [
        | skipped vm' ↦ find_from r body scenario rest vm' counts
        | chosen (ok found) vm' counts' ↦ (ok (some found), vm', counts')
        | chosen (err e) vm' counts' ↦ (err e, vm', counts')
        | chosen panicked vm' counts' ↦ (panicked, vm', counts')
      ]

  unfoldable pub find_match : Matcher VM → HttpRequest → Result (Option Mock) × Matcher VM
  find_match m r = elim r.body [
    | none ↦ (err "read error", m)
    | some body ↦
        let (found, vm, counts) =
          find_from r body m.active_scenario m.mocks m.global_vm m.call_counts in
        (found, record m { global_vm = vm; call_counts = counts })
  ]
