-- ===== src/Matcher/Best.antt =====
-- `FindMatch` returns the best mock that meets the request's criteria.
use mathlib.Core.List.{Permᴰ}
use pmp_mock_http.Prelude.{
  ℕ, ℤ, ◌≤ℤ◌, String, true, some, List, [], ◌∷◌, Dict, ◌≡◌, ◌≢◌, ◌⊎◌, inl, inr, refl, subst, All,
  Any, arith, eq_iff,
}
use pmp_mock_http.Models.{Mock, Response}
use pmp_mock_http.Http.{HttpRequest, Result, ok, err, panicked}
use pmp_mock_http.Externals.{Externals}
use pmp_mock_http.Matcher.Criteria.{matches}
use pmp_mock_http.Matcher.Accepts.{Meets, matches_iff}
use pmp_mock_http.Matcher.Sequence.{get_sequential_response}
use pmp_mock_http.Matcher.Scenario.{belongs_to_scenario}
use pmp_mock_http.Matcher.Search.{
  Matcher, SortSlice, Attempt, skipped, chosen, with_response, respond, scripted, attempt,
  find_from, find_match,
}

-- No mock stands behind one of lower priority.
abbrev pub Descending : List Mock → Type 0
Descending [] = Unit
Descending (m ∷ ms) = All (λ (p : Mock). p.priority ≤ℤ m.priority) ms × Descending ms

-- What sort.Slice promises of a sort by falling priority.
pub record IsSort (sort_slice : SortSlice) : Type 0 where
  pub permutes : (ms : List Mock) → Permᴰ (sort_slice ms) ms
  pub descends : (ms : List Mock) → Descending (sort_slice ms)

module _ (P : Mock → Type 0) where
  pub All-Permᴰ : {xs ys : List Mock} → Permᴰ xs ys → All P xs → All P ys
  All-Permᴰ Permᴰ.nil h = h
  All-Permᴰ (Permᴰ.cons e p) (h, hs) = (subst P e h, All-Permᴰ p hs)
  All-Permᴰ (Permᴰ.swap e f) (h, (k, hs)) = (subst P f k, (subst P e h, hs))
  All-Permᴰ (Permᴰ.trans p q) h = All-Permᴰ q (All-Permᴰ p h)

  Any-Permᴰ : {xs ys : List Mock} → Permᴰ xs ys → Any P xs → Any P ys
  Any-Permᴰ Permᴰ.nil h = h
  Any-Permᴰ (Permᴰ.cons e p) (inl h) = inl (subst P e h)
  Any-Permᴰ (Permᴰ.cons e p) (inr h) = inr (Any-Permᴰ p h)
  Any-Permᴰ (Permᴰ.swap e f) (inl h) = inr (inl (subst P e h))
  Any-Permᴰ (Permᴰ.swap e f) (inr (inl h)) = inl (subst P f h)
  Any-Permᴰ (Permᴰ.swap e f) (inr (inr h)) = inr (inr h)
  Any-Permᴰ (Permᴰ.trans p q) h = Any-Permᴰ q (Any-Permᴰ p h)

with_response-eq-ok :
    (mock : Mock) (response : Result Response) (out : Mock)
    → with_response mock response ≡ ok out
    → out ≡ record mock { response = out.response }
with_response-eq-ok mock (ok s) out e = cc
with_response-eq-ok mock (err s) out e = cc
with_response-eq-ok mock panicked out e = cc

module _ {VM : Type 0} (x : Externals VM) (r : HttpRequest) (body scenario : String) where
  -- A mock without a script that is in the scenario and meets the request.
  pub record IsCandidate (p : Mock) : Type 0 where
    pub plain : p.request.java_script ≡ ""
    pub belongs : belongs_to_scenario p scenario ≡ true
    pub meets : Meets x r body p

  -- What is known of the mock that the search stopped at.
  pub record IsAnswer (mock out : Mock) : Type 0 where
    pub belongs : belongs_to_scenario mock scenario ≡ true
    pub copied : out ≡ record mock { response = out.response }
    pub meets : mock.request.java_script ≡ "" → Meets x r body mock

  pub attempt_candidate :
      (p : Mock) (vm vm' : VM) (counts : Dict ℕ)
      → IsCandidate p
      → attempt x r body scenario p vm counts ≢ skipped vm'
  unfolding attempt respond
  attempt_candidate p vm vm' counts c e =
      ground (arith, eq_iff p.request.java_script "", (matches_iff x r body p).1 c.meets)

  module _ (mock out : Mock) (vm vm' : VM) (counts counts' : Dict ℕ)
      (e : attempt x r body scenario mock vm counts ≡ chosen (ok out) vm' counts') where
    attempt_belongs : belongs_to_scenario mock scenario ≡ true
    unfolding attempt
    attempt_belongs = ground arith

    attempt_copied : out ≡ record mock { response = out.response }
    unfolding attempt scripted respond
    attempt_copied =
        ground (arith, with_response-eq-ok mock (get_sequential_response mock counts).0 out)

    attempt_matches : mock.request.java_script ≡ "" → matches x r body mock ≡ true
    unfolding attempt
    attempt_matches plain = ground (arith, eq_iff mock.request.java_script "")

    attempt_answer : IsAnswer mock out
    attempt_answer = record {
      belongs = attempt_belongs;
      copied = attempt_copied;
      meets = λ plain. (matches_iff x r body mock).0 (attempt_matches plain);
    }

  -- The answer, and that every candidate of the list has at most its priority.
  pub record IsBest (mocks : List Mock) (out : Mock) : Type 0 where
    pub mock : Mock
    pub listed : Any (λ q. q ≡ mock) mocks
    pub answer : IsAnswer mock out
    pub highest : All (λ p. IsCandidate p → p.priority ≤ℤ mock.priority) mocks

  All-weaken :
      (k : ℤ) (ms : List Mock)
      → All (λ p. p.priority ≤ℤ k) ms
      → All (λ p. IsCandidate p → p.priority ≤ℤ k) ms
  All-weaken k [] h = tt
  All-weaken k (m ∷ ms) (h, hs) = ((λ c. h), All-weaken k ms hs)

  IsBest-skip :
      {mock out : Mock} {ms : List Mock} (vm vm' : VM) (counts : Dict ℕ)
      → attempt x r body scenario mock vm counts ≡ skipped vm'
      → IsBest ms out
      → IsBest (mock ∷ ms) out
  IsBest-skip vm vm' counts e b = record {
    mock = b.mock;
    listed = inr b.listed;
    answer = b.answer;
    highest = ((λ c. absurd (attempt_candidate _ vm vm' counts c e)), b.highest);
  }

  pub Attempt-cases :
      (a : Attempt VM)
      → ((vm : VM) × (a ≡ skipped vm))
        ⊎ ((s : Result Mock) × (vm : VM) × (counts : Dict ℕ) × (a ≡ chosen s vm counts))
  Attempt-cases (skipped vm) = inl (vm, refl)
  Attempt-cases (chosen s vm counts) = inr (s, vm, counts, refl)

  pub find_from-chosen :
      (mock : Mock) (ms : List Mock) (vm vm1 : VM) (counts counts1 : Dict ℕ) (s : Result Mock)
      → attempt x r body scenario mock vm counts ≡ chosen s vm1 counts1
      → (find_from x r body scenario (mock ∷ ms) vm counts).0
        ≡ elim s [ ok m ↦ ok (some m) | err t ↦ err t | panicked ↦ panicked ]
  unfolding find_from
  find_from-chosen mock ms vm vm1 counts counts1 (ok m) e = rw (e, find_from)
  find_from-chosen mock ms vm vm1 counts counts1 (err t) e = rw (e, find_from)
  find_from-chosen mock ms vm vm1 counts counts1 panicked e = rw (e, find_from)

  pub find_from-skipped :
      (mock : Mock) (ms : List Mock) (vm vm1 : VM) (counts : Dict ℕ)
      → attempt x r body scenario mock vm counts ≡ skipped vm1
      → find_from x r body scenario (mock ∷ ms) vm counts
        ≡ find_from x r body scenario ms vm1 counts
  unfolding find_from
  find_from-skipped mock ms vm vm1 counts e = rw (e, find_from)

  find_from-IsBest :
      (ms : List Mock) (out : Mock) (vm : VM) (counts : Dict ℕ)
      → Descending ms
      → (find_from x r body scenario ms vm counts).0 ≡ ok (some out)
      → IsBest ms out
  find_from-IsBest [] out vm counts d e = unfold find_from in cc
  find_from-IsBest (mock ∷ ms) out vm counts (d, ds) e =
      elim (Attempt-cases (attempt x r body scenario mock vm counts)) [
        | inl (vm1, missed) ↦ IsBest-skip vm vm1 counts missed (
            find_from-IsBest ms out vm1 counts ds
              (rw (find_from-skipped mock ms vm vm1 counts missed) at e))
        | inr (ok found, vm1, counts1, stopped) ↦
            let same : found ≡ out =
              cc (find_from-chosen mock ms vm vm1 counts counts1 (ok found) stopped) in
            record {
              mock = mock;
              listed = inl refl;
              answer = attempt_answer mock out vm vm1 counts counts1 (rw (← same) stopped);
              highest = ((λ c. omega arith), All-weaken mock.priority ms d);
            }
        | inr (err s, vm1, counts1, stopped) ↦
            cc (find_from-chosen mock ms vm vm1 counts counts1 (err s) stopped)
        | inr (panicked, vm1, counts1, stopped) ↦
            cc (find_from-chosen mock ms vm vm1 counts counts1 panicked stopped)
      ]

  IsBest-Permᴰ :
      {ms given : List Mock} {out : Mock} → Permᴰ ms given → IsBest ms out → IsBest given out
  IsBest-Permᴰ p b = record {
    mock = b.mock;
    listed = Any-Permᴰ _ p b.listed;
    answer = b.answer;
    highest = All-Permᴰ _ p b.highest;
  }

module _ {VM : Type 0} (x : Externals VM) where
  pub find_match-found :
      (m : Matcher VM) (r : HttpRequest) (body : String)
      → r.body ≡ some body
      → (find_match x m r).0
        ≡ (find_from x r body m.active_scenario m.mocks m.global_vm m.call_counts).0
  unfolding find_match
  find_match-found m r body e = ground arith

  -- When FindMatch returns a mock, it is a copy of one of the given mocks with its response
  -- replaced: one that belongs to the active scenario and, if it has no script, meets the request;
  -- and no other given mock without a script that belongs to the scenario and meets the request has
  -- a higher priority. The matcher holds the given mocks as sort.Slice left them, in any state of
  -- its scripts, its counts and its scenario.
  pub find_match-IsBest :
      (sort_slice : SortSlice) (given : List Mock) (m : Matcher VM) (r : HttpRequest)
      (body : String) (out : Mock)
      → IsSort sort_slice
      → m.mocks ≡ sort_slice given
      → r.body ≡ some body
      → (find_match x m r).0 ≡ ok (some out)
      → IsBest x r body m.active_scenario given out
  find_match-IsBest sort_slice given m r body out sorts held read e =
      IsBest-Permᴰ x r body m.active_scenario (sorts.permutes given) (
        rw held at (
          find_from-IsBest x r body m.active_scenario m.mocks out m.global_vm m.call_counts
            (rw held (sorts.descends given)) (rw (find_match-found m r body read) at e)))
