-- ===== src/Matcher/Available.antt =====
-- `GetAvailableScenarios` lists what the mocks name, once each.
use pmp_mock_http.Prelude.{
  String, Bool, false, not, ◌&&◌, ◌||◌, List, [], ◌∷◌, any, ◌==◌, ◌≡◌, arith, eq_iff,
}
use pmp_mock_http.Models.{Mock}
use pmp_mock_http.Matcher.Scenario.{add_scenario, add_scenarios, collect, available_scenarios}

-- Whether a text is in a list.
abbrev pub has : List String → String → Bool
has xs s = any (λ t. t == s) xs

-- No element stands twice.
abbrev pub Distinct : List String → Type 0
Distinct [] = Unit
Distinct (s ∷ set) = (has set s ≡ false) × Distinct set

has_eq : (set : List String) (s t : String) → s ≡ t → has set s ≡ has set t
has_eq set s t e = rw e

has-add_scenario :
    (set : List String) (s t : String)
    → has (add_scenario set s) t ≡ (has set t || ((s == t) && not (t == "")))
unfolding add_scenario
has-add_scenario set s t = ground (arith, eq_iff s "", eq_iff t "", eq_iff s t, has_eq set s t)

Distinct-add_scenario :
    (set : List String) (s : String) → Distinct set → Distinct (add_scenario set s)
unfolding add_scenario
Distinct-add_scenario set s d = ground arith

has-add_scenarios :
    (set new : List String) (t : String)
    → has (add_scenarios set new) t ≡ (has set t || (has new t && not (t == "")))
unfolding add_scenarios
has-add_scenarios set [] t = ground arith
has-add_scenarios set (s ∷ new) t =
    ground (arith, has-add_scenarios (add_scenario set s) new t, has-add_scenario set s t)

Distinct-add_scenarios : (set new : List String) → Distinct set → Distinct (add_scenarios set new)
unfolding add_scenarios
Distinct-add_scenarios set [] d = d
Distinct-add_scenarios set (s ∷ new) d =
    Distinct-add_scenarios (add_scenario set s) new (Distinct-add_scenario set s d)

has-collect :
    (set : List String) (mocks : List Mock) (t : String)
    → has (collect set mocks) t
      ≡ (has set t || (any (λ (m : Mock). has m.scenarios t) mocks && not (t == "")))
unfolding collect
has-collect set [] t = ground arith
has-collect set (m ∷ mocks) t = ground (
  arith,
  has-collect (add_scenarios set m.scenarios) mocks t,
  has-add_scenarios set m.scenarios t,
)

Distinct-collect :
    (set : List String) (mocks : List Mock) → Distinct set → Distinct (collect set mocks)
unfolding collect
Distinct-collect set [] d = d
Distinct-collect set (m ∷ mocks) d =
    Distinct-collect (add_scenarios set m.scenarios) mocks
      (Distinct-add_scenarios set m.scenarios d)

-- A scenario is listed exactly if some mock names it and it is not "", and no scenario is listed
-- twice.
pub available_scenarios-exact :
    (mocks : List Mock) (t : String)
    → (has (available_scenarios mocks) t
        ≡ (any (λ (m : Mock). has m.scenarios t) mocks && not (t == "")))
      × Distinct (available_scenarios mocks)
unfolding available_scenarios
available_scenarios-exact mocks t = (has-collect [] mocks t, Distinct-collect [] mocks tt)
