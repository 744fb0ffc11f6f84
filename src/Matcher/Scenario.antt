-- ===== src/Matcher/Scenario.antt =====
-- `belongsToScenario` and `GetAvailableScenarios`.
use pmp_mock_http.Prelude.{String, Bool, true, List, [], ◌∷◌, any, ◌==◌, if◌then◌else◌}
use pmp_mock_http.Models.{Mock}

unfoldable pub belongs_to_scenario : Mock → String → Bool
belongs_to_scenario mock scenario =
    if scenario == ""
    then true
    else elim mock.scenarios [ [] ↦ true | s ∷ rest ↦ any (λ t. t == scenario) (s ∷ rest) ]

unfoldable pub add_scenario : List String → String → List String
add_scenario set s = if s == "" then set else if any (λ t. t == s) set then set else s ∷ set

-- `scenarioSet[scenario] = true` for each scenario but "". The set's keys come out in no order.
unfoldable pub add_scenarios : List String → List String → List String
add_scenarios set [] = set
add_scenarios set (s ∷ rest) = add_scenarios (add_scenario set s) rest

unfoldable pub collect : List String → List Mock → List String
unfolding add_scenarios
collect set [] = set
collect set (mock ∷ mocks) = collect (add_scenarios set mock.scenarios) mocks

unfoldable pub available_scenarios : List Mock → List String
unfolding collect
available_scenarios mocks = collect [] mocks
