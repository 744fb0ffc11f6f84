-- ===== src/Server/Scenarios.antt =====
-- The endpoints that control the active scenario.
use pmp_mock_http.Prelude.{
  ℕ, String, ◌<>◌, Option, none, some, List, get, length, ◌==◌, if◌then◌else◌,
}
use pmp_mock_http.Http.{HttpRequest, first_value}
use pmp_mock_http.Matcher.Search.{Matcher, set_scenario}
use pmp_mock_http.Matcher.Scenario.{available_scenarios}
use pmp_mock_http.Server.Types.{ServerExternals}

pub data ScenarioReply : Type 0 where
  method_not_allowed : ScenarioReply
  scenarios : List String → ℕ → ScenarioReply
  active : String → ScenarioReply
  activated : String → String → ScenarioReply

-- `GetAvailableScenarios` of the matcher.
unfoldable pub handle_scenario_list : {VM : Type 0} → HttpRequest → Matcher VM → ScenarioReply
handle_scenario_list r m =
    let names = available_scenarios m.mocks in
    if r.method == "GET" then scenarios names (length names) else method_not_allowed

-- `GetActiveScenario` of the matcher, where no scenario is shown as "all".
unfoldable pub handle_scenario_active : {VM : Type 0} → HttpRequest → Matcher VM → ScenarioReply
handle_scenario_active r m =
    if r.method == "GET"
    then active (if m.active_scenario == "" then "all" else m.active_scenario)
    else method_not_allowed

or_empty : Option String → String
or_empty none = ""
or_empty (some s) = s

module _ (y : ServerExternals) where
  -- The scenario in the body, "" if the body cannot be read or decoded.
  unfoldable pub body_scenario : Option String → String
  unfolding or_empty
  body_scenario none = ""
  body_scenario (some body) = elim (y.decode_strings body) [
    | none ↦ ""
    | some entries ↦ or_empty (get entries "scenario")
  ]

  -- The scenario that a request asks for: its query parameter, or else its body.
  unfoldable pub requested_scenario : HttpRequest → String
  unfolding body_scenario first_value
  requested_scenario r =
      let scenario = first_value r.query "scenario" in
      if scenario == "" then body_scenario r.body else scenario

  unfoldable pub handle_scenario_set :
      {VM : Type 0} → HttpRequest → Matcher VM → ScenarioReply × Matcher VM
  unfolding requested_scenario set_scenario
  handle_scenario_set r m =
      let asked = requested_scenario r in
      let scenario = if asked == "all" then "" else asked in
      if r.method == "POST"
      then (activated scenario ("Active scenario set to: " <> scenario), set_scenario m scenario)
      else (method_not_allowed, m)
