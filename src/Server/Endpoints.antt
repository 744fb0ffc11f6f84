-- ===== src/Server/Endpoints.antt =====
-- The scenario endpoints together.
use pmp_mock_http.Prelude.{
  String, ◌==◌, if◌then◌else◌, ◌≡◌, refl, ap, ==_of_eq, Bool-cases, inl, inr, eq_iff,
}
use pmp_mock_http.Http.{HttpRequest}
use pmp_mock_http.Matcher.Search.{Matcher, set_scenario}
use pmp_mock_http.Server.Types.{ServerExternals}
use pmp_mock_http.Server.Scenarios.{
  active, handle_scenario_active, requested_scenario, handle_scenario_set,
}

-- "all" is kept as "", and "" is shown as "all".
shown_of_kept :
    (asked : String)
    → (if (if asked == "all" then "" else asked) == ""
        then "all"
        else if asked == "all"
        then ""
        else asked)
      ≡ (if asked == "" then "all" else asked)
shown_of_kept asked = elim (Bool-cases (asked == "all")) [
  | inl all ↦ rw all (rw ((eq_iff asked "all").0 all) refl)
  | inr other ↦ rw other refl
]

-- After a POST to the set endpoint a GET of the active endpoint shows the scenario asked for, in
-- the query or else in the body, or "all" if that is empty.
scenario_set-active :
    {VM : Type 0} (y : ServerExternals) (m : Matcher VM) (r r' : HttpRequest)
    → r.method ≡ "POST"
    → r'.method ≡ "GET"
    → handle_scenario_active r' (handle_scenario_set y r m).1
      ≡ active (if requested_scenario y r == "" then "all" else requested_scenario y r)
unfolding handle_scenario_active handle_scenario_set set_scenario
scenario_set-active y m r r' post get =
    rw (==_of_eq r.method "POST" post)
      (rw (==_of_eq r'.method "GET" get) (ap active (shown_of_kept (requested_scenario y r))))
