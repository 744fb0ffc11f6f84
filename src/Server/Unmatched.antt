-- ===== src/Server/Unmatched.antt =====
-- What the server answers where no mock is a candidate.
use pmp_mock_http.Prelude.{
  ℕ, pos, String, false, Option, none, some, List, [], ◌∷◌, All, ◌≡◌, refl, ap, ◌∙◌,
}
use pmp_mock_http.Models.{Mock}
use pmp_mock_http.Http.{HttpRequest, Result, ok}
use pmp_mock_http.Externals.{Externals}
use pmp_mock_http.Matcher.Search.{Matcher, SortSlice, find_match}
use pmp_mock_http.Matcher.Best.{IsSort, IsCandidate}
use pmp_mock_http.Matcher.Missing.{find_match-none_iff}
use pmp_mock_http.Server.Types.{Server, counts, match_failure, http_error, Rolls, ServerExternals}
use pmp_mock_http.Server.Answer.{is_preflight, base_headers, shown_body, entry, logged}
use pmp_mock_http.Server.Request.{handle_request, read_request, answered, unmatched}

module _ {VM : Type 0} (y : ServerExternals) (x : Externals VM) where
  no_match-unmatched :
      (now : ℕ) (rolls : Rolls) (r : HttpRequest) (body : String) (s : Server VM)
      → is_preflight s.cors_config r.method ≡ false
      → r.body ≡ some body
      → find_match x s.matcher r ≡ (ok none, s.matcher)
      → handle_request y x now rolls r s ≡ unmatched y now r body s
  unfolding handle_request read_request answered
  no_match-unmatched now rolls r body s request read missed = rw request (
      ap (λ o. read_request y x now rolls r o s) read
      ∙ ap
          (λ (f : Result (Option Mock) × Matcher VM).
            answered y now rolls r body (base_headers s.cors_config) f.0
              (record s { matcher = f.1 }))
          missed)

  -- For mocks of which none has a script, as the matcher sorted them, a server without a proxy
  -- answers a request that is no preflight, whose body can be read, and for which no mock is a
  -- candidate in the active scenario, with 404 and logs it as unmatched; nothing else of the server
  -- changes.
  pub handle_request-not_found :
      (now : ℕ) (rolls : Rolls) (r : HttpRequest) (body : String) (s : Server VM)
      (sort_slice : SortSlice) (given : List Mock)
      → IsSort sort_slice
      → s.matcher.mocks ≡ sort_slice given
      → s.proxied ≡ false
      → is_preflight s.cors_config r.method ≡ false
      → r.body ≡ some body
      → All (λ p. p.request.java_script ≡ "") given
      → All (λ p. ¬ IsCandidate x r body s.matcher.active_scenario p) given
      → handle_request y x now rolls r s ≡ (
        counts match_failure ∷ http_error "404 page not found" (pos 404) ∷ [],
        record s {
          tracker =
              logged s.tracker now
                (entry r (shown_body body) false "" none (pos 404) "404 page not found");
        },
      )
  unfolding unmatched
  handle_request-not_found now rolls r body s sort_slice given sorts held direct request read plain
        none_fits =
      let missed =
        (find_match-none_iff x sort_slice given s.matcher r body sorts held read plain).1
          none_fits in
      no_match-unmatched now rolls r body s request read missed ∙ rw direct refl
