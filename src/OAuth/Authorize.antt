-- ===== src/OAuth/Authorize.antt =====
-- The authorization endpoint.
use pmp_mock_http.Prelude.{
  ℕ, ◌+◌, ◌*◌, ◌/◌, String, ◌<>◌, decimal, Bool, Option, none, some, [], ◌∷◌, get, insert, any,
  ◌==◌, if◌then◌else◌,
}
use pmp_mock_http.Http.{Header, first_value}
use pmp_mock_http.OAuth.Types.{
  Client, AuthorizationCode, Reply, http_error, redirect, panics, OAuthExternals, Draws,
}
use pmp_mock_http.OAuth.Provider.{Provider, second, generate_access_token}

-- The registered URIs are compared with `==`.
abbrev pub valid_uri : Client → String → Bool
valid_uri client redirect_uri = any (λ uri. uri == redirect_uri) client.redirect_uris

-- A code holds for ten minutes.
unfoldable pub auth_code : ℕ → String → Header → AuthorizationCode
auth_code now code query = record {
  code = code;
  client_id = first_value query "client_id";
  redirect_uri = first_value query "redirect_uri";
  scope = first_value query "scope";
  code_challenge = first_value query "code_challenge";
  code_challenge_method = first_value query "code_challenge_method";
  expires_at = now + 10 * 60 * second;
  user_id = "mock-user-id";
}

-- `q.Set(key, value)`
abbrev set_value : Header → String → String → Header
set_value q key value = insert q key (value ∷ [])

module _ {Url : Type 0} (x : OAuthExternals Url) where
  -- The redirect with the code. A URI that does not parse gives a nil URL, and `Query` panics.
  code_redirect : Option Url → String → String → Reply
  code_redirect none code state = panics
  code_redirect (some url) code state =
      let q = set_value (x.url_query url) "code" code in
      redirect
        (x.url_text (x.set_raw_query url (if state == "" then q else set_value q "state" state)))

  token_redirect : Option Url → String → Reply
  token_redirect none fragment = panics
  token_redirect (some url) fragment = redirect (x.url_text (x.set_fragment url fragment))

  -- The fragment of the implicit flow.
  fragment : Provider → String → String → String → String
  fragment p access_token scope state =
      "access_token="
      <> access_token
      <> "&token_type=Bearer&expires_in="
      <> decimal (p.token_expiry / second)
      <> (if scope == "" then "" else "&scope=" <> x.query_escape scope)
      <> (if state == "" then "" else "&state=" <> x.query_escape state)

  -- The switch on the response type, for a valid client and URI.
  unfoldable pub respond_type : Provider → ℕ → Draws → Header → Reply × Provider
  unfolding code_redirect token_redirect fragment
  respond_type p now draws query =
      let redirect_uri = first_value query "redirect_uri" in
      let scope = first_value query "scope" in
      let state = first_value query "state" in
      if first_value query "response_type" == "code"
      then (
        code_redirect (x.parse_url redirect_uri) draws.code state,
        record p { auth_codes = insert p.auth_codes draws.code (auth_code now draws.code query) },
      )
      else if first_value query "response_type" == "token"
      then (
        token_redirect (x.parse_url redirect_uri) (
            fragment p
              (generate_access_token x p now (first_value query "client_id") scope "mock-user-id")
              scope state),
        p,
      )
      else (http_error "unsupported_response_type" 400, p)

  unfoldable pub authorize_client : Provider → ℕ → Draws → Header → Option Client → Reply × Provider
  authorize_client p now draws query none = (http_error "invalid_client" 400, p)
  authorize_client p now draws query (some client) =
      if valid_uri client (first_value query "redirect_uri")
      then respond_type p now draws query
      else (http_error "invalid_redirect_uri" 400, p)

  unfoldable pub handle_authorize : Provider → ℕ → Draws → Header → Reply × Provider
  handle_authorize p now draws query =
      authorize_client p now draws query (get p.clients (first_value query "client_id"))
