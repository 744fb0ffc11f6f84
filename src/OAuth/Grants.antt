-- ===== src/OAuth/Grants.antt =====
-- The token endpoint. A handler may take the lock several times; the request is one step here, and
-- looking a code up and deleting it happen under one lock in the source.
use pmp_mock_http.Prelude.{
  ℕ, ◌+◌, String, ◌<>◌, Bool, not, ◌&&◌, ◌||◌, Option, none, some, [], ◌∷◌, Dict, get, insert,
  delete, ltb, ◌==◌, if◌then◌else◌,
}
use pmp_mock_http.Http.{Header, HttpRequest, first_value}
use pmp_mock_http.OAuth.Types.{
  AuthorizationCode, TokenInfo, Reply, http_error, json_error, OAuthExternals, Draws,
}
use pmp_mock_http.OAuth.Provider.{
  Provider, validate_client, validate_pkce, generate_access_token, send_token_response,
}

-- The credentials in a form.
abbrev pub authenticated : Provider → Header → Bool
authenticated p form =
    validate_client p (first_value form "client_id") (first_value form "client_secret")

-- The iteration order of the map of tokens, which Go leaves open.
abbrev pub RangeOrder : Type 0
RangeOrder = Dict TokenInfo → Dict TokenInfo

-- The loop of the refresh grant.
unfoldable pub find_token : Dict TokenInfo → String → String → Option TokenInfo
find_token [] refresh_token client_id = none
find_token ((key, info) ∷ tokens) refresh_token client_id =
    let rest = find_token tokens refresh_token client_id in
    if info.refresh_token == refresh_token && info.client_id == client_id then some info else rest

module _ {Url : Type 0} (x : OAuthExternals Url) (order : RangeOrder) where
  -- Generating an access token, storing its info, and sending the response.
  unfoldable pub issue : Provider → ℕ → String → String → String → String → Reply × Provider
  issue p now client_id refresh_token scope user_id =
      let access_token = generate_access_token x p now client_id scope user_id in
      (
        send_token_response x p now access_token refresh_token scope user_id,
        record p {
          tokens = insert p.tokens access_token (record {
            access_token = access_token;
            refresh_token = refresh_token;
            expires_at = now + p.token_expiry;
            scope = scope;
            client_id = client_id;
            user_id = user_id;
          });
        },
      )

  -- The tests of a code that was found, which is deleted by then.
  unfoldable pub redeem : Provider → ℕ → Draws → Header → AuthorizationCode → Reply × Provider
  unfolding issue
  redeem p now draws form auth_code =
      if ltb auth_code.expires_at now
      then (json_error "invalid_grant" 400, p)
      else if not (auth_code.code_challenge == "")
          && not (
              validate_pkce (first_value form "code_verifier") auth_code.code_challenge
                auth_code.code_challenge_method)
      then (json_error "invalid_grant" 400, p)
      else if not (auth_code.redirect_uri == first_value form "redirect_uri")
      then (json_error "invalid_grant" 400, p)
      else issue p now (first_value form "client_id") draws.refresh_token auth_code.scope
          auth_code.user_id

  unfoldable pub redeem_code :
      Provider → ℕ → Draws → Header → Option AuthorizationCode → Reply × Provider
  redeem_code p now draws form none = (json_error "invalid_grant" 400, p)
  redeem_code p now draws form (some auth_code) =
      redeem (record p { auth_codes = delete p.auth_codes (first_value form "code") }) now draws
        form auth_code

  unfoldable pub authorization_code_grant : Provider → ℕ → Draws → Header → Reply × Provider
  authorization_code_grant p now draws form =
      if authenticated p form
      then redeem_code p now draws form (get p.auth_codes (first_value form "code"))
      else (json_error "invalid_client" 401, p)

  unfoldable pub client_credentials_grant : Provider → ℕ → Header → Reply × Provider
  unfolding issue
  client_credentials_grant p now form =
      if authenticated p form
      then issue p now (first_value form "client_id") "" (first_value form "scope") ""
      else (json_error "invalid_client" 401, p)

  unfoldable pub refresh_found : Provider → ℕ → Header → Option TokenInfo → Reply × Provider
  unfolding issue
  refresh_found p now form none = (json_error "invalid_grant" 400, p)
  refresh_found p now form (some info) =
      issue p now (first_value form "client_id") (first_value form "refresh_token") info.scope
        info.user_id

  unfoldable pub refresh_token_grant : Provider → ℕ → Header → Reply × Provider
  refresh_token_grant p now form =
      if authenticated p form
      then refresh_found p now form (
          find_token (order p.tokens) (first_value form "refresh_token")
            (first_value form "client_id"))
      else (json_error "invalid_client" 401, p)

  unfoldable pub password_grant : Provider → ℕ → Draws → Header → Reply × Provider
  unfolding issue
  password_grant p now draws form =
      let username = first_value form "username" in
      if authenticated p form
      then (if (username == "") || (first_value form "password" == "")
          then (json_error "invalid_grant" 400, p)
          else issue p now (first_value form "client_id") draws.refresh_token
              (first_value form "scope") ("user-" <> username))
      else (json_error "invalid_client" 401, p)

  unfoldable pub grant : Provider → ℕ → Draws → Header → String → Reply × Provider
  grant p now draws form grant_type =
      if grant_type == "authorization_code"
      then authorization_code_grant p now draws form
      else if grant_type == "client_credentials"
      then client_credentials_grant p now form
      else if grant_type == "refresh_token"
      then refresh_token_grant p now form
      else if grant_type == "password"
      then password_grant p now draws form
      else (json_error "unsupported_grant_type" 400, p)

  unfoldable pub parsed : Provider → ℕ → Draws → Option Header → Reply × Provider
  parsed p now draws none = (http_error "invalid_request" 400, p)
  parsed p now draws (some form) = grant p now draws form (first_value form "grant_type")

  unfoldable pub handle_token : Provider → ℕ → Draws → HttpRequest → Reply × Provider
  handle_token p now draws r =
      if r.method == "POST"
      then parsed p now draws r.form
      else (http_error "method_not_allowed" 405, p)
