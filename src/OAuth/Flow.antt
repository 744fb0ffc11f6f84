-- ===== src/OAuth/Flow.antt =====
-- The authorization code flow from end to end: authorize, exchange the code, ask for the user.
use pmp_mock_http.Prelude.{
  inl, inr, ℕ, ◌+◌, ◌*◌, ◌≤◌, String, ◌<>◌, trim_prefix-append, starts_with-append, true, some, get,
  insert, get-insert_self, ◌≡◌, refl, sym, ap, ◌∙◌, ◌⊎◌, arith, ==_of_eq,
}
use pmp_mock_http.Http.{Header, HttpRequest, first_value}
use pmp_mock_http.OAuth.Types.{
  Client, AuthorizationCode, TokenResponse, token_response, user_info, OAuthExternals, Draws,
}
use pmp_mock_http.OAuth.Provider.{
  Provider, second, validate_client, validate_pkce, generate_access_token, send_token_response,
}
use pmp_mock_http.OAuth.Authorize.{
  valid_uri, auth_code, respond_type, authorize_client, handle_authorize,
}
use pmp_mock_http.OAuth.Grants.{
  RangeOrder, issue, authorization_code_grant, grant, parsed, handle_token,
}
use pmp_mock_http.OAuth.Userinfo.{described, handle_user_info}
use pmp_mock_http.OAuth.Redeeming.{spent, Verifies, validate_pkce_iff, Redeemable, redeem-issues}

-- The provider once a code is stored.
abbrev pub with_code : Provider → ℕ → Draws → Header → Provider
with_code p now draws query = record p {
  auth_codes = insert p.auth_codes draws.code (auth_code now draws.code query);
}

module _ {Url : Type 0} (x : OAuthExternals Url) (order : RangeOrder) where
  authorize-code :
      (p : Provider) (now : ℕ) (draws : Draws) (query : Header) (client : Client)
      → get p.clients (first_value query "client_id") ≡ some client
      → valid_uri client (first_value query "redirect_uri") ≡ true
      → first_value query "response_type" ≡ "code"
      → (handle_authorize x p now draws query).1 ≡ with_code p now draws query
  unfolding handle_authorize authorize_client respond_type
  authorize-code p now draws query client known uri kind =
      rw (known, authorize_client) (rw uri (rw (==_of_eq _ "code" kind) refl))

  token-code :
      (p : Provider) (now : ℕ) (draws : Draws) (r : HttpRequest) (form : Header)
      → r.method ≡ "POST"
      → r.form ≡ some form
      → first_value form "grant_type" ≡ "authorization_code"
      → handle_token x order p now draws r ≡ authorization_code_grant x order p now draws form
  unfolding handle_token parsed grant
  token-code p now draws r form post read kind =
      rw (==_of_eq r.method "POST" post)
        (rw (read, parsed) (rw (==_of_eq _ "authorization_code" kind) refl))

  -- What was issued is accepted until it expires.
  pub issue-user :
      (p : Provider) (now later : ℕ) (client_id refresh_token scope user_id : String)
      → later ≤ now + p.token_expiry
      → (t : TokenResponse) × ((issue x order p now client_id refresh_token scope user_id).0
          ≡ token_response t)
        × (handle_user_info
              (issue x order p now client_id refresh_token scope user_id).1
              later
              ("Bearer " <> t.access_token)
            ≡ user_info
                (record { user_id = user_id; name = "Mock User"; email = "user@example.com" }))
  unfolding issue send_token_response handle_user_info described
  issue-user p now later client_id refresh_token scope user_id h =
      let token = generate_access_token x p now client_id scope user_id in
      (
        _,
        refl,
        rw (starts_with-append "Bearer " token) (
            rw (trim_prefix-append "Bearer " token) (
              rw
                (get-insert_self p.tokens token (record {
                  access_token = token;
                  refresh_token = refresh_token;
                  expires_at = now + p.token_expiry;
                  scope = scope;
                  client_id = client_id;
                  user_id = user_id;
                }))
                (ground arith))),
      )

  verified_of_pkce :
      (c : AuthorizationCode) (form : Header)
      → (c.code_challenge ≡ "")
        ⊎ (validate_pkce (first_value form "code_verifier") c.code_challenge c.code_challenge_method
            ≡ true)
      → (c.code_challenge ≡ "")
        ⊎ Verifies (first_value form "code_verifier") c.code_challenge c.code_challenge_method
  verified_of_pkce c form (inl none_given) = inl none_given
  verified_of_pkce c form (inr passed) = inr ((validate_pkce_iff _ _ _).0 passed)

  with_code-Redeemable :
      (p : Provider) (t0 t1 : ℕ) (draws : Draws) (query form : Header) (client : Client)
      → get p.clients (first_value query "client_id") ≡ some client
      → first_value form "client_id" ≡ first_value query "client_id"
      → first_value form "client_secret" ≡ client.client_secret
      → first_value form "code" ≡ draws.code
      → first_value form "redirect_uri" ≡ first_value query "redirect_uri"
      → (first_value query "code_challenge" ≡ "")
        ⊎ (validate_pkce
              (first_value form "code_verifier")
              (first_value query "code_challenge")
              (first_value query "code_challenge_method")
            ≡ true)
      → t1 ≤ t0 + 10 * 60 * second
      → Redeemable (with_code p t0 draws query) t1 form (auth_code t0 draws.code query)
  unfolding auth_code validate_client
  with_code-Redeemable p t0 t1 draws query form client known id secret code uri pkce in_time =
      record {
        credentials = (client, rw id known, sym secret);
        stored = rw code (get-insert_self p.auth_codes draws.code (auth_code t0 draws.code query));
        in_time = in_time;
        verified = verified_of_pkce (auth_code t0 draws.code query) form pkce;
        same_uri = sym uri;
      }

  -- A registered client that authorizes with one of its URIs and within ten minutes sends the code
  -- it was given, with its secret, the same URI and a verifier that meets its challenge if it made
  -- one, gets a token, and until that token expires userinfo answers it with the user who authorized.
  pub code_flow-user_info :
      (p : Provider) (t0 t1 t2 : ℕ) (draws draws' : Draws) (query form : Header) (client : Client)
      (r : HttpRequest)
      → get p.clients (first_value query "client_id") ≡ some client
      → valid_uri client (first_value query "redirect_uri") ≡ true
      → first_value query "response_type" ≡ "code"
      → r.method ≡ "POST"
      → r.form ≡ some form
      → first_value form "grant_type" ≡ "authorization_code"
      → first_value form "client_id" ≡ first_value query "client_id"
      → first_value form "client_secret" ≡ client.client_secret
      → first_value form "code" ≡ draws.code
      → first_value form "redirect_uri" ≡ first_value query "redirect_uri"
      → (first_value query "code_challenge" ≡ "")
        ⊎ (validate_pkce
              (first_value form "code_verifier")
              (first_value query "code_challenge")
              (first_value query "code_challenge_method")
            ≡ true)
      → t1 ≤ t0 + 10 * 60 * second
      → t2 ≤ t1 + p.token_expiry
      → (t : TokenResponse) × (p' : Provider) × (handle_token x order
            (handle_authorize x p t0 draws query).1
            t1
            draws'
            r
          ≡ (token_response t, p'))
        × (handle_user_info p' t2 ("Bearer " <> t.access_token)
            ≡ user_info (record {
              user_id = "mock-user-id";
              name = "Mock User";
              email = "user@example.com";
            }))
  unfolding issue auth_code
  code_flow-user_info p t0 t1 t2 draws draws' query form client r known uri kind post read grants id
        secret code same pkce in_time alive =
      let stored = authorize-code p t0 draws query client known uri kind in
      let q = with_code p t0 draws query in
      let c = auth_code t0 draws.code query in
      let redeemable =
        with_code-Redeemable p t0 t1 draws query form client known id secret code same pkce
          in_time in
      let (t, replied, accepted) =
        issue-user (spent q form) t1 t2 (first_value form "client_id") draws'.refresh_token c.scope
          "mock-user-id" alive in
      let answer =
        issue x order (spent q form) t1 (first_value form "client_id") draws'.refresh_token c.scope
          "mock-user-id" in
      (
        t,
        answer.1,
        rw stored (
            token-code q t1 draws' r form post read grants
            ∙ redeem-issues x order q t1 draws' form c redeemable
            ∙ ap (λ reply. (reply, answer.1)) replied),
        accepted,
      )
