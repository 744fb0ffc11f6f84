-- ===== src/OAuth/Tests.antt =====
-- A provider with its default client, and the theorems of the OAuth2 flows there.
use pmp_mock_http.Prelude.{
  ◌<>◌, String, true, false, some, [], ◌∷◌, Dict, get, all, ◌≡◌, ◌↔◌, refl, inl, arith,
}
use pmp_mock_http.Http.{Header, HttpRequest, first_value}
use pmp_mock_http.OAuth.Types.{
  AuthorizationCode, TokenInfo, TokenResponse, token_response, user_info, OAuthExternals, Draws,
}
use pmp_mock_http.OAuth.Provider.{Provider, default_client, new_provider, validate_client}
use pmp_mock_http.OAuth.Authorize.{valid_uri, handle_authorize, authorize_client, respond_type}
use pmp_mock_http.OAuth.Grants.{
  authenticated, authorization_code_grant, client_credentials_grant, refresh_token_grant,
  handle_token,
}
use pmp_mock_http.OAuth.Userinfo.{handle_user_info}
use pmp_mock_http.OAuth.Redeeming.{is_token, Redeemable, authorization_code_grant-is_token_iff}
use pmp_mock_http.OAuth.Refreshing.{client_credentials-refreshes}
use pmp_mock_http.OAuth.Calls.{authorizes, requests, run}
use pmp_mock_http.OAuth.Codes.{draws_other, code-single_use}
use pmp_mock_http.OAuth.Valid.{IsValid, run_provider-IsValid}
use pmp_mock_http.OAuth.Flow.{code_flow-user_info}

-- A signer that writes one text, and URLs that are their texts.
abbrev libraries : OAuthExternals String
libraries = record {
  sign = λ claims. some "jwt";
  parse_url = λ s. some s;
  url_query = λ url. [];
  set_raw_query = λ url q. url <> "?" <> first_value q "code";
  set_fragment = λ url fragment. url <> "#" <> fragment;
  url_text = λ url. url;
  query_escape = λ s. s;
}

abbrev listed : Dict TokenInfo → Dict TokenInfo
listed tokens = tokens

abbrev provider : Provider
provider = record {
  issuer = "http://issuer";
  auth_codes = [];
  tokens = [];
  clients = ("default-client", default_client) ∷ [];
  token_expiry = 3600000000000;
  refresh_expiry = 2592000000000000;
}

abbrev drawn : Draws
drawn = record { code = "c1"; refresh_token = "r1" }

abbrev redrawn : Draws
redrawn = record { code = "c2"; refresh_token = "r2" }

abbrev query : Header
query =
    ("response_type", "code" ∷ [])
    ∷ ("client_id", "default-client" ∷ [])
    ∷ ("redirect_uri", "http://localhost:8080/callback" ∷ [])
    ∷ ("scope", "openid" ∷ [])
    ∷ []

abbrev form : Header
form =
    ("grant_type", "authorization_code" ∷ [])
    ∷ ("client_id", "default-client" ∷ [])
    ∷ ("client_secret", "default-secret" ∷ [])
    ∷ ("code", "c1" ∷ [])
    ∷ ("redirect_uri", "http://localhost:8080/callback" ∷ [])
    ∷ []

abbrev request : HttpRequest
request = record {
  method = "POST";
  path = "/token";
  raw_query = "";
  request_uri = "/token";
  query = [];
  form = some form;
  header = [];
  body = some "";
  host = "localhost";
  remote_addr = "";
  tls = false;
}

abbrev stored : Provider
stored = (handle_authorize libraries provider 5 drawn query).1

authenticated-stored : authenticated stored form ≡ true
unfolding handle_authorize authorize_client respond_type first_value get validate_client
authenticated-stored = refl

run_provider-IsValid_example : IsValid (
    run libraries listed
      (new_provider "i")
      (authorizes 5 drawn query ∷ requests 6 drawn request ∷ []))
run_provider-IsValid_example =
    run_provider-IsValid libraries listed "i"
      (authorizes 5 drawn query ∷ requests 6 drawn request ∷ [])

authorization_code_grant-is_token_iff_example :
    (is_token (authorization_code_grant libraries listed stored 6 drawn form).0 ≡ true)
    ↔ ((c : AuthorizationCode) × Redeemable stored 6 form c)
authorization_code_grant-is_token_iff_example =
    authorization_code_grant-is_token_iff libraries listed stored 6 drawn form

others-drawn : all (draws_other (first_value form "code")) (authorizes 7 redrawn query ∷ []) ≡ true
unfolding draws_other first_value get
others-drawn = refl

code-single_use_example :
    is_token
      (authorization_code_grant libraries listed
        (run libraries listed
          (authorization_code_grant libraries listed stored 6 drawn form).1
          (authorizes 7 redrawn query ∷ []))
        8
        redrawn
        form).0
    ≡ false
code-single_use_example =
    code-single_use libraries listed stored 6 8 drawn redrawn form form
      (authorizes 7 redrawn query ∷ []) authenticated-stored refl others-drawn

flow_client : get provider.clients (first_value query "client_id") ≡ some default_client
unfolding first_value get
flow_client = refl

flow_uri : valid_uri default_client (first_value query "redirect_uri") ≡ true
unfolding first_value get
flow_uri = refl

flow_values :
    (first_value query "response_type" ≡ "code")
    × (first_value form "grant_type" ≡ "authorization_code")
    × (first_value form "client_id" ≡ first_value query "client_id")
    × (first_value form "client_secret" ≡ "default-secret")
    × (first_value form "code" ≡ "c1")
    × (first_value form "redirect_uri" ≡ first_value query "redirect_uri")
    × (first_value query "code_challenge" ≡ "")
unfolding first_value get
flow_values = (refl, refl, refl, refl, refl, refl, refl)

code_flow-user_info_example :
    (t : TokenResponse) × (p' : Provider) × (handle_token libraries listed
        (handle_authorize libraries provider 5 drawn query).1
        6
        redrawn
        request
      ≡ (token_response t, p'))
    × (handle_user_info p' 7 ("Bearer " <> t.access_token)
        ≡ user_info
            (record { user_id = "mock-user-id"; name = "Mock User"; email = "user@example.com" }))
code_flow-user_info_example =
    code_flow-user_info libraries listed provider 5 6 7 drawn redrawn query form default_client
      request flow_client flow_uri flow_values.0 refl refl flow_values.1 flow_values.2 flow_values.3
      flow_values.4 flow_values.5 (inl flow_values.6) (omega arith) (omega arith)

no_refresh_token : first_value form "refresh_token" ≡ ""
unfolding first_value get
no_refresh_token = refl

client_credentials-refreshes_example :
    is_token
      (refresh_token_grant libraries listed
        (client_credentials_grant libraries listed stored 6 form).1
        7
        form).0
    ≡ true
client_credentials-refreshes_example =
    client_credentials-refreshes libraries listed stored 6 7 form form (λ test ts. refl)
      authenticated-stored authenticated-stored refl no_refresh_token
