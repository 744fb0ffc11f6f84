-- ===== src/OAuth/Provider.antt =====
-- The provider, its clients, and the tokens it signs. A time is a number of nanoseconds since the
-- epoch; the readings of the clock within a request are one argument `now`. The signing key is
-- part of the parameter `sign`.
use pmp_mock_http.Prelude.{
  ℕ, ◌+◌, ◌*◌, ◌/◌, pos, String, Bool, false, not, ◌&&◌, Option, none, some, [], ◌∷◌, Dict, get,
  insert, contains, ◌==◌, if◌then◌else◌,
}
use pmp_mock_http.Models.{Value, text, int64}
use pmp_mock_http.OAuth.Types.{
  Client, AuthorizationCode, TokenInfo, Reply, token_response, OAuthExternals,
}

pub record Provider : Type 0 where
  pub issuer : String
  pub auth_codes : Dict AuthorizationCode
  pub tokens : Dict TokenInfo
  pub clients : Dict Client
  pub token_expiry : ℕ
  pub refresh_expiry : ℕ

abbrev pub second : ℕ
second = 1000000000

abbrev hour : ℕ
hour = 3600 * second

unfoldable pub register_client : Provider → Client → Provider
register_client p client = record p { clients = insert p.clients client.client_id client }

abbrev pub default_client : Client
default_client = record {
  client_id = "default-client";
  client_secret = "default-secret";
  redirect_uris = "http://localhost:8080/callback" ∷ [];
  scopes = "openid" ∷ "profile" ∷ "email" ∷ [];
}

-- `NewOAuth2Provider` once the key is generated.
unfoldable pub new_provider : String → Provider
unfolding register_client
new_provider issuer =
    register_client
      (record {
        issuer = issuer;
        auth_codes = [];
        tokens = [];
        clients = [];
        token_expiry = hour;
        refresh_expiry = hour * 24 * 30;
      })
      default_client

-- `client.ClientSecret == clientSecret` of a client that exists.
abbrev has_secret : Option Client → String → Bool
has_secret none secret = false
has_secret (some client) secret = client.client_secret == secret

unfoldable pub validate_client : Provider → String → String → Bool
validate_client p client_id secret = has_secret (get p.clients client_id) secret

-- Of the verifier for S256 only the presence is looked at.
unfoldable pub validate_pkce : String → String → String → Bool
validate_pkce verifier challenge method =
    if method == "S256" then not (verifier == "") else verifier == challenge

-- The text of a token, "" if it cannot be signed.
abbrev or_empty : Option String → String
or_empty none = ""
or_empty (some t) = t

-- Unix() of a time.
abbrev unix : ℕ → Value
unix t = int64 (pos (t / second))

module _ {Url : Type 0} (x : OAuthExternals Url) (p : Provider) (now : ℕ) where
  unfoldable pub generate_access_token : String → String → String → String
  generate_access_token client_id scope user_id = or_empty (
      x.sign (
        ("iss", text p.issuer)
        ∷ ("sub", text user_id)
        ∷ ("aud", text client_id)
        ∷ ("exp", unix (now + p.token_expiry))
        ∷ ("iat", unix now)
        ∷ ("scope", text scope)
        ∷ ("client_id", text client_id)
        ∷ []))

  unfoldable pub generate_id_token : String → String → String
  generate_id_token user_id scope = or_empty (
      x.sign (
        ("iss", text p.issuer)
        ∷ ("sub", text user_id)
        ∷ ("aud", text "default-client")
        ∷ ("exp", unix (now + p.token_expiry))
        ∷ ("iat", unix now)
        ∷ ("name", text "Mock User")
        ∷ ("email", text "user@example.com")
        ∷ []))

  unfoldable pub send_token_response : String → String → String → String → Reply
  unfolding generate_id_token
  send_token_response access_token refresh_token scope user_id = token_response (record {
    access_token = access_token;
    token_type = "Bearer";
    expires_in = p.token_expiry / second;
    refresh_token = refresh_token;
    scope = scope;
    id_token =
        if contains scope "openid" && not (user_id == "")
        then generate_id_token user_id scope
        else "";
  })
