-- ===== src/OAuth/Types.antt =====
-- The provider's data, the libraries that it calls, and what a handler writes.
use pmp_mock_http.Prelude.{ℕ, String, Option, List, Dict}
use pmp_mock_http.Models.{Value}
use pmp_mock_http.Http.{Header}

pub record Client : Type 0 where
  pub client_id : String
  pub client_secret : String
  pub redirect_uris : List String
  pub scopes : List String

pub record AuthorizationCode : Type 0 where
  pub code : String
  pub client_id : String
  pub redirect_uri : String
  pub scope : String
  pub code_challenge : String
  pub code_challenge_method : String
  pub expires_at : ℕ
  pub user_id : String

pub record TokenInfo : Type 0 where
  pub access_token : String
  pub refresh_token : String
  pub expires_at : ℕ
  pub scope : String
  pub client_id : String
  pub user_id : String

pub record TokenResponse : Type 0 where
  pub access_token : String
  pub token_type : String
  pub expires_in : ℕ
  pub refresh_token : String
  pub scope : String
  pub id_token : String

-- `user_id` is what stands under "sub"; the other entries are constants.
pub record UserInfo : Type 0 where
  pub user_id : String
  pub name : String
  pub email : String

-- What a handler answers: http.Error, a redirect, the JSON of an error or of a result, or a
-- run-time panic.
pub data Reply : Type 0 where
  http_error : String → ℕ → Reply
  redirect : String → Reply
  json_error : String → ℕ → Reply
  token_response : TokenResponse → Reply
  user_info : UserInfo → Reply
  panics : Reply

-- The JWT and net/url libraries. `Url` is a parsed URL; `none` is an error.
pub record OAuthExternals (Url : Type 0) : Type 0 where
  -- jwt.NewWithClaims(RS256, claims).SignedString(privateKey)
  pub sign : Dict Value → Option String
  pub parse_url : String → Option Url
  -- u.Query()
  pub url_query : Url → Header
  -- u.RawQuery = values.Encode()
  pub set_raw_query : Url → Header → Url
  -- u.Fragment = fragment
  pub set_fragment : Url → String → Url
  -- u.String()
  pub url_text : Url → String
  pub query_escape : String → String

-- The random strings that a request draws.
pub record Draws : Type 0 where
  pub code : String
  pub refresh_token : String
