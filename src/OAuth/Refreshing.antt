-- ===== src/OAuth/Refreshing.antt =====
-- When the token endpoint exchanges a refresh token.
use pmp_mock_http.Prelude.{
  ℕ, String, Bool, true, false, ◌&&◌, Option, none, some, [], ◌∷◌, Dict, any, ◌==◌, ◌≡◌, refl, ◌∙◌,
  inl, inr, arith, eq_refl, Bool-cases, insert,
}
use pmp_mock_http.Http.{Header, first_value}
use pmp_mock_http.OAuth.Types.{TokenInfo, OAuthExternals}
use pmp_mock_http.OAuth.Provider.{Provider, validate_client, send_token_response}
use pmp_mock_http.OAuth.Grants.{
  authenticated, RangeOrder, find_token, issue, refresh_found, refresh_token_grant,
  client_credentials_grant,
}
use pmp_mock_http.OAuth.Redeeming.{is_token}

-- An entry of the map of tokens with this refresh token and client.
abbrev pub refreshes : String → String → String × TokenInfo → Bool
refreshes refresh_token client_id (key, info) =
    info.refresh_token == refresh_token && info.client_id == client_id

abbrev is_some : Option TokenInfo → Bool
is_some none = false
is_some (some info) = true

find_token-any :
    (tokens : Dict TokenInfo) (refresh_token client_id : String)
    → is_some (find_token tokens refresh_token client_id)
      ≡ any (refreshes refresh_token client_id) tokens
unfolding find_token
find_token-any [] refresh_token client_id = refl
find_token-any ((key, info) ∷ tokens) refresh_token client_id =
    ground (arith, find_token-any tokens refresh_token client_id)

module _ {Url : Type 0} (x : OAuthExternals Url) (order : RangeOrder) where
  refresh_found-is_token :
      (p : Provider) (now : ℕ) (form : Header) (o : Option TokenInfo)
      → is_token (refresh_found x order p now form o).0 ≡ is_some o
  unfolding refresh_found issue send_token_response
  refresh_found-is_token p now form none = refl
  refresh_found-is_token p now form (some info) = refl

  pub refresh_token_grant-is_token :
      (p : Provider) (now : ℕ) (form : Header)
      → ((test : String × TokenInfo → Bool) → any test (order p.tokens) ≡ any test p.tokens)
      → is_token (refresh_token_grant x order p now form).0 ≡ (
          authenticated p form
          && any
              (refreshes (first_value form "refresh_token") (first_value form "client_id"))
              p.tokens)
  unfolding refresh_token_grant
  refresh_token_grant-is_token p now form same = elim (Bool-cases (authenticated p form)) [
    | inl known ↦ rw known (
        refresh_found-is_token p now form _
        ∙ find_token-any (order p.tokens) (first_value form "refresh_token")
            (first_value form "client_id")
        ∙ same _)
    | inr unknown ↦ rw unknown refl
  ]

  any-insert :
      (tokens : Dict TokenInfo) (key : String) (info : TokenInfo) (refresh_token client_id : String)
      → refreshes refresh_token client_id (key, info) ≡ true
      → any (refreshes refresh_token client_id) (insert tokens key info) ≡ true
  unfolding insert
  any-insert [] key info refresh_token client_id h = rw h refl
  any-insert ((j, other) ∷ tokens) key info refresh_token client_id h =
      ground (arith, any-insert tokens key info refresh_token client_id h)

  -- A client that was granted a token by its credentials, which comes with no refresh token, can
  -- then refresh with the empty refresh token.
  pub client_credentials-refreshes :
      (p : Provider) (now later : ℕ) (form form' : Header)
      → ((test : String × TokenInfo → Bool) (ts : Dict TokenInfo)
          → any test (order ts) ≡ any test ts)
      → authenticated p form ≡ true
      → authenticated p form' ≡ true
      → first_value form' "client_id" ≡ first_value form "client_id"
      → first_value form' "refresh_token" ≡ ""
      → is_token
          (refresh_token_grant x order
            (client_credentials_grant x order p now form).1
            later
            form').0
        ≡ true
  unfolding client_credentials_grant issue validate_client
  client_credentials-refreshes p now later form form' same known known' id empty = rw known (
      refresh_token_grant-is_token _ later form' (λ test. same test _)
      ∙ rw known' (
          rw (empty, id)
            (any-insert p.tokens _ _ "" (first_value form "client_id")
              (rw (eq_refl (first_value form "client_id")) refl))))
