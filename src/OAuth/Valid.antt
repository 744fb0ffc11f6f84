-- ===== src/OAuth/Valid.antt =====
-- The provider's invariant.
use pmp_mock_http.Prelude.{
  ℕ, String, ◌<>◌, Bool, true, false, Option, none, some, List, [], ◌∷◌, Dict, get, insert,
  get-insert, get-delete, insert-entries, ◌≡◌, refl, inl, inr, arith, Bool-cases, Option-cases,
}
use pmp_mock_http.Http.{Header, HttpRequest, first_value}
use pmp_mock_http.OAuth.Types.{Client, AuthorizationCode, TokenInfo, OAuthExternals, Draws}
use pmp_mock_http.OAuth.Provider.{Provider, new_provider, validate_client, register_client}
use pmp_mock_http.OAuth.Authorize.{auth_code, respond_type, authorize_client, handle_authorize}
use pmp_mock_http.OAuth.Grants.{
  authenticated, RangeOrder, find_token, issue, redeem, redeem_code, authorization_code_grant,
  client_credentials_grant, refresh_found, refresh_token_grant, password_grant, grant, parsed,
  handle_token,
}
use pmp_mock_http.OAuth.Redeeming.{spent}
use pmp_mock_http.OAuth.Calls.{Call, registers, authorizes, requests, step, run}

abbrev is_some : Option Client → Bool
is_some none = false
is_some (some client) = true

abbrev pub registered : Provider → String → Bool
registered p id = is_some (get p.clients id)

-- Each code and token stands under its own text, and belongs to a client that is registered.
pub record IsValid (p : Provider) : Type 0 where
  pub codes :
      (k : String) (c : AuthorizationCode)
      → get p.auth_codes k ≡ some c
      → (c.code ≡ k) × (registered p c.client_id ≡ true)
  pub tokens :
      (k : String) (info : TokenInfo)
      → get p.tokens k ≡ some info
      → (info.access_token ≡ k) × (registered p info.client_id ≡ true)

authenticated-registered :
    (p : Provider) (form : Header)
    → authenticated p form ≡ true
    → registered p (first_value form "client_id") ≡ true
unfolding validate_client
authenticated-registered p form h = ground arith

registered-insert :
    (clients : Dict Client) (client : Client) (id : String)
    → is_some (get clients id) ≡ true
    → is_some (get (insert clients client.client_id client) id) ≡ true
registered-insert clients client id h =
    rw (get-insert clients client.client_id id client) (ground arith)

register-IsValid : (p : Provider) (client : Client) → IsValid p → IsValid (register_client p client)
unfolding register_client
register-IsValid p client v = record {
  codes = λ k c h.
      let (name, known) = v.codes k c h in
      (name, registered-insert p.clients client c.client_id known);
  tokens = λ k i h.
      let (name, known) = v.tokens k i h in
      (name, registered-insert p.clients client i.client_id known);
}

new-IsValid : (issuer : String) → IsValid (new_provider issuer)
unfolding new_provider register_client get
new-IsValid issuer = record { codes = λ k c h. absurd (cc h); tokens = λ k i h. absurd (cc h) }

spent-IsValid : (p : Provider) (form : Header) → IsValid p → IsValid (spent p form)
spent-IsValid p form v = record {
  codes =
      λ k c h. v.codes k c (ground (arith, get-delete p.auth_codes (first_value form "code") k));
  tokens = v.tokens;
}

module _ {Url : Type 0} (x : OAuthExternals Url) (order : RangeOrder) where
  issue-IsValid :
      (p : Provider) (now : ℕ) (client_id refresh_token scope user_id : String)
      → registered p client_id ≡ true
      → IsValid p
      → IsValid (issue x order p now client_id refresh_token scope user_id).1
  unfolding issue
  issue-IsValid p now client_id refresh_token scope user_id known v = record {
    codes = v.codes;
    tokens =
        insert-entries (λ k info. (info.access_token ≡ k) × (registered p info.client_id ≡ true))
          p.tokens _ _ v.tokens (refl, known);
  }

  redeem-IsValid :
      (p : Provider) (now : ℕ) (draws : Draws) (form : Header) (c : AuthorizationCode)
      → authenticated p form ≡ true
      → IsValid p
      → IsValid (redeem x order p now draws form c).1
  unfolding redeem
  redeem-IsValid p now draws form c known v = ground (
    arith,
    v,
    issue-IsValid p now (first_value form "client_id") draws.refresh_token c.scope c.user_id
        (authenticated-registered p form known) v,
  )

  redeem_code-IsValid :
      (p : Provider) (now : ℕ) (draws : Draws) (form : Header) (o : Option AuthorizationCode)
      → authenticated p form ≡ true
      → IsValid p
      → IsValid (redeem_code x order p now draws form o).1
  unfolding redeem_code validate_client
  redeem_code-IsValid p now draws form none known v = v
  redeem_code-IsValid p now draws form (some c) known v =
      redeem-IsValid (spent p form) now draws form c known (spent-IsValid p form v)

  refresh_found-IsValid :
      (p : Provider) (now : ℕ) (form : Header) (o : Option TokenInfo)
      → authenticated p form ≡ true
      → IsValid p
      → IsValid (refresh_found x order p now form o).1
  unfolding refresh_found
  refresh_found-IsValid p now form none known v = v
  refresh_found-IsValid p now form (some info) known v =
      issue-IsValid p now _ _ _ _ (authenticated-registered p form known) v

  grant-IsValid :
      (p : Provider) (now : ℕ) (draws : Draws) (form : Header) (kind : String)
      → IsValid p
      → IsValid (grant x order p now draws form kind).1
  unfolding grant authorization_code_grant client_credentials_grant refresh_token_grant
      password_grant
  grant-IsValid p now draws form kind v = elim (Bool-cases (authenticated p form)) [
    | inl known ↦
        let at = authenticated-registered p form known in
        ground (
          arith,
          v,
          redeem_code-IsValid p now draws form (get p.auth_codes (first_value form "code")) known v,
          issue-IsValid p now (first_value form "client_id") "" (first_value form "scope") "" at v,
          refresh_found-IsValid p now form
              (find_token (order p.tokens) (first_value form "refresh_token")
                (first_value form "client_id"))
              known v,
          issue-IsValid p now (first_value form "client_id") draws.refresh_token
              (first_value form "scope") ("user-" <> first_value form "username") at v,
        )
    | inr unknown ↦ ground (arith, v)
  ]

  token-IsValid :
      (p : Provider) (now : ℕ) (draws : Draws) (r : HttpRequest)
      → IsValid p
      → IsValid (handle_token x order p now draws r).1
  unfolding handle_token parsed
  token-IsValid p now draws r v = elim (Option-cases r.form) [
    | inl bad ↦ ground (arith, v)
    | inr (form, read) ↦
        ground (arith, v, grant-IsValid p now draws form (first_value form "grant_type") v)
  ]

  respond_type-IsValid :
      (p : Provider) (now : ℕ) (draws : Draws) (query : Header)
      → registered p (first_value query "client_id") ≡ true
      → IsValid p
      → IsValid (respond_type x p now draws query).1
  unfolding respond_type auth_code
  respond_type-IsValid p now draws query known v =
      let stored : IsValid (record p {
        auth_codes = insert p.auth_codes draws.code (auth_code now draws.code query);
      }) =
        record {
          codes =
              insert-entries (λ k c. (c.code ≡ k) × (registered p c.client_id ≡ true)) p.auth_codes
                _ _ v.codes (refl, known);
          tokens = v.tokens;
        } in
      ground (arith, v, stored)

  authorize-IsValid :
      (p : Provider) (now : ℕ) (draws : Draws) (query : Header)
      → IsValid p
      → IsValid (handle_authorize x p now draws query).1
  unfolding handle_authorize authorize_client
  authorize-IsValid p now draws query v =
      elim (Option-cases (get p.clients (first_value query "client_id"))) [
        | inl missing ↦ rw (missing, authorize_client) v
        | inr (client, known) ↦
            ground (arith, v, respond_type-IsValid p now draws query (ground arith) v)
      ]

  step-IsValid : (p : Provider) (call : Call) → IsValid p → IsValid (step x order p call)
  unfolding step
  step-IsValid p (registers client) v = register-IsValid p client v
  step-IsValid p (authorizes now draws query) v = authorize-IsValid p now draws query v
  step-IsValid p (requests now draws r) v = token-IsValid p now draws r v

  run-IsValid : (p : Provider) (calls : List Call) → IsValid p → IsValid (run x order p calls)
  unfolding run
  run-IsValid p [] v = v
  run-IsValid p (call ∷ calls) v = run-IsValid (step x order p call) calls (step-IsValid p call v)

  -- After any calls on a new provider each stored code and each stored token stands under its own
  -- text and belongs to a client that is still registered.
  pub run_provider-IsValid :
      (issuer : String) (calls : List Call) → IsValid (run x order (new_provider issuer) calls)
  run_provider-IsValid issuer calls = run-IsValid (new_provider issuer) calls (new-IsValid issuer)
