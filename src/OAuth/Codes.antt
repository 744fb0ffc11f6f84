-- ===== src/OAuth/Codes.antt =====
-- An authorization code is redeemed at most once.
use pmp_mock_http.Prelude.{
  ℕ, String, Bool, true, false, not, Option, none, some, List, [], ◌∷◌, get, get-insert, get-delete,
  ◌==◌, ◌≡◌, refl, ap, ◌∙◌, inl, inr, arith, eq_refl, Option-cases, all, &&-true,
}
use pmp_mock_http.Http.{Header, HttpRequest, first_value}
use pmp_mock_http.OAuth.Types.{AuthorizationCode, OAuthExternals, Draws}
use pmp_mock_http.OAuth.Provider.{Provider, register_client}
use pmp_mock_http.OAuth.Authorize.{auth_code, respond_type, authorize_client, handle_authorize}
use pmp_mock_http.OAuth.Grants.{
  authenticated, RangeOrder, issue, redeem, redeem_code, authorization_code_grant,
  client_credentials_grant, refresh_found, refresh_token_grant, password_grant, grant, parsed,
  handle_token,
}
use pmp_mock_http.OAuth.Redeeming.{spent, is_token}
use pmp_mock_http.OAuth.Calls.{Call, registers, authorizes, requests, step, run}

-- Whether a call does not draw this text as a new code.
unfoldable pub draws_other : String → Call → Bool
draws_other code (registers client) = true
draws_other code (authorizes now draws query) = not (draws.code == code)
draws_other code (requests now draws r) = true

module _ {Url : Type 0} (x : OAuthExternals Url) (order : RangeOrder) where
  module _ (code : String) where
    redeem-codes :
        (p : Provider) (now : ℕ) (draws : Draws) (form : Header) (c : AuthorizationCode)
        → (redeem x order p now draws form c).1.auth_codes ≡ p.auth_codes
    unfolding redeem issue
    redeem-codes p now draws form c = ground arith

    redeem_code-codes :
        (p : Provider) (now : ℕ) (draws : Draws) (form : Header) (o : Option AuthorizationCode)
        → get p.auth_codes code ≡ none
        → get (redeem_code x order p now draws form o).1.auth_codes code ≡ none
    unfolding redeem_code
    redeem_code-codes p now draws form none free = free
    redeem_code-codes p now draws form (some c) free =
        ap (λ m. get m code) (redeem-codes (spent p form) now draws form c)
        ∙ get-delete p.auth_codes (first_value form "code") code
        ∙ ground arith

    grant-codes :
        (p : Provider) (now : ℕ) (draws : Draws) (form : Header) (kind : String)
        → get p.auth_codes code ≡ none
        → get (grant x order p now draws form kind).1.auth_codes code ≡ none
    unfolding grant authorization_code_grant client_credentials_grant refresh_token_grant
        refresh_found password_grant issue
    grant-codes p now draws form kind free = ground (
      arith,
      redeem_code-codes p now draws form (get p.auth_codes (first_value form "code")) free,
    )

    token-codes :
        (p : Provider) (now : ℕ) (draws : Draws) (r : HttpRequest)
        → get p.auth_codes code ≡ none
        → get (handle_token x order p now draws r).1.auth_codes code ≡ none
    unfolding handle_token parsed
    token-codes p now draws r free = elim (Option-cases r.form) [
      | inl bad ↦ ground arith
      | inr (form, read) ↦
          ground (arith, grant-codes p now draws form (first_value form "grant_type") free)
    ]

    authorize-codes :
        (p : Provider) (now : ℕ) (draws : Draws) (query : Header)
        → (draws.code == code) ≡ false
        → get p.auth_codes code ≡ none
        → get (handle_authorize x p now draws query).1.auth_codes code ≡ none
    unfolding handle_authorize authorize_client respond_type
    authorize-codes p now draws query other free =
        ground (arith, get-insert p.auth_codes draws.code code (auth_code now draws.code query))

    step-codes :
        (p : Provider) (call : Call)
        → draws_other code call ≡ true
        → get p.auth_codes code ≡ none
        → get (step x order p call).auth_codes code ≡ none
    unfolding step draws_other register_client
    step-codes p (registers client) h free = free
    step-codes p (authorizes now draws query) h free =
        authorize-codes p now draws query (ground arith) free
    step-codes p (requests now draws r) h free = token-codes p now draws r free

    run-codes :
        (p : Provider) (calls : List Call)
        → all (draws_other code) calls ≡ true
        → get p.auth_codes code ≡ none
        → get (run x order p calls).auth_codes code ≡ none
    unfolding run
    run-codes p [] h free = free
    run-codes p (call ∷ calls) h free =
        let (now, later) = &&-true h in
        run-codes (step x order p call) calls later (step-codes p call now free)

  spent-free :
      (p : Provider) (now : ℕ) (draws : Draws) (form : Header)
      → authenticated p form ≡ true
      → get
          (authorization_code_grant x order p now draws form).1.auth_codes
          (first_value form "code")
        ≡ none
  unfolding authorization_code_grant redeem_code
  spent-free p now draws form known =
      elim (Option-cases (get p.auth_codes (first_value form "code"))) [
        | inl missing ↦ rw known (rw missing missing)
        | inr (c, stored) ↦ rw known (
            rw stored (
              ap (λ m. get m (first_value form "code"))
                (redeem-codes (first_value form "code") (spent p form) now draws form c)
              ∙ get-delete p.auth_codes (first_value form "code") (first_value form "code")
              ∙ rw (eq_refl (first_value form "code")) refl))
      ]

  free-refused :
      (p : Provider) (now : ℕ) (draws : Draws) (form : Header)
      → get p.auth_codes (first_value form "code") ≡ none
      → is_token (authorization_code_grant x order p now draws form).0 ≡ false
  unfolding authorization_code_grant redeem_code
  free-refused p now draws form free = ground arith

  -- Once a client with valid credentials has sent a code, whatever the answer was, no later request
  -- with that code gets a token by it, as long as no authorization in between draws it again.
  pub code-single_use :
      (p : Provider) (now now' : ℕ) (draws draws' : Draws) (form form' : Header) (calls : List Call)
      → authenticated p form ≡ true
      → first_value form' "code" ≡ first_value form "code"
      → all (draws_other (first_value form "code")) calls ≡ true
      → is_token
          (authorization_code_grant x order
            (run x order (authorization_code_grant x order p now draws form).1 calls)
            now'
            draws'
            form').0
        ≡ false
  code-single_use p now now' draws draws' form form' calls known again others =
      free-refused _ now' draws' form' (
        rw again
          (run-codes (first_value form "code") _ calls others (spent-free p now draws form known)))
