-- ===== src/OAuth/Redeeming.antt =====
-- When the token endpoint exchanges a code or a refresh token.
use pmp_mock_http.Prelude.{
  subst, ℕ, ◌≤◌, Bool, true, false, some, get, delete, ◌≡◌, refl, ap, ◌∙◌, ◌⊎◌, ◌↔◌, inl, inr,
  arith, eq_iff, Option-cases, Bool-cases, eq_of_==, ==_of_eq, ◌==◌, String,
}
use pmp_mock_http.Http.{Header, first_value}
use pmp_mock_http.OAuth.Types.{
  Client, AuthorizationCode, Reply, token_response, OAuthExternals, Draws,
}
use pmp_mock_http.OAuth.Provider.{Provider, validate_client, validate_pkce, send_token_response}
use pmp_mock_http.OAuth.Grants.{
  authenticated, RangeOrder, issue, redeem, redeem_code, authorization_code_grant,
}

-- Whether a reply carries a token.
abbrev pub is_token : Reply → Bool
is_token (token_response t) = true
is_token _ = false

-- Whether a request names a registered client and its secret.
abbrev pub IsAuthenticated : Provider → Header → Type 0
IsAuthenticated p form =
    (client : Client) × (get p.clients (first_value form "client_id") ≡ some client)
    × (client.client_secret ≡ first_value form "client_secret")

-- The PKCE test of a verifier, a challenge and a method: for S256 there need only be a verifier; for
-- every other method it is the challenge.
abbrev pub Verifies : String → String → String → Type 0
Verifies verifier challenge method =
    ((method ≡ "S256") × ¬ (verifier ≡ "")) ⊎ (¬ (method ≡ "S256") × (verifier ≡ challenge))

pub validate_pkce_iff :
    (verifier challenge method : String)
    → (validate_pkce verifier challenge method ≡ true) ↔ Verifies verifier challenge method
unfolding validate_pkce
validate_pkce_iff verifier challenge method = elim (Bool-cases (method == "S256")) [
  | inl hashed ↦ (
    λ h. inl (eq_of_== method "S256" hashed, λ e. ground (arith, ==_of_eq verifier "" e)),
    λ h. elim h [
      | inl (_, given) ↦ elim (Bool-cases (verifier == "")) [
        | inl missing ↦ absurd (given (eq_of_== verifier "" missing))
        | inr present ↦ rw hashed (rw present refl)
      ]
      | inr (other, _) ↦ absurd (other (eq_of_== method "S256" hashed))
    ],
  )
  | inr plain ↦ (
    λ h. inr (
      λ e. ground (arith, ==_of_eq method "S256" e),
      eq_of_== verifier challenge (rw plain at h),
    ),
    λ h. elim h [
      | inl (hashed, _) ↦ absurd (ground (arith, ==_of_eq method "S256" hashed))
      | inr (_, same) ↦ rw plain (==_of_eq verifier challenge same)
    ],
  )
]

authenticated_iff :
    (p : Provider) (form : Header) → (authenticated p form ≡ true) ↔ IsAuthenticated p form
unfolding validate_client
authenticated_iff p form = (
  λ h. elim (Option-cases (get p.clients (first_value form "client_id"))) [
    | inl missing ↦ absurd (ground arith)
    | inr (client, known) ↦ (client, known, eq_of_== client.client_secret _ (rw known at h))
  ],
  λ (client, known, secret). rw known (==_of_eq client.client_secret _ secret),
)

-- What the grant asks of a request and of the code it names.
pub record Redeemable (p : Provider) (now : ℕ) (form : Header) (auth_code : AuthorizationCode)
    : Type 0 where
  pub credentials : IsAuthenticated p form
  pub stored : get p.auth_codes (first_value form "code") ≡ some auth_code
  pub in_time : now ≤ auth_code.expires_at
  pub verified :
      (auth_code.code_challenge ≡ "")
      ⊎ Verifies
          (first_value form "code_verifier")
          auth_code.code_challenge
          auth_code.code_challenge_method
  pub same_uri : auth_code.redirect_uri ≡ first_value form "redirect_uri"

-- The three tests of a code.
abbrev Passes : ℕ → Header → AuthorizationCode → Type 0
Passes now form c =
    (now ≤ c.expires_at)
    × ((c.code_challenge ≡ "")
        ⊎ Verifies (first_value form "code_verifier") c.code_challenge c.code_challenge_method)
    × (c.redirect_uri ≡ first_value form "redirect_uri")

-- The provider once the code of a form is deleted.
abbrev pub spent : Provider → Header → Provider
spent p form = record p { auth_codes = delete p.auth_codes (first_value form "code") }

module _ {Url : Type 0} (x : OAuthExternals Url) (order : RangeOrder) where
  issue-is_token :
      (p : Provider) (now : ℕ) (client_id refresh_token scope user_id : String)
      → is_token (issue x order p now client_id refresh_token scope user_id).0 ≡ true
  unfolding issue send_token_response
  issue-is_token p now client_id refresh_token scope user_id = refl

  redeem-Passes :
      (p : Provider) (now : ℕ) (draws : Draws) (form : Header) (c : AuthorizationCode)
      → is_token (redeem x order p now draws form c).0 ≡ true
      → Passes now form c
  unfolding redeem
  redeem-Passes p now draws form c h =
      let test =
        validate_pkce_iff (first_value form "code_verifier") c.code_challenge
          c.code_challenge_method in
      ground (
        arith,
        eq_iff c.code_challenge "",
        eq_iff c.redirect_uri (first_value form "redirect_uri"),
        test,
      )

  redeem-issue :
      (p : Provider) (now : ℕ) (draws : Draws) (form : Header) (c : AuthorizationCode)
      → Passes now form c
      → redeem x order p now draws form c
        ≡ issue x order p now (first_value form "client_id") draws.refresh_token c.scope c.user_id
  unfolding redeem
  redeem-issue p now draws form c h =
      let test =
        validate_pkce_iff (first_value form "code_verifier") c.code_challenge
          c.code_challenge_method in
      ground (
        arith,
        eq_iff c.code_challenge "",
        eq_iff c.redirect_uri (first_value form "redirect_uri"),
        test,
      )

  grant-found :
      (p : Provider) (now : ℕ) (draws : Draws) (form : Header) (c : AuthorizationCode)
      → authenticated p form ≡ true
      → get p.auth_codes (first_value form "code") ≡ some c
      → authorization_code_grant x order p now draws form
        ≡ redeem x order (spent p form) now draws form c
  unfolding authorization_code_grant redeem_code
  grant-found p now draws form c known stored = rw known (rw stored refl)

  -- What a redeemable code leads to.
  pub redeem-issues :
      (p : Provider) (now : ℕ) (draws : Draws) (form : Header) (c : AuthorizationCode)
      → Redeemable p now form c
      → authorization_code_grant x order p now draws form
        ≡ issue x order
            (spent p form)
            now
            (first_value form "client_id")
            draws.refresh_token
            c.scope
            c.user_id
  redeem-issues p now draws form c r =
      grant-found p now draws form c ((authenticated_iff p form).1 r.credentials) r.stored
      ∙ redeem-issue (spent p form) now draws form c (r.in_time, r.verified, r.same_uri)

  grant-is_token :
      (p : Provider) (now : ℕ) (draws : Draws) (form : Header)
      → is_token (authorization_code_grant x order p now draws form).0 ≡ true
      → (authenticated p form ≡ true)
        × ((c : AuthorizationCode) × (get p.auth_codes (first_value form "code") ≡ some c))
  unfolding authorization_code_grant redeem_code
  grant-is_token p now draws form h =
      elim (Option-cases (get p.auth_codes (first_value form "code"))) [
        | inl missing ↦ absurd (ground arith)
        | inr (c, stored) ↦ (ground arith, (c, stored))
      ]

  -- The authorization code grant answers with a token exactly if the form names a registered client
  -- with its secret, and a code that is stored, has not expired and has the form's redirect URI; if
  -- the code has a challenge, the form must have some verifier for the method S256, which is not
  -- compared with the challenge, and the challenge itself for every other method. That holds for
  -- codes with a challenge too, whose exchange is documented without credentials and redirect URI.
  pub authorization_code_grant-is_token_iff :
      (p : Provider) (now : ℕ) (draws : Draws) (form : Header)
      → (is_token (authorization_code_grant x order p now draws form).0 ≡ true)
        ↔ ((c : AuthorizationCode) × Redeemable p now form c)
  authorization_code_grant-is_token_iff p now draws form = (
    λ h.
        let (known, (c, stored)) = grant-is_token p now draws form h in
        let (time, pkce, uri) =
          redeem-Passes (spent p form) now draws form c
            (subst (λ r. is_token r.0 ≡ true) (grant-found p now draws form c known stored) h) in
        (
          c,
          record {
            credentials = (authenticated_iff p form).0 known;
            stored = stored;
            in_time = time;
            verified = pkce;
            same_uri = uri;
          },
        ),
    λ (c, r).
        ap (λ s. is_token s.0) (redeem-issues p now draws form c r)
        ∙ issue-is_token (spent p form) now _ _ _ _,
  )
