-- ===== src/Proxy/Forwarded.antt =====
-- What of a request reaches the backend.
use pmp_mock_http.Prelude.{
  none, ap, String, true, List, [], ◌∷◌, ◌++◌, get, insert, get-insert, ◌==◌, if◌then◌else◌, ◌≡◌,
  refl, sym, ◌∙◌, arith, subst, Bool-cases, inl, inr, eq_of_==,
}
use mathlib.Core.List.{append_assoc, append-nil}
use pmp_mock_http.Http.{HttpRequest, Header, Result, ok}
use pmp_mock_http.Proxy.Client.{
  Client, ProxyRequest, ProxyResponse, ProxyExternals, Effect, adds_header, writes_header, writes,
  get_client_ip, get_scheme, values, add_values, add_header, forwarded_for, forwarded_header,
  target_of, proxy_request, copied_values, copied_header, relayed, copied_body, sent_on, forward,
}

-- All the values that a header has under a key.
abbrev pub collected : Header → String → List String
collected [] key = []
collected ((j, vs) ∷ h) key = (if j == key then vs else []) ++ collected h key

values-insert :
    (h : Header) (k : String) (vs : List String) (j : String)
    → values (insert h k vs) j ≡ (if k == j then vs else values h j)
unfolding values
values-insert h k vs j = elim (Bool-cases (k == j)) [
  | inl same ↦ rw (get-insert h k j vs, values) (rw same refl)
  | inr other ↦ rw (get-insert h k j vs, values) (rw other refl)
]

values-add_values :
    (key : String) (vs : List String) (h : Header) (j : String)
    → values (add_values key vs h) j ≡ values h j ++ (if key == j then vs else [])
unfolding add_values
values-add_values key [] h j = ground (arith, append-nil (values h j))
values-add_values key (v ∷ vs) h j =
    let added = values h key ++ v ∷ [] in
    let later = values-add_values key vs (insert h key added) j in
    let first = values-insert h key added j in
    elim (Bool-cases (key == j)) [
      | inl same ↦
          later
          ∙ ap (λ ws. ws ++ (if key == j then vs else []))
              (first ∙ ap (λ b. if b then added else values h j) same)
          ∙ rw same (
              append_assoc (values h key) (v ∷ []) vs
              ∙ ap (λ k. values h k ++ v ∷ vs) (eq_of_== key j same))
      | inr other ↦
          later
          ∙ ap (λ ws. ws ++ (if key == j then vs else []))
              (first ∙ ap (λ b. if b then added else values h j) other)
          ∙ rw other refl
    ]

values-add_header :
    (entries h : Header) (j : String)
    → values (add_header entries h) j ≡ values h j ++ collected entries j
unfolding add_header
values-add_header [] h j = sym (append-nil (values h j))
values-add_header ((key, vs) ∷ entries) h j =
    values-add_header entries (add_values key vs h) j
    ∙ ap (λ ws. ws ++ collected entries j) (values-add_values key vs h j)
    ∙ append_assoc (values h j) (if key == j then vs else []) (collected entries j)

-- The headers that the proxy sets itself.
abbrev pub own_values : HttpRequest → String → List String
own_values r key =
    if "X-Forwarded-Host" == key
    then r.host ∷ []
    else if "X-Forwarded-Proto" == key
    then get_scheme r ∷ []
    else if "X-Forwarded-For" == key
    then (if get_client_ip r == "" then collected r.header key else get_client_ip r ∷ [])
    else collected r.header key

values-nil : (j : String) → values [] j ≡ []
unfolding values get
values-nil j = refl

values-forwarded_for :
    (ip : String) (h : Header) (key : String)
    → values (forwarded_for ip h) key ≡ (
        if "X-Forwarded-For" == key
        then (if ip == "" then values h key else ip ∷ [])
        else values h key)
unfolding forwarded_for
values-forwarded_for ip h key = elim (Bool-cases (ip == "")) [
  | inl empty ↦ rw empty (ground arith)
  | inr given ↦ rw given (values-insert h "X-Forwarded-For" (ip ∷ []) key)
]

values-forwarded_header :
    (r : HttpRequest) (key : String) → values (forwarded_header r) key ≡ own_values r key
unfolding forwarded_header
values-forwarded_header r key =
    let copied = add_header r.header [] in
    let for = forwarded_for (get_client_ip r) copied in
    let proto = insert for "X-Forwarded-Proto" (get_scheme r ∷ []) in
    let kept : values copied key ≡ collected r.header key =
      values-add_header r.header [] key
      ∙ ap (λ vs. vs ++ collected r.header key) (values-nil key) in
    values-insert proto "X-Forwarded-Host" (r.host ∷ []) key
    ∙ ap (λ vs. if "X-Forwarded-Host" == key then r.host ∷ [] else vs)
        (values-insert for "X-Forwarded-Proto" (get_scheme r ∷ []) key
          ∙ ap (λ vs. if "X-Forwarded-Proto" == key then get_scheme r ∷ [] else vs)
              (values-forwarded_for (get_client_ip r) copied key
                ∙ ap
                    (λ vs.
                      if "X-Forwarded-For" == key
                      then (if get_client_ip r == "" then vs else get_client_ip r ∷ [])
                      else vs)
                    kept))

-- A request as the backend should get it: the method, path, query and body of the client's, the
-- target's host or, if it is to be preserved, the client's, and the client's headers with those that
-- the proxy sets itself.
pub record IsForwarded (c : Client) (r : HttpRequest) (p : ProxyRequest) : Type 0 where
  pub same_method : p.method ≡ r.method
  pub same_path : p.url.path ≡ r.path
  pub same_query : p.url.raw_query ≡ r.raw_query
  pub same_body : p.body ≡ r.body
  pub to_target : p.url.host ≡ c.target_url.host
  pub same_rest : p.url.rest ≡ c.target_url.rest
  pub own_host : p.host ≡ (if c.config.preserve_host then r.host else c.target_url.host)
  pub own_header : (key : String) → values p.header key ≡ own_values r key

-- The values that are written for a key.
abbrev pub added : String → List Effect → List String
added key [] = []
added key (adds_header j v ∷ effects) = (if j == key then v ∷ [] else []) ++ added key effects
added key (writes_header code ∷ effects) = added key effects
added key (writes text ∷ effects) = added key effects

added-append :
    (key : String) (xs ys : List Effect) → added key (xs ++ ys) ≡ added key xs ++ added key ys
added-append key [] ys = refl
added-append key (adds_header j v ∷ xs) ys =
    ap (λ vs. (if j == key then v ∷ [] else []) ++ vs) (added-append key xs ys)
    ∙ sym (append_assoc (if j == key then v ∷ [] else []) (added key xs) (added key ys))
added-append key (writes_header code ∷ xs) ys = added-append key xs ys
added-append key (writes text ∷ xs) ys = added-append key xs ys

added-copied_values :
    (key j : String) (vs : List String)
    → added key (copied_values j vs) ≡ (if j == key then vs else [])
unfolding copied_values
added-copied_values key j [] = ground arith
added-copied_values key j (v ∷ vs) = ground (arith, added-copied_values key j vs)

added-copied_header : (key : String) (h : Header) → added key (copied_header h) ≡ collected h key
unfolding copied_header
added-copied_header key [] = refl
added-copied_header key ((j, vs) ∷ h) =
    added-append key (copied_values j vs) (copied_header h)
    ∙ ap (λ ws. ws ++ added key (copied_header h)) (added-copied_values key j vs)
    ∙ ap (λ ws. (if j == key then vs else []) ++ ws) (added-copied_header key h)

proxy_request-IsForwarded :
    (c : Client) (r : HttpRequest) → IsForwarded c r (proxy_request c r (target_of c r))
unfolding proxy_request target_of
proxy_request-IsForwarded c r = record {
  same_method = refl;
  same_path = refl;
  same_query = refl;
  same_body = refl;
  to_target = refl;
  same_rest = refl;
  own_host = refl;
  own_header = λ key. values-forwarded_header r key;
}

-- What Forward returns and does with a response: its status and body are written, and under each
-- key exactly the values that it has there.
abbrev pub Relays : ProxyResponse → Result (Unit {0}) × List Effect → Type 0
Relays resp (result, effects) =
    (header : List Effect) × (result ≡ ok tt)
    × (effects ≡ header ++ writes_header resp.status_code ∷ writes resp.body ∷ [])
    × ((key : String) → added key header ≡ collected resp.header key)

-- If http.NewRequest parses the target's URL again as it was, and the backend answers with a
-- response whose body is complete and can be written to the client, then Forward succeeds and writes the status, the body and, under
-- each key, the values of that response. What the backend was sent has the method, path, query and
-- body of the client's request, goes to the target, names the target's host or the client's if it is
-- to be preserved, and has the values of the client's headers, but for X-Forwarded-Host,
-- X-Forwarded-Proto and, if the client's address is known, X-Forwarded-For, which are set anew.
pub forward-Relays :
    (x : ProxyExternals) (c : Client) (r : HttpRequest) (p : ProxyRequest) (resp : ProxyResponse)
    → p ≡ proxy_request c r (target_of c r)
    → x.new_request r.method (target_of c r) ≡ ok (target_of c r)
    → x.send c.timeout p ≡ ok resp
    → resp.complete ≡ true
    → x.copy_error resp ≡ none
    → IsForwarded c r p × Relays resp (forward x c r)
unfolding forward sent_on relayed copied_body
forward-Relays x c r p resp made parsed answered complete written = (
  subst (IsForwarded c r) (sym made) (proxy_request-IsForwarded c r),
  subst (Relays resp)
      (sym (
        ap (sent_on x c r) parsed
        ∙ ap (λ q. relayed x (x.send c.timeout q)) (sym made)
        ∙ ap (relayed x) answered))
      (
        copied_header resp.header,
        rw written (rw complete refl),
        refl,
        λ key. added-copied_header key resp.header,
      ),
)
