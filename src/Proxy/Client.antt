-- ===== src/Proxy/Client.antt =====
-- `NewClient`, `Forward` and what they call.
use pmp_mock_http.Prelude.{
  ℕ, ℤ, pos, eq_ℤ, String, ◌<>◌, Bool, Option, none, some, List, [], ◌∷◌, ◌++◌, get, insert, nat_eq,
  ◌==◌, if◌then◌else◌,
}
use Prim.Native.Char.{code}
use pmp_mock_http.Http.{HttpRequest, Header, first_value, Result, ok, err}
use pmp_mock_http.GraphQl.Query.{trim_space}

-- A timeout is in nanoseconds.
pub record Config : Type 0 where
  pub target : String
  pub preserve_host : Bool
  pub timeout : ℤ

-- A URL by the parts that are used; `rest` stands for its scheme and all else.
pub record Url : Type 0 where
  pub rest : String
  pub host : String
  pub path : String
  pub raw_query : String

-- The HTTP client follows no redirects; of it the timeout is kept.
pub record Client : Type 0 where
  pub config : Config
  pub timeout : ℤ
  pub target_url : Url

pub record ProxyRequest : Type 0 where
  pub method : String
  pub url : Url
  pub header : Header
  pub host : String
  pub body : Option String

-- `complete` is whether the body can be read to its end.
pub record ProxyResponse : Type 0 where
  pub status_code : ℤ
  pub header : Header
  pub body : String
  pub complete : Bool

pub record ProxyExternals : Type 0 where
  -- url.Parse
  pub parse_url : String → Result Url
  -- http.NewRequest, of a method and the text of a URL: the URL that it parses again
  pub new_request : String → Url → Result Url
  -- httpClient.Do, with the timeout
  pub send : ℤ → ProxyRequest → Result ProxyResponse
  -- io.Copy of a body to the client: the error of a write, if one fails
  pub copy_error : ProxyResponse → Option String

pub data Effect : Type 0 where
  adds_header : String → String → Effect
  writes_header : ℤ → Effect
  writes : String → Effect

-- The text before the first rune of a code, if there is one.
unfoldable pub before_first : ℕ → String → Option String
before_first n String.[] = none
before_first n (String.◌∷◌ c s) =
    if nat_eq (code c) n
    then some ""
    else elim (before_first n s) [ none ↦ none | some t ↦ some (String.◌∷◌ c t) ]

-- The text before the last rune of a code, if there is one.
unfoldable pub before_last : ℕ → String → Option String
before_last n String.[] = none
before_last n (String.◌∷◌ c s) = elim (before_last n s) [
  | some t ↦ some (String.◌∷◌ c t)
  | none ↦ if nat_eq (code c) n then some "" else none
]

unfoldable pub trimmed_or : String → Option String → String
trimmed_or s none = s
trimmed_or s (some t) = trim_space t

unfoldable pub or_text : String → Option String → String
or_text s none = s
or_text s (some t) = t

unfoldable pub get_client_ip : HttpRequest → String
get_client_ip r =
    let xff = first_value r.header "X-Forwarded-For" in
    let xri = first_value r.header "X-Real-Ip" in
    if xff == ""
    then (if xri == "" then or_text r.remote_addr (before_last b':' r.remote_addr) else xri)
    else trimmed_or xff (before_first b',' xff)

unfoldable pub get_scheme : HttpRequest → String
get_scheme r =
    let scheme = first_value r.header "X-Forwarded-Proto" in
    if r.tls then "https" else if scheme == "" then "http" else scheme

unfoldable pub values : Header → String → List String
values h key = elim (get h key) [ none ↦ [] | some vs ↦ vs ]

-- `header.Add(key, value)` for each value. The keys of a received header are canonical already.
unfoldable pub add_values : String → List String → Header → Header
add_values key [] h = h
add_values key (v ∷ vs) h = add_values key vs (insert h key (values h key ++ v ∷ []))

-- The order of the keys is left open by Go; it does not matter, since each has its own values.
unfoldable pub add_header : Header → Header → Header
add_header [] h = h
add_header ((key, vs) ∷ entries) h = add_header entries (add_values key vs h)

-- `header.Set(key, value)`
abbrev set_header : String → String → Header → Header
set_header key v h = insert h key (v ∷ [])

unfoldable pub forwarded_for : String → Header → Header
forwarded_for ip h = if ip == "" then h else set_header "X-Forwarded-For" ip h

unfoldable pub forwarded_header : HttpRequest → Header
forwarded_header r = set_header "X-Forwarded-Host" r.host (
    set_header "X-Forwarded-Proto" (get_scheme r)
      (forwarded_for (get_client_ip r) (add_header r.header [])))

unfoldable pub target_of : Client → HttpRequest → Url
target_of c r = record c.target_url { path = r.path; raw_query = r.raw_query }

unfoldable pub proxy_request : Client → HttpRequest → Url → ProxyRequest
proxy_request c r url = record {
  method = r.method;
  url = url;
  header = forwarded_header r;
  host = if c.config.preserve_host then r.host else c.target_url.host;
  body = r.body;
}

unfoldable pub copied_values : String → List String → List Effect
copied_values key [] = []
copied_values key (v ∷ vs) = adds_header key v ∷ copied_values key vs

unfoldable pub copied_header : Header → List Effect
copied_header [] = []
copied_header ((key, vs) ∷ entries) = copied_values key vs ++ copied_header entries

module _ (x : ProxyExternals) where
  unfoldable pub client_of : Config → Result Url → Result Client
  client_of config (ok url) = ok (record {
    config = config;
    timeout = if eq_ℤ config.timeout (pos 0) then pos 30000000000 else config.timeout;
    target_url = url;
  })
  client_of config (err e) = err ("invalid proxy target URL: " <> e)
  client_of config Result.panicked = Result.panicked

  -- A nil configuration is `none`.
  unfoldable pub new_client : Option Config → Result Client
  new_client none = err "proxy target is required"
  new_client (some config) =
      if config.target == ""
      then err "proxy target is required"
      else client_of config (x.parse_url config.target)

  -- The error of io.Copy, in writing to the client or in reading the body.
  unfoldable pub copied_body : ProxyResponse → Option String → Result (Unit {0})
  copied_body resp none = if resp.complete then ok tt else err "unexpected EOF"
  copied_body resp (some e) = err e

  -- The response is copied; an error while its body is copied is returned. The body is an effect as
  -- a whole; of one whose writing fails a part may reach the client.
  unfoldable pub relayed : Result ProxyResponse → Result (Unit {0}) × List Effect
  unfolding copied_body
  relayed (ok resp) = (
    copied_body resp (x.copy_error resp),
    copied_header resp.header ++ writes_header resp.status_code ∷ writes resp.body ∷ [],
  )
  relayed (err e) = (err ("proxy request failed: " <> e), [])
  relayed Result.panicked = (Result.panicked, [])

  unfoldable pub sent_on : Client → HttpRequest → Result Url → Result (Unit {0}) × List Effect
  sent_on c r (ok url) = relayed (x.send c.timeout (proxy_request c r url))
  sent_on c r (err e) = (err ("failed to create proxy request: " <> e), [])
  sent_on c r Result.panicked = (Result.panicked, [])

  unfoldable pub forward : Client → HttpRequest → Result (Unit {0}) × List Effect
  forward c r = sent_on c r (x.new_request r.method (target_of c r))
