-- ===== src/Proxy/Tests.antt =====
-- A request that is forwarded to a backend.
use pmp_mock_http.Prelude.{pos, true, false, none, [], ◌∷◌, get, insert, ◌≡◌, refl}
use pmp_mock_http.Http.{HttpRequest, ok, err, first_value}
use pmp_mock_http.GraphQl.Query.{is_space, trim_left, trim_right, trim_space}
use pmp_mock_http.Proxy.Client.{
  Client, ProxyResponse, ProxyExternals, before_first, trimmed_or, get_client_ip, get_scheme,
  values, add_values, add_header, forwarded_for, forwarded_header, target_of, proxy_request,
  forward,
}
use pmp_mock_http.Proxy.Forwarded.{IsForwarded, Relays, forward-Relays}

abbrev response : ProxyResponse
response = record {
  status_code = pos 200;
  header = ("Content-Type", "text/plain" ∷ []) ∷ [];
  body = "hello";
  complete = true;
}

abbrev libraries : ProxyExternals
libraries = record {
  parse_url = λ target. err "";
  new_request = λ method url. ok url;
  send = λ timeout p. ok response;
  copy_error = λ resp. none;
}

abbrev client : Client
client = record {
  config = record { target = "http://backend"; preserve_host = false; timeout = pos 0 };
  timeout = pos 30000000000;
  target_url = record { rest = "http"; host = "backend"; path = ""; raw_query = "" };
}

abbrev request : HttpRequest
request = record {
  method = "GET";
  path = "/users";
  raw_query = "page=2";
  request_uri = "/users?page=2";
  query = [];
  form = none;
  header =
      ("Accept", "text/plain" ∷ "text/html" ∷ [])
      ∷ ("X-Forwarded-For", "10.0.0.1 , 10.0.0.2" ∷ [])
      ∷ [];
  body = none;
  host = "localhost";
  remote_addr = "127.0.0.1:80";
  tls = false;
}

header_sent :
    forwarded_header request
    ≡ ("Accept", "text/plain" ∷ "text/html" ∷ [])
      ∷ ("X-Forwarded-For", "10.0.0.1" ∷ [])
      ∷ ("X-Forwarded-Proto", "http" ∷ [])
      ∷ ("X-Forwarded-Host", "localhost" ∷ [])
      ∷ []
unfolding forwarded_header forwarded_for get_client_ip get_scheme first_value before_first
    trimmed_or trim_space trim_left trim_right is_space add_header add_values values get insert
header_sent = refl

forward-Relays_example :
    IsForwarded client request (proxy_request client request (target_of client request))
    × Relays response (forward libraries client request)
forward-Relays_example =
    forward-Relays libraries client request
      (proxy_request client request (target_of client request)) response refl refl refl refl refl
