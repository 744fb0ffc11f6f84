-- ===== src/OAuth/Calls.antt =====
-- Sequences of calls of a provider.
use pmp_mock_http.Prelude.{ℕ, List, [], ◌∷◌}
use pmp_mock_http.Http.{Header, HttpRequest}
use pmp_mock_http.OAuth.Types.{Client, OAuthExternals, Draws}
use pmp_mock_http.OAuth.Provider.{Provider, register_client}
use pmp_mock_http.OAuth.Authorize.{handle_authorize}
use pmp_mock_http.OAuth.Grants.{RangeOrder, handle_token}

-- The calls that may change a provider, with the reading of the clock and the random draws.
pub data Call : Type 0 where
  registers : Client → Call
  authorizes : ℕ → Draws → Header → Call
  requests : ℕ → Draws → HttpRequest → Call

module _ {Url : Type 0} (x : OAuthExternals Url) (order : RangeOrder) where
  unfoldable pub step : Provider → Call → Provider
  step p (registers client) = register_client p client
  step p (authorizes now draws query) = (handle_authorize x p now draws query).1
  step p (requests now draws r) = (handle_token x order p now draws r).1

  unfoldable pub run : Provider → List Call → Provider
  run p [] = p
  run p (call ∷ calls) = run (step p call) calls
