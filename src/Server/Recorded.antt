-- ===== src/Server/Recorded.antt =====
-- The recorder holds what was answered.
use pmp_mock_http.Prelude.{ℤ, true, false, none, some, List, [], ◌∷◌, ◌++◌, ◌≡◌, ◌⊎◌}
use pmp_mock_http.Models.{Mock}
use pmp_mock_http.Http.{HttpRequest, ok}
use pmp_mock_http.Externals.{Externals}
use pmp_mock_http.Matcher.Search.{find_match}
use pmp_mock_http.Recorder.{Recorder, RecordedRequest}
use pmp_mock_http.Server.Types.{Server, Effect, Rolls}
use pmp_mock_http.Server.Chances.{fails, apply_chaos}
use pmp_mock_http.Server.Answer.{is_preflight}
use pmp_mock_http.Server.Status.{panicking, status_of}

-- Either the recorder is as it was, since recording is disabled, the request panics or it is exempt;
-- or recording is enabled and one recording was added, with the request's method and path and the
-- status that was answered.
pub data Records {VM : Type 0} (Exempt : Type 0) (r : HttpRequest) (old : Recorder)
    (out : List Effect × Server VM) : Type 0 where
  disabled : old.enabled ≡ false → out.1.recorder ≡ old → Records Exempt r old out
  unwound : panicking out.0 ≡ true → out.1.recorder ≡ old → Records Exempt r old out
  exempted : Exempt → out.1.recorder ≡ old → Records Exempt r old out
  grown :
      (q : RecordedRequest)
      → old.enabled ≡ true
      → out.1.recorder ≡ record old { recordings = old.recordings ++ q ∷ [] }
      → (q.method ≡ r.method) × (q.uri ≡ r.path)
      → status_of out.0 ≡ some q.response.status_code
      → Records Exempt r old out

-- The requests that are not recorded: a preflight, one whose body cannot be read or that no mock
-- answers, one for a WebSocket or an event stream, and one that chaos fails.
pub data IsExempt {VM : Type 0} (x : Externals VM) (rolls : Rolls) (r : HttpRequest) (s : Server VM)
    : Type 0 where
  preflight : is_preflight s.cors_config r.method ≡ true → IsExempt x rolls r s
  unread : r.body ≡ none → IsExempt x rolls r s
  unanswered :
      ((mock : Mock) → ¬ ((find_match x s.matcher r).0 ≡ ok (some mock))) → IsExempt x rolls r s
  streams :
      (mock : Mock)
      → (find_match x s.matcher r).0 ≡ ok (some mock)
      → (mock.protocol ≡ "websocket") ⊎ (mock.protocol ≡ "sse")
      → IsExempt x rolls r s
  failed :
      (mock : Mock) (code : ℤ)
      → (find_match x s.matcher r).0 ≡ ok (some mock)
      → apply_chaos rolls mock.response.chaos ≡ fails code
      → IsExempt x rolls r s
