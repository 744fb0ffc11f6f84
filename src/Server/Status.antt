-- ===== src/Server/Status.antt =====
-- What the effects of a request say of its answer.
use pmp_mock_http.Prelude.{
  ℤ, String, Bool, true, false, Option, none, some, List, [], ◌∷◌, ◌++◌, any, ◌≡◌, refl, arith,
}
use pmp_mock_http.Models.{Callback}
use pmp_mock_http.Server.Types.{
  RequestData, match_of, Effect, writes_header, http_error, opens_web_socket, opens_stream, counts,
  panics, ServerExternals,
}
use pmp_mock_http.Server.Answer.{sleep}
use pmp_mock_http.Server.Request.{called_back}

-- The status that an effect answers with.
abbrev answers : Effect → Option ℤ
answers (writes_header code headers) = some code
answers (http_error text code) = some code
answers _ = none

abbrev or_else : Option ℤ → Option ℤ → Option ℤ
or_else none o = o
or_else (some code) o = some code

-- The status of the first answer.
abbrev pub status_of : List Effect → Option ℤ
status_of [] = none
status_of (e ∷ effects) = or_else (answers e) (status_of effects)

abbrev is_panic : Effect → Bool
is_panic panics = true
is_panic _ = false

abbrev opens : Effect → Bool
opens (opens_web_socket mock) = true
opens (opens_stream mock) = true
opens _ = false

abbrev pub panicking : List Effect → Bool
panicking effects = any is_panic effects

-- Whether a WebSocket or an event stream is opened.
abbrev pub opening : List Effect → Bool
opening effects = any opens effects

pub status_of-sleep :
    (latency : ℤ) (effects : List Effect) → status_of (sleep latency ++ effects) ≡ status_of effects
status_of-sleep latency effects = ground arith

pub panicking-append : (xs ys : List Effect) → panicking ys ≡ true → panicking (xs ++ ys) ≡ true
panicking-append [] ys h = h
panicking-append (x ∷ xs) ys h = ground (arith, panicking-append xs ys h)

pub opening-append : (xs ys : List Effect) → opening ys ≡ true → opening (xs ++ ys) ≡ true
opening-append [] ys h = h
opening-append (x ∷ xs) ys h = ground (arith, opening-append xs ys h)

pub called_back-silent :
    (y : ServerExternals) (o : Option Callback) (seen : RequestData) (name : String)
    (rest : List Effect)
    → status_of ((counts (match_of name) ∷ called_back y o seen) ++ rest) ≡ status_of rest
unfolding called_back
called_back-silent y none seen name rest = refl
called_back-silent y (some c) seen name rest = refl
