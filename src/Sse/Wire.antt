-- ===== src/Sse/Wire.antt =====
-- What calls of a script put on the wire.
use pmp_mock_http.Prelude.{
  ap, ℤ, pos, ltb_ℤ, String, ◌<>◌, Bool, true, false, not, List, [], ◌∷◌, ◌++◌, ◌==◌, if◌then◌else◌,
  ◌≡◌, refl, sym, ◌∙◌,
}
use text.Mathlib.TextLemmas.{nil-append, append-nil, append_assoc}
use mathlib.Core.List.{append-nil as append-nil_list}
use pmp_mock_http.Management.Manager.{signed}
use pmp_mock_http.Sse.Types.{
  SseExternals, Effect, writes, fails_to_write, flushes, sets_header, sleeps, http_error,
  starts_keep_alive, stops_keep_alive, Call, send, send_event_of, close, sleep_for,
}
use pmp_mock_http.Sse.Writing.{going, write, line, finished, send_event}
use pmp_mock_http.Sse.Script.{call, calls}

-- What reaches the client.
unfoldable pub wire : List Effect → String
wire [] = ""
wire (writes text ∷ done) = text <> wire done
wire (fails_to_write text ∷ done) = wire done
wire (flushes ∷ done) = wire done
wire (sets_header key v ∷ done) = wire done
wire (sleeps ms ∷ done) = wire done
wire (http_error text code ∷ done) = wire done
wire (starts_keep_alive ms ∷ done) = wire done
wire (stops_keep_alive ∷ done) = wire done

wire-append : (xs ys : List Effect) → wire (xs ++ ys) ≡ wire xs <> wire ys
unfolding wire
wire-append [] ys = sym (nil-append (wire ys))
wire-append (writes text ∷ xs) ys =
    ap (λ t. text <> t) (wire-append xs ys) ∙ sym (append_assoc text (wire xs) (wire ys))
wire-append (fails_to_write text ∷ xs) ys = wire-append xs ys
wire-append (flushes ∷ xs) ys = wire-append xs ys
wire-append (sets_header key v ∷ xs) ys = wire-append xs ys
wire-append (sleeps ms ∷ xs) ys = wire-append xs ys
wire-append (http_error text code ∷ xs) ys = wire-append xs ys
wire-append (starts_keep_alive ms ∷ xs) ys = wire-append xs ys
wire-append (stops_keep_alive ∷ xs) ys = wire-append xs ys

-- A line that is left out if it is not given.
abbrev pub optional : Bool → String → String
optional given text = if given then text else ""

unfoldable pub event_wire : String → String → String → ℤ → String
event_wire event_type event_data id retry =
    optional (not (event_type == "")) ("event: " <> (event_type <> "\n"))
    <> (optional (not (id == "")) ("id: " <> (id <> "\n"))
        <> (optional (ltb_ℤ (pos 0) retry) ("retry: " <> (signed retry <> "\n"))
            <> (("data: " <> (event_data <> "\n")) <> "\n")))

abbrev one_if : Bool → String → List Effect
one_if given text = if given then writes text ∷ [] else []

wire-one_if : (given : Bool) (text : String) → wire (one_if given text) ≡ optional given text
unfolding wire
wire-one_if true text = append-nil text
wire-one_if false text = refl

unfoldable pub wire_of : Call → String
wire_of (send text) = event_wire "" text "" (pos 0)
wire_of (send_event_of event_type text id retry) = event_wire event_type text id retry
wire_of close = ""
wire_of (sleep_for ms) = ""

unfoldable pub wire_of_all : List Call → String
wire_of_all [] = ""
wire_of_all (c ∷ cs) = wire_of c <> wire_of_all cs

wire-flush : wire (flushes ∷ []) ≡ ""
unfolding wire
wire-flush = refl

wire-sleep : (ms : ℤ) → wire (sleeps ms ∷ []) ≡ ""
unfolding wire
wire-sleep ms = refl

module _ (x : SseExternals) (up : (done : List Effect) → x.write_fails done ≡ false) where
  line-going :
      (given : Bool) (text : String) (done : List Effect)
      → line x given text (going done) ≡ going (done ++ one_if given text)
  unfolding line write
  line-going true text done = rw (up done) refl
  line-going false text done = ap going (sym (append-nil_list done))

  send_event-wire :
      (event_type event_data id : String) (retry : ℤ) (done : List Effect)
      → wire (send_event x event_type event_data id retry done)
        ≡ wire done <> event_wire event_type event_data id retry
  unfolding send_event finished event_wire
  send_event-wire event_type event_data id retry done =
      let d1 = done ++ one_if (not (event_type == "")) ("event: " <> (event_type <> "\n")) in
      let d2 = d1 ++ one_if (not (id == "")) ("id: " <> (id <> "\n")) in
      let d3 = d2 ++ one_if (ltb_ℤ (pos 0) retry) ("retry: " <> (signed retry <> "\n")) in
      let named = line-going (not (event_type == "")) ("event: " <> (event_type <> "\n")) done in
      let identified = line-going (not (id == "")) ("id: " <> (id <> "\n")) d1 in
      let timed = line-going (ltb_ℤ (pos 0) retry) ("retry: " <> (signed retry <> "\n")) d2 in
      let ended = line-going true ("data: " <> (event_data <> "\n\n")) d3 in
      rw named (
        rw identified (
          rw timed
            (rw ended (simp (wire-append, wire-one_if, append_assoc, wire-flush, append-nil)))))

  call-wire : (c : Call) (done : List Effect) → wire (call x c done) ≡ wire done <> wire_of c
  unfolding call wire_of
  call-wire (send text) done = send_event-wire "" text "" (pos 0) done
  call-wire (send_event_of event_type text id retry) done =
      send_event-wire event_type text id retry done
  call-wire close done = sym (append-nil (wire done))
  call-wire (sleep_for ms) done =
      wire-append done (sleeps ms ∷ []) ∙ ap (λ t. wire done <> t) (wire-sleep ms)

  pub calls-wire :
      (cs : List Call) (done : List Effect) → wire (calls x cs done) ≡ wire done <> wire_of_all cs
  unfolding calls wire_of_all
  calls-wire [] done = sym (append-nil (wire done))
  calls-wire (c ∷ cs) done =
      calls-wire cs (call x c done)
      ∙ ap (λ t. t <> wire_of_all cs) (call-wire c done)
      ∙ append_assoc (wire done) (wire_of c) (wire_of_all cs)
