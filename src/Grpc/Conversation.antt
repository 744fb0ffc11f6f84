-- ===== src/Grpc/Conversation.antt =====
-- What a client of a bidirectional method gets.
use pmp_mock_http.Prelude.{
  ap, ℕ, zero, suc, String, ◌<>◌, Bool, true, false, not, none, some, List, [], ◌∷◌, ◌++◌, map,
  Dict, get, split, length, take, nat_eq, ◌==◌, ◌≡◌, refl, sym, ◌∙◌, arith, all_runes,
}
use Prim.Native.Char.{code}
use mathlib.Core.List.{append_assoc as append_assoc_list, append-nil as append-nil_list}
use text.Mathlib.TextLemmas.{nil-append, append-nil, cons-append, append_assoc}
use pmp_mock_http.Models.{Value}
use pmp_mock_http.Grpc.Types.{
  ResponseConfig, MethodConfig, ServiceConfig, Services, Received, message, end_of_stream, Effect,
  sends, ok, GrpcExternals,
}
use pmp_mock_http.Grpc.Methods.{
  wait, sent, send, and_then, converse, handle_bidirectional, find_method, handle_method,
  method_found, service_found, call_parts, handle_unknown_service,
}

-- A part of a method's name.
abbrev pub is_part : String → Bool
is_part = all_runes (λ c. not (nat_eq (code c) b'/'))

split-part :
    (current w s : String)
    → is_part w ≡ true
    → split b'/' current (w <> s) ≡ split b'/' (current <> w) s
unfolding split all_runes
split-part current String.[] s h =
    ap (split b'/' current) (nil-append s) ∙ ap (λ t. split b'/' t s) (sym (append-nil current))
split-part current (String.◌∷◌ c w) s h =
    let here : nat_eq (code c) b'/' ≡ false = ground arith in
    let rest : is_part w ≡ true = ground arith in
    ap (split b'/' current) (cons-append c w s)
    ∙ rw here (
        split-part (current <> String.◌∷◌ c "") w s rest
        ∙ ap (λ t. split b'/' t s)
            (append_assoc current (String.◌∷◌ c "") w
              ∙ ap (λ t. current <> t)
                  (cons-append c "" w ∙ ap (λ t. String.◌∷◌ c t) (nil-append w))))

split-slash : (current s : String) → split b'/' current ("/" <> s) ≡ current ∷ split b'/' "" s
unfolding split
split-slash current s =
    ap (split b'/' current) (cons-append "/" "" s ∙ ap (λ t. String.◌∷◌ "/" t) (nil-append s))

split-last : (w : String) → is_part w ≡ true → split b'/' "" w ≡ w ∷ []
unfolding split
split-last w h =
    ap (split b'/' "") (sym (append-nil w)) ∙ split-part "" w "" h ∙ ap (λ t. t ∷ []) (nil-append w)

split-method :
    (service name : String)
    → is_part service ≡ true
    → is_part name ≡ true
    → split b'/' "" ("/" <> (service <> ("/" <> name))) ≡ "" ∷ service ∷ name ∷ []
split-method service name h k =
    split-slash "" (service <> ("/" <> name))
    ∙ ap (λ ps. "" ∷ ps)
        (split-part "" service ("/" <> name) h
          ∙ ap (λ t. split b'/' t ("/" <> name)) (nil-append service)
          ∙ split-slash service name
          ∙ ap (λ ps. service ∷ ps) (split-last name k))

take_nil {ℓ} : {A : Type ℓ} (n : ℕ) → take {A = A} n [] ≡ []
take_nil zero = refl
take_nil (suc n) = refl

-- Responses, each after its delay.
abbrev pub replies : List ResponseConfig → List Effect
replies [] = []
replies (response ∷ responses) =
    wait response.stream_delay ++ sends response.body ∷ replies responses

module _ (x : GrpcExternals) (up : (done : List Effect) → x.send_error done ≡ none) where
  send-up :
      (body : Dict Value) (done : List Effect) → send x body done ≡ (none, done ++ sends body ∷ [])
  unfolding send sent
  send-up body done = rw (up done) refl

  converse-replies :
      (messages : List (Dict Value)) (rest : List Received) (responses : List ResponseConfig)
      (done : List Effect)
      → converse x (map message messages ++ end_of_stream ∷ rest) responses done
        ≡ (ok, done ++ replies (take (length messages) responses))
  unfolding converse and_then
  converse-replies [] rest responses done = ap (λ es. (ok, es)) (sym (append-nil_list done))
  converse-replies (fields ∷ messages) rest [] done =
      converse-replies messages rest [] done
      ∙ ap (λ rs. (ok, done ++ replies rs)) (take_nil (length messages))
  converse-replies (fields ∷ messages) rest (response ∷ responses) done =
      let waited = done ++ wait response.stream_delay in
      rw (send-up response.body waited) (
        converse-replies messages rest responses (waited ++ sends response.body ∷ [])
        ∙ ap (λ es. (ok, es))
            (append_assoc_list waited (sends response.body ∷ [])
                (replies (take (length messages) responses))
              ∙ append_assoc_list done (wait response.stream_delay)
                  (sends response.body ∷ replies (take (length messages) responses))))

  -- As long as nothing that is sent fails, a call of a bidirectional method, by the name of a
  -- configured service and of its first method of that name, answers the messages that it receives
  -- before the end of the stream in turn: the first with the first response, and so on, each after
  -- its delay, until the messages or the responses run out. It sends nothing else and ends without an
  -- error.
  pub bidirectional-replies :
      (services : Services) (service : ServiceConfig) (method : MethodConfig)
      (service_name name : String) (messages : List (Dict Value)) (rest : List Received)
      → is_part service_name ≡ true
      → is_part name ≡ true
      → get services service_name ≡ some service
      → find_method service.methods name ≡ some method
      → method.stream_type ≡ "bidirectional"
      → handle_unknown_service x services
          (some ("/" <> (service_name <> ("/" <> name))))
          (map message messages ++ end_of_stream ∷ rest)
        ≡ (ok, replies (take (length messages) method.responses))
  unfolding handle_unknown_service call_parts service_found method_found handle_method
      handle_bidirectional
  bidirectional-replies services service method service_name name messages rest one_part one_part'
        known found both =
      let received = map message messages ++ end_of_stream ∷ rest in
      let server : (method.stream_type == "server_stream") ≡ false =
        ap (λ t. t == "server_stream") both in
      let client : (method.stream_type == "client_stream") ≡ false =
        ap (λ t. t == "client_stream") both in
      let bidirectional : (method.stream_type == "bidirectional") ≡ true =
        ap (λ t. t == "bidirectional") both in
      ap (λ parts. call_parts x services parts received)
        (split-method service_name name one_part one_part')
      ∙ ap (λ o. service_found x service_name name o received) known
      ∙ ap (λ o. method_found x name o received) found
      ∙ rw server
          (rw client (rw bidirectional (converse-replies messages rest method.responses [])))
