-- ===== src/Grpc/Tests.antt =====
-- A chat with two responses.
use pmp_mock_http.Prelude.{
  not, nat_eq, pos, String, true, false, none, some, [], ◌∷◌, ◌++◌, Dict, get, split, map, ◌≡◌,
  refl, all_runes, ◌<>◌, length, take,
}
use Prim.Native.Char.{code}
use pmp_mock_http.Models.{Value, text}
use pmp_mock_http.Grpc.Types.{
  ResponseConfig, MethodConfig, ServiceConfig, message, end_of_stream, sends, sleeps, ok, status,
  GrpcExternals,
}
use pmp_mock_http.Grpc.Methods.{
  wait, find_method, code_of, final_status, handle_unary, handle_method, handle_unknown_service,
  unary_response, matches_request, method_found, service_found, call_parts,
}
use pmp_mock_http.Grpc.Conversation.{replies, bidirectional-replies}

abbrev libraries : GrpcExternals
libraries = record { marshal = λ fields. ""; send_error = λ done. none }

abbrev response : String → ResponseConfig
response body = record {
  body = ("text", text body) ∷ [];
  metadata = [];
  trailers = [];
  delay = pos 0;
  stream_delay = pos 5;
  stream_count = pos 0;
  template = false;
}

abbrev method : MethodConfig
method = record {
  name = "Talk";
  stream_type = "bidirectional";
  request = none;
  response = none;
  responses = response "a" ∷ response "b" ∷ [];
  metadata = [];
  status_code = pos 0;
  status_message = "";
  delay = pos 0;
  template = false;
  java_script = "";
}

abbrev service : ServiceConfig
service = record { name = "chat.Chat"; methods = method ∷ [] }

known : get (("chat.Chat", service) ∷ []) "chat.Chat" ≡ some service
unfolding get
known = refl

found : find_method service.methods "Talk" ≡ some method
unfolding find_method
found = refl

service_part : all_runes (λ c. not (nat_eq (code c) b'/')) "chat.Chat" ≡ true
unfolding all_runes
service_part = refl

name_part : all_runes (λ c. not (nat_eq (code c) b'/')) "Talk" ≡ true
unfolding all_runes
name_part = refl

bidirectional-replies_example :
    handle_unknown_service libraries
      (("chat.Chat", service) ∷ [])
      (some ("/" <> ("chat.Chat" <> ("/" <> "Talk"))))
      (map message ([] ∷ [] ∷ [] ∷ []) ++ end_of_stream ∷ [])
    ≡ (ok, replies (take (length {A = Dict Value} ([] ∷ [] ∷ [] ∷ [])) method.responses))
bidirectional-replies_example =
    bidirectional-replies libraries (λ done. refl) (("chat.Chat", service) ∷ []) service method
      "chat.Chat" "Talk" ([] ∷ [] ∷ [] ∷ []) [] service_part name_part known found refl

two_replies :
    replies method.responses
    ≡ sleeps (pos 5)
      ∷ sends (("text", text "a") ∷ [])
      ∷ sleeps (pos 5)
      ∷ sends (("text", text "b") ∷ [])
      ∷ []
unfolding wait
two_replies = refl

-- The status of a method is that of a unary call.
abbrev refusing : MethodConfig
refusing = record method { stream_type = "unary"; status_code = pos 5; status_message = "gone" }

unary_status :
    handle_unknown_service libraries
      (("chat.Chat", record service { methods = refusing ∷ [] }) ∷ [])
      (some "/chat.Chat/Talk")
      (message [] ∷ [])
    ≡ (status (pos 5) "gone", [])
unfolding handle_unknown_service call_parts service_found method_found handle_method handle_unary
    matches_request unary_response final_status code_of find_method get split wait
unary_status = refl
