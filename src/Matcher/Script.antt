-- ===== src/Matcher/Script.antt =====
-- `evaluateJavaScript`: the script's result, read as a verdict and an optional response.
use pmp_mock_http.Prelude.{
  ℤ, pos, String, Bool, true, false, Option, none, some, [], ◌∷◌, Dict, if◌then◌else◌,
}
use pmp_mock_http.Models.{
  Value, boolean, int64, text, object, Items, nil, cons, field?, Response, empty_response,
}
use pmp_mock_http.Http.{HttpRequest, first_values}
use pmp_mock_http.Externals.{Externals, ScriptRequest}

-- `v.(int64)`, 0 where the value has another type or is missing.
int_field : Items → String → ℤ
int_field m key = elim (field? m key) [ none ↦ pos 0 | some v ↦ elim v [ int64 n ↦ n | _ ↦ pos 0 ] ]

text_field : Items → String → String
text_field m key = elim (field? m key) [ none ↦ "" | some v ↦ elim v [ text s ↦ s | _ ↦ "" ] ]

-- The loop over the script's headers, which keeps the texts.
text_entries : Items → Dict String
text_entries nil = []
text_entries (cons k (text s) rest) = (k, s) ∷ text_entries rest
text_entries (cons k _ rest) = text_entries rest

headers_field : Items → Dict String
unfolding text_entries
headers_field m = elim (field? m "headers") [
  | none ↦ []
  | some v ↦ elim v [ object entries ↦ text_entries entries | _ ↦ [] ]
]

unfoldable pub custom_response : Items → Response
unfolding int_field text_field headers_field
custom_response m = record empty_response {
  status_code = int_field m "status_code";
  headers = headers_field m;
  body = text_field m "body";
  delay = int_field m "delay";
}

-- `resultMap["matches"].(bool)`, false where it is missing or no bool.
says_match : Items → Bool
says_match m = elim (field? m "matches") [
  | none ↦ false
  | some v ↦ elim v [ boolean b ↦ b | _ ↦ false ]
]

given_response : Items → Option Response
unfolding custom_response
given_response m = elim (field? m "response") [
  | none ↦ none
  | some v ↦ elim v [ object entries ↦ some (custom_response entries) | _ ↦ none ]
]

-- The exported result of a script.
unfoldable pub verdict : Value → Bool × Option Response
unfolding says_match given_response
verdict (object m) = if says_match m then (true, given_response m) else (false, none)
verdict _ = (false, none)

module _ {VM : Type 0} (x : Externals VM) where
  run_script : String → VM → (Bool × Option Response) × VM
  unfolding verdict
  run_script script vm =
      let (vm', result) = x.run_string vm script in
      (elim result [ none ↦ (false, none) | some v ↦ verdict v ], vm')

  -- The verdict, and the state that the script leaves behind also where it fails.
  unfoldable pub evaluate_java_script :
      HttpRequest → String → String → VM → (Bool × Option Response) × VM
  unfolding run_script
  evaluate_java_script r body script vm =
      let obj : ScriptRequest = record {
        uri = r.path;
        method = r.method;
        headers = first_values r.header;
        body = body;
      } in
      elim (x.set_request vm obj) [ none ↦ ((false, none), vm) | some vm' ↦ run_script script vm' ]
