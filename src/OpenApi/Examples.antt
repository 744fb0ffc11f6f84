-- ===== src/OpenApi/Examples.antt =====
-- The body and the headers of a mock, from those of a response.
use pmp_mock_http.Prelude.{
  String, Bool, ◌||◌, Option, none, some, [], ◌∷◌, Dict, get, insert, contains, ◌==◌, if◌then◌else◌,
}
use pmp_mock_http.Models.{Value, text, object, Items, nil, cons, field?}
use pmp_mock_http.OpenApi.Types.{
  OpenApiExternals, Example, HeaderDescription, MediaType, ResponseDescription,
}

abbrev pub default_example : String
default_example = "{\"message\": \"Mock response - add your own example\"}"

-- The headers with a value for each name, and a content type.
unfoldable pub example_headers : Dict HeaderDescription → Dict String
example_headers [] = []
example_headers ((name, h) ∷ headers) = insert (example_headers headers) name "example-value"

unfoldable pub with_content_type : Dict String → Dict String
with_content_type headers = elim (get headers "Content-Type") [
  | none ↦ insert headers "Content-Type" "application/json"
  | some v ↦ headers
]

unfoldable pub extract_response_headers : Option ResponseDescription → Dict String
extract_response_headers none = with_content_type []
extract_response_headers (some response) = with_content_type (example_headers response.headers)

unfoldable pub example_properties : Items → Items
example_properties nil = nil
example_properties (cons name v items) = cons name (text "example") (example_properties items)

unfoldable pub text_of : Option Value → String
text_of (some (text s)) = s
text_of _ = ""

module _ (x : OpenApiExternals) where
  unfoldable pub marshalled_or : String → Value → String
  marshalled_or other v = elim (x.marshal v) [ none ↦ other | some json ↦ json ]

  unfoldable pub object_example : Option Value → String
  object_example (some (object items)) =
      marshalled_or "{\"example\": \"generated from schema\"}" (object (example_properties items))
  object_example _ = "{}"

  unfoldable pub typed_example : Items → String → String
  typed_example schema type =
      if type == "object"
      then object_example (field? schema "properties")
      else if type == "array"
      then "[{\"example\": \"item\"}]"
      else if type == "string"
      then "\"example string\""
      else if (type == "number") || (type == "integer")
      then "123"
      else if type == "boolean"
      then "true"
      else "{\"example\": \"generated from schema\"}"

  unfoldable pub generate_example_from_schema : Value → String
  generate_example_from_schema (object schema) =
      typed_example schema (text_of (field? schema "type"))
  generate_example_from_schema _ = "{\"example\": \"generated\"}"

  unfoldable pub marshalled : Option Value → Option String
  marshalled none = none
  marshalled (some v) = x.marshal v

  unfoldable pub first_example : Dict Example → Option String
  first_example [] = none
  first_example ((name, example) ∷ examples) = elim (marshalled example.value) [
    | none ↦ first_example examples
    | some json ↦ some json
  ]

  unfoldable pub schema_example : Bool → Option Value → Option String
  schema_example generate_examples none = none
  schema_example generate_examples (some schema) =
      if generate_examples then some (generate_example_from_schema schema) else none

  unfoldable pub first_of : Option String → Option String → Option String
  first_of none o = o
  first_of (some s) o = some s

  unfoldable pub media_example : Bool → MediaType → Option String
  media_example generate_examples media =
      first_of (marshalled media.example)
        (first_of (first_example media.examples) (schema_example generate_examples media.schema))

  unfoldable pub content_example : Bool → Dict MediaType → String
  content_example generate_examples [] = default_example
  content_example generate_examples ((content_type, media) ∷ content) =
      let rest = content_example generate_examples content in
      if contains content_type "json"
      then elim (media_example generate_examples media) [ none ↦ rest | some s ↦ s ]
      else rest

  unfoldable pub example_of : Bool → Option (Dict MediaType) → String
  example_of generate_examples none = ""
  example_of generate_examples (some content) = content_example generate_examples content

  unfoldable pub extract_response_example : Bool → Option ResponseDescription → String
  extract_response_example generate_examples none = ""
  extract_response_example generate_examples (some response) =
      example_of generate_examples response.content
