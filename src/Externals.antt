-- ===== src/Externals.antt =====
-- What the program calls and does not implement: the regular expressions and the case folding of
-- Go's library, and the JSON, JSON Schema and JavaScript libraries (gjson, gojsonschema, goja). An
-- operation that may return an error has an `Option` for its result, `none` for the error.
pub mod Sample
use pmp_mock_http.Prelude.{
  ℕ, String, Bool, true, false, ◌&&◌, Option, List, [], ◌∷◌, Dict, ◌≡◌, ◌↔◌, map, codes, nat_eq,
  arith,
}
use pmp_mock_http.Models.{Value}

-- The object that `evaluateJavaScript` hands to a script under the name `request`.
pub record ScriptRequest : Type 0 where
  pub uri : String
  pub method : String
  pub headers : Dict String
  pub body : String

-- `VM` is the state of a goja runtime, with all that the scripts stored in it.
pub record Externals (VM : Type 0) : Type 0 where
  -- one representative of the runes that simple Unicode case folding identifies
  pub simple_fold : ℕ → ℕ
  -- regexp.MatchString(pattern, value)
  pub match_regexp : String → String → Option Bool
  -- textproto.CanonicalMIMEHeaderKey
  pub canonical_key : String → String
  -- gjson.Valid(body)
  pub json_valid : String → Bool
  -- gjson.Get(body, path): `none` if the result does not exist, else its String()
  pub json_get : String → String → Option String
  -- json.Marshal of a schema
  pub marshal : Dict Value → Option String
  -- gojsonschema.Validate(schema, document), then Valid()
  pub validate : String → String → Option Bool
  -- globalVM.Set("request", obj)
  pub set_request : VM → ScriptRequest → Option VM
  -- globalVM.RunString(script), then Export(): a script that fails may have changed the state; one
  -- that does not return, with which the search does not return either, has no place here
  pub run_string : VM → String → VM × Option Value

same_codes : List ℕ → List ℕ → Bool
same_codes [] [] = true
same_codes (a ∷ cs) (b ∷ bs) = nat_eq a b && same_codes cs bs
same_codes _ _ = false

module _ {VM : Type 0} (x : Externals VM) where
  -- strings.EqualFold: equality under simple Unicode case folding, rune by rune.
  unfoldable pub equal_fold : String → String → Bool
  unfolding same_codes
  equal_fold s t = same_codes (map x.simple_fold (codes s)) (map x.simple_fold (codes t))

same_codes_iff : (cs bs : List ℕ) → (same_codes cs bs ≡ true) ↔ (cs ≡ bs)
unfolding same_codes
same_codes_iff [] [] = ground arith
same_codes_iff [] (b ∷ bs) = ground arith
same_codes_iff (a ∷ cs) [] = ground arith
same_codes_iff (a ∷ cs) (b ∷ bs) = ground (arith, same_codes_iff cs bs)

pub equal_fold_iff :
    {VM : Type 0} (x : Externals VM) (s t : String)
    → (equal_fold x s t ≡ true) ↔ (map x.simple_fold (codes s) ≡ map x.simple_fold (codes t))
unfolding equal_fold
equal_fold_iff x s t = same_codes_iff _ _
