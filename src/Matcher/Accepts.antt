-- ===== src/Matcher/Accepts.antt =====
-- What it means for a request to meet a mock's criteria, and that `matches` decides it.
use pmp_mock_http.Prelude.{
  String, Bool, true, false, Option, none, some, List, [], ◌∷◌, Dict, get, any, ◌==◌, if◌then◌else◌,
  ◌≡◌, ◌↔◌, ◌⊎◌, inl, inr, refl, map, codes, All, Any, all_iff, any_iff, &&-true, &&-intro, arith,
  eq_iff, Bool-cases, Option-cases,
}
use pmp_mock_http.Models.{Mock, JsonPathMatcher, Value}
use pmp_mock_http.Http.{HttpRequest, Header}
use pmp_mock_http.Externals.{Externals, equal_fold, equal_fold_iff}
use pmp_mock_http.Matcher.Criteria.{
  is_empty, regexp_matches, match_string, pair_matched, header_matched, match_headers, path_matched,
  match_json_path, validate_schema, matches,
}

module _ {VM : Type 0} (x : Externals VM) where
  abbrev pub SameFold : String → String → Type 0
  SameFold s t = map x.simple_fold (codes s) ≡ map x.simple_fold (codes t)

  abbrev pub FitsRegexp : String → String → Type 0
  FitsRegexp pattern value = x.match_regexp pattern value ≡ some true

  -- An empty pattern is met by all; another by its regular expression, or up to case.
  abbrev pub MeetsPattern : String → String → Bool → Type 0
  MeetsPattern value pattern use_regex =
      (pattern ≡ "") ⊎ (if use_regex then FitsRegexp pattern value else SameFold value pattern)

  -- One of the mock's headers: some header of the request, and some value of it.
  abbrev pub MeetsHeader : Header → Bool → String × String → Type 0
  MeetsHeader h true (k, v) =
      Any (λ (e : String × List String). FitsRegexp k e.0 × Any (FitsRegexp v) e.1) h
  MeetsHeader h false (k, v) =
      (vs : List String) × (get h (x.canonical_key k) ≡ some vs) × Any (λ s. SameFold s v) vs

  abbrev pub MeetsPath : String → JsonPathMatcher → Type 0
  MeetsPath body m =
      (found : String) × (x.json_get body m.path ≡ some found)
      × (if m.regex then FitsRegexp m.value found else found ≡ m.value)

  abbrev pub MeetsSchema : String → Dict Value → Type 0
  MeetsSchema body schema =
      (json : String) × (x.marshal schema ≡ some json) × (x.validate json body ≡ some true)

  pub record Meets (r : HttpRequest) (body : String) (mock : Mock) : Type 0 where
    pub uri : MeetsPattern r.path mock.request.uri mock.request.is_regex.uri
    pub method : MeetsPattern r.method mock.request.method mock.request.is_regex.method
    pub headers : All (MeetsHeader r.header mock.request.is_regex.headers) mock.request.headers
    pub body_text : MeetsPattern body mock.request.body mock.request.is_regex.body
    pub json_path :
        (mock.request.json_path ≡ [])
        ⊎ ((x.json_valid body ≡ true) × All (MeetsPath body) mock.request.json_path)
    pub schema :
        (mock.request.validate_schema ≡ [])
        ⊎ ((x.json_valid body ≡ true) × MeetsSchema body mock.request.validate_schema)

  regexp_matches_iff : (p v : String) → (regexp_matches x p v ≡ true) ↔ FitsRegexp p v
  unfolding regexp_matches
  regexp_matches_iff p v = ground arith

  match_string_iff :
      (value pattern : String) (use_regex : Bool)
      → (match_string x value pattern use_regex ≡ true) ↔ MeetsPattern value pattern use_regex
  unfolding match_string
  match_string_iff value pattern use_regex =
      ground (arith, eq_iff pattern "", equal_fold_iff x value pattern)

  pair_matched_iff :
      (k v : String) (e : String × List String)
      → (pair_matched x k v e ≡ true) ↔ (FitsRegexp k e.0 × Any (FitsRegexp v) e.1)
  unfolding pair_matched
  pair_matched_iff k v (rk, vs) =
      let (to, from) = any_iff (regexp_matches x v) (FitsRegexp v) (regexp_matches_iff v) vs in
      let (to_k, from_k) = regexp_matches_iff k rk in
      (λ h. (to_k (&&-true h).0, to (&&-true h).1), λ h. &&-intro (from_k h.0) (from h.1))

  exact_iff :
      (found : Option (List String)) (v : String)
      → (any (λ s. equal_fold x s v) (elim found [ none ↦ [] | some vs ↦ vs ]) ≡ true)
        ↔ ((vs : List String) × (found ≡ some vs) × Any (λ s. SameFold s v) vs)
  exact_iff none v = ((λ h. cc), (λ h. cc (h.1)))
  exact_iff (some vs) v =
      let (to, from) =
        any_iff (λ s. equal_fold x s v) (λ s. SameFold s v) (λ s. equal_fold_iff x s v) vs in
      (
        λ h. (vs, refl, to h),
        λ (ws, e, some_of). (let same : vs ≡ ws = cc in from (rw same some_of)),
      )

  header_matched_iff :
      (h : Header) (use_regex : Bool) (e : String × String)
      → (header_matched x h use_regex e ≡ true) ↔ MeetsHeader h use_regex e
  unfolding header_matched
  header_matched_iff h true (k, v) = any_iff (pair_matched x k v) _ (pair_matched_iff k v) h
  header_matched_iff h false (k, v) = exact_iff (get h (x.canonical_key k)) v

  path_matched_iff :
      (body : String) (m : JsonPathMatcher) → (path_matched x body m ≡ true) ↔ MeetsPath body m
  unfolding path_matched
  path_matched_iff body m = elim (Option-cases (x.json_get body m.path)) [
    | inl missing ↦ ((λ h. ground arith), (λ h. cc (h.1)))
    | inr (found, e) ↦ (
      (λ h. (found, e, ground (arith, eq_iff found m.value))),
      λ (other, e', meets). ground (arith, eq_iff found m.value),
    )
  ]

  validate_schema_iff :
      (body : String) (schema : Dict Value)
      → (validate_schema x body schema ≡ true)
        ↔ ((x.json_valid body ≡ true) × MeetsSchema body schema)
  unfolding validate_schema
  validate_schema_iff body schema = elim (Option-cases (x.marshal schema)) [
    | inl failed ↦ ((λ h. ground arith), (λ h. cc (h.1.1)))
    | inr (json, e) ↦
        ((λ h. (ground arith, (json, e, ground arith))), λ (valid, (other, e', v)). ground arith)
  ]

  match_json_path_iff :
      (body : String) (ms : List JsonPathMatcher)
      → (match_json_path x body ms ≡ true) ↔ ((x.json_valid body ≡ true) × All (MeetsPath body) ms)
  unfolding match_json_path
  match_json_path_iff body ms =
      ground (arith, all_iff (path_matched x body) (MeetsPath body) (path_matched_iff body) ms)

  is_empty-or_iff {ℓ} :
      {A : Type ℓ} (xs : List A) (b : Bool) (P : Type 0)
      → (b ≡ true) ↔ P
      → ((if is_empty xs then true else b) ≡ true) ↔ ((xs ≡ []) ⊎ P)
  is_empty-or_iff [] b P agree = ground arith
  is_empty-or_iff (y ∷ ys) b P agree = ground arith

  body_iff :
      (body pattern : String) (use_regex : Bool)
      → ((if pattern == "" then true else match_string x body pattern use_regex) ≡ true)
        ↔ MeetsPattern body pattern use_regex
  body_iff body pattern use_regex =
      let (to, from) = match_string_iff body pattern use_regex in
      elim (Bool-cases (pattern == "")) [
        | inl empty ↦ ((λ h. inl ((eq_iff pattern "").0 empty)), (λ h. rw empty))
        | inr given ↦ ((λ h. to (rw given at h)), (λ h. rw given (from h)))
      ]

  json_path_iff :
      (body : String) (ms : List JsonPathMatcher)
      → ((if is_empty ms then true else match_json_path x body ms) ≡ true)
        ↔ ((ms ≡ []) ⊎ ((x.json_valid body ≡ true) × All (MeetsPath body) ms))
  json_path_iff body ms = is_empty-or_iff ms _ _ (match_json_path_iff body ms)

  schema_iff :
      (body : String) (schema : Dict Value)
      → ((if is_empty schema then true else validate_schema x body schema) ≡ true)
        ↔ ((schema ≡ []) ⊎ ((x.json_valid body ≡ true) × MeetsSchema body schema))
  schema_iff body schema = is_empty-or_iff schema _ _ (validate_schema_iff body schema)

  match_headers_iff :
      (h : Header) (ms : Dict String) (use_regex : Bool)
      → (match_headers x h ms use_regex ≡ true) ↔ All (MeetsHeader h use_regex) ms
  unfolding match_headers
  match_headers_iff h ms use_regex =
      all_iff (header_matched x h use_regex) (MeetsHeader h use_regex)
        (header_matched_iff h use_regex) ms

  module _ (r : HttpRequest) (body : String) (mock : Mock) where
    matches_sound : matches x r body mock ≡ true → Meets r body mock
    unfolding matches
    matches_sound h =
        let (u, h1) = &&-true h in
        let (m, h2) = &&-true h1 in
        let (hd, h3) = &&-true h2 in
        let (b, h4) = &&-true h3 in
        let (j, s) = &&-true h4 in
        record {
          uri = (match_string_iff r.path mock.request.uri mock.request.is_regex.uri).0 u;
          method = (match_string_iff r.method mock.request.method mock.request.is_regex.method).0 m;
          headers =
              (match_headers_iff r.header mock.request.headers mock.request.is_regex.headers).0 hd;
          body_text = (body_iff body mock.request.body mock.request.is_regex.body).0 b;
          json_path = (json_path_iff body mock.request.json_path).0 j;
          schema = (schema_iff body mock.request.validate_schema).0 s;
        }

    matches_complete : Meets r body mock → matches x r body mock ≡ true
    unfolding matches
    matches_complete k =
        &&-intro ((match_string_iff r.path mock.request.uri mock.request.is_regex.uri).1 k.uri) (
          &&-intro
            ((match_string_iff r.method mock.request.method mock.request.is_regex.method).1
              k.method)
            (&&-intro
              ((match_headers_iff r.header mock.request.headers mock.request.is_regex.headers).1
                k.headers)
              (&&-intro ((body_iff body mock.request.body mock.request.is_regex.body).1 k.body_text)
                (&&-intro ((json_path_iff body mock.request.json_path).1 k.json_path)
                  ((schema_iff body mock.request.validate_schema).1 k.schema)))))

  pub matches_iff :
      (r : HttpRequest) (body : String) (mock : Mock)
      → (matches x r body mock ≡ true) ↔ Meets r body mock
  matches_iff r body mock = (matches_sound r body mock, matches_complete r body mock)
