-- ===== src/GraphQl/Matching.antt =====
-- What it takes for a request to match an operation.
use pmp_mock_http.Prelude.{
  ap, String, true, false, not, ◌&&◌, some, List, [], ◌∷◌, Dict, get, contains, ◌==◌, ◌≡◌, ◌≢◌,
  refl, sym, ◌∙◌, ◌↔◌, ◌⊎◌, inl, inr, arith, true-ne-false, eq_of_==, ==_of_eq, Bool-cases,
  Option-cases, eq_iff, All,
}
use pmp_mock_http.Models.{Value}
use pmp_mock_http.Matcher.Criteria.{is_empty}
use pmp_mock_http.GraphQl.Types.{GraphQlOperation, GraphQlRequest}
use pmp_mock_http.GraphQl.Query.{normalize_query}
use pmp_mock_http.GraphQl.Operations.{
  exact_query, partial_query, query_matches, variable_matches, match_variables, matches_operation,
}
use pmp_mock_http.GraphQl.Words.{query_words, normalize_query-eq_iff}

-- The query has the words of the operation's, or for "partial" contains it once normalised; for
-- "regex" it is any query.
abbrev pub QueryMatches : GraphQlRequest → GraphQlOperation → Type 0
QueryMatches req op =
    ((op.match_mode ≡ "regex")
      ⊎ ((op.match_mode ≡ "partial")
          × (contains (normalize_query req.query) (normalize_query op.query) ≡ true)))
    ⊎ ((op.match_mode ≢ "regex")
        × (op.match_mode ≢ "partial")
        × (query_words req.query ≡ query_words op.query))

exact_query_iff :
    (req : GraphQlRequest) (op : GraphQlOperation)
    → (exact_query req op ≡ true) ↔ (query_words req.query ≡ query_words op.query)
unfolding exact_query
exact_query_iff req op =
    let same = eq_iff (normalize_query req.query) (normalize_query op.query) in
    let words = normalize_query-eq_iff req.query op.query in
    (λ h. words.0 (same.0 h), λ h. same.1 (words.1 h))

partial_case :
    (req : GraphQlRequest) (op : GraphQlOperation)
    → (op.match_mode == "exact") ≡ false
    → (op.match_mode == "partial") ≡ true
    → query_matches req op ≡ contains (normalize_query req.query) (normalize_query op.query)
unfolding query_matches partial_query
partial_case req op e p = rw e (rw p refl)

regex-ne-partial : ◌≢◌ {A = String} "regex" "partial"
regex-ne-partial e = true-ne-false (ap (λ m. m == "regex") e)

query_matches_iff :
    (req : GraphQlRequest) (op : GraphQlOperation)
    → (query_matches req op ≡ true) ↔ QueryMatches req op
unfolding query_matches
query_matches_iff req op = elim (Bool-cases (op.match_mode == "partial")) [
  | inl partial ↦
      let mode = (eq_iff op.match_mode "partial").0 partial in
      let no_exact : (op.match_mode == "exact") ≡ false = ap (λ m. m == "exact") mode in
      let case = partial_case req op no_exact partial in
      (
        λ h. inl (inr (mode, sym case ∙ h)),
        λ h. elim h [
          | inl (inl e) ↦ absurd (regex-ne-partial (sym e ∙ mode))
          | inl (inr (e, c)) ↦ case ∙ c
          | inr (e, e', words) ↦ absurd (e' mode)
        ],
      )
  | inr whole ↦ elim (Bool-cases (op.match_mode == "regex")) [
    | inl regex ↦
        let mode = (eq_iff op.match_mode "regex").0 regex in
        (
          λ h. inl (inl mode),
          λ h.
              let no_exact : (op.match_mode == "exact") ≡ false = ap (λ m. m == "exact") mode in
              rw no_exact (rw whole (rw regex refl)),
        )
    | inr other ↦
        let no_partial : op.match_mode ≢ "partial" =
          λ e. absurd (ground (arith, e, whole, eq_iff op.match_mode "partial")) in
        let no_regex : op.match_mode ≢ "regex" =
          λ e. absurd (ground (arith, e, other, eq_iff op.match_mode "regex")) in
        (
          λ h.
              inr (
                no_regex,
                no_partial,
                (exact_query_iff req op).0 (ground (arith, h, whole, other)),
              ),
          λ h. elim h [
            | inl (inl e) ↦ absurd (no_regex e)
            | inl (inr (e, c)) ↦ absurd (no_partial e)
            | inr (e, e', words) ↦
                let exact = (exact_query_iff req op).1 words in ground (arith, whole, other, exact)
          ],
        )
  ]
]

-- The request names no operation or this one, its query matches, and each of the operation's
-- variables is given with a value that prints alike.
module _ (print : Value → String) (req : GraphQlRequest) where
  abbrev VariableMatches : String × Value → Type 0
  VariableMatches (key, expected) =
      (v : Value) × (get req.variables key ≡ some v) × (print v ≡ print expected)

  abbrev pub Matches : GraphQlOperation → Type 0
  Matches op =
      ((req.operation_name ≡ "") ⊎ (req.operation_name ≡ op.name))
      × QueryMatches req op
      × All VariableMatches op.variables

  variable_matches_iff :
      (key : String) (expected : Value)
      → (variable_matches print (get req.variables key) expected ≡ true)
        ↔ VariableMatches (key, expected)
  unfolding variable_matches
  variable_matches_iff key expected = elim (Option-cases (get req.variables key)) [
    | inl missing ↦
        (λ h. absurd (cc (rw missing at h)), λ (v, found, same). absurd (cc (missing, found)))
    | inr (v, found) ↦ (
      λ h. (v, found, (eq_iff (print v) (print expected)).0 (rw found at h)),
      λ (w, found', same). rw found' ((eq_iff (print w) (print expected)).1 same),
    )
  ]

  match_variables_iff :
      (expected : List (String × Value))
      → (match_variables print req.variables expected ≡ true) ↔ All VariableMatches expected
  unfolding match_variables
  match_variables_iff [] = (λ h. tt, λ h. refl)
  match_variables_iff ((key, v) ∷ rest) =
      let first = variable_matches_iff key v in
      let more = match_variables_iff rest in
      elim (Bool-cases (variable_matches print (get req.variables key) v)) [
        | inl yes' ↦ (λ h. (first.0 yes', more.0 (rw yes' at h)), λ (f, ms). rw yes' (more.1 ms))
        | inr no' ↦ (λ h. absurd (cc (rw no' at h)), λ (f, ms). absurd (cc (first.1 f, no')))
      ]

  -- An operation without variables asks nothing of the request's.
  variables_iff :
      (expected : Dict Value)
      → ((not (is_empty expected) && not (match_variables print req.variables expected)) ≡ false)
        ↔ All VariableMatches expected
  variables_iff [] = (λ h. tt, λ h. refl)
  variables_iff (e ∷ expected) =
      let all = match_variables_iff (e ∷ expected) in
      (λ h. all.0 (ground (arith, h)), λ h. let m = all.1 h in rw m refl)

  name_iff :
      (name : String)
      → ((not (req.operation_name == "") && not (req.operation_name == name)) ≡ false)
        ↔ ((req.operation_name ≡ "") ⊎ (req.operation_name ≡ name))
  name_iff name = elim (Bool-cases (req.operation_name == "")) [
    | inl empty ↦ (λ h. inl (eq_of_== _ _ empty), λ h. rw empty refl)
    | inr given ↦ elim (Bool-cases (req.operation_name == name)) [
      | inl same ↦ (λ h. inr (eq_of_== _ _ same), λ h. rw given (rw same refl))
      | inr other ↦ (
        λ h. absurd (cc (rw other at (rw given at h))),
        λ h. elim h [
          | inl e ↦ absurd (cc (==_of_eq _ _ e, given))
          | inr e ↦ absurd (cc (==_of_eq _ _ e, other))
        ],
      )
    ]
  ]

  pub matches_operation_iff :
      (op : GraphQlOperation) → (matches_operation print req op ≡ true) ↔ Matches op
  unfolding matches_operation
  matches_operation_iff op =
      let named = name_iff op.name in
      let query = query_matches_iff req op in
      let given = variables_iff op.variables in
      (
        λ h.
            (named.0 (ground (arith, h)), query.0 (ground (arith, h)), given.0 (ground (arith, h))),
        λ (n, q, v).
            let a = named.1 n in let b = query.1 q in let c = given.1 v in ground (arith, a, b, c),
      )
