-- ===== src/GraphQl/First.antt =====
-- The response to a request is that of the first operation it matches.
use pmp_mock_http.Prelude.{
  ℕ, suc, String, some, List, [], ◌∷◌, get_elem?, take, ◌≡◌, refl, ◌⊎◌, inl, inr, Bool-cases, All,
}
use pmp_mock_http.Models.{Value}
use pmp_mock_http.GraphQl.Types.{GraphQlOperation, GraphQlRequest, GraphQlResponse}
use pmp_mock_http.GraphQl.Operations.{error_response, matches_operation, first_matching}
use pmp_mock_http.GraphQl.Matching.{Matches, matches_operation_iff}
use pmp_mock_http.GraphQl.Handler.{Handler, GraphQlExternals, find_matching_operation}

abbrev pub response_of : GraphQlOperation → GraphQlResponse
response_of op = record {
  response_data = op.response;
  errors = op.errors;
  extensions = op.extensions;
}

module _ (print : Value → String) (req : GraphQlRequest) where
  -- The response is that of an operation that the request matches, after others that it does not
  -- match; or it is the error, and the request matches none.
  abbrev pub IsFirst : List GraphQlOperation → GraphQlResponse → Type 0
  IsFirst ops response =
      ((i : ℕ) × ((op : GraphQlOperation) × (get_elem? ops i ≡ some op)
          × Matches print req op
          × All (λ earlier. ¬ Matches print req earlier) (take i ops)
          × (response ≡ response_of op)))
      ⊎ (All (λ op. ¬ Matches print req op) ops
          × (response ≡ error_response "No matching GraphQL operation found"))

  IsFirst-later :
      (op : GraphQlOperation) (ops : List GraphQlOperation) (response : GraphQlResponse)
      → ¬ Matches print req op
      → IsFirst ops response
      → IsFirst (op ∷ ops) response
  IsFirst-later op ops response no' (inl (i, (first, found, fits, earlier, e))) =
      inl (suc i, (first, found, fits, (no', earlier), e))
  IsFirst-later op ops response no' (inr (none_fits, e)) = inr ((no', none_fits), e)

  first_matching-IsFirst :
      (ops : List GraphQlOperation) → IsFirst ops (first_matching print req ops)
  unfolding first_matching
  first_matching-IsFirst [] = inr (tt, refl)
  first_matching-IsFirst (op ∷ ops) =
      let fits = matches_operation_iff print req op in
      elim (Bool-cases (matches_operation print req op)) [
        | inl here ↦ rw here (inl (0, (op, refl, fits.0 here, tt, refl)))
        | inr there ↦ rw there (
            IsFirst-later op ops (first_matching print req ops) (λ m. absurd (cc (fits.1 m, there)))
              (first_matching-IsFirst ops))
      ]

-- The response to a request is that of the first configured operation that it matches; if it matches
-- none, it is the error that says so. A request matches an operation if it names no operation or this
-- one, each of the operation's variables is given with a value that prints alike, and its query has
-- the words of the operation's (outside of lines that start with "#"); in the mode "partial" it need
-- only contain that query once both are normalised, and in the mode "regex" any query will do.
pub find_matching_operation-IsFirst :
    (x : GraphQlExternals) (h : Handler) (req : GraphQlRequest)
    → IsFirst x.print req h.operations (find_matching_operation x h req)
unfolding find_matching_operation
find_matching_operation-IsFirst x h req = first_matching-IsFirst x.print req h.operations
