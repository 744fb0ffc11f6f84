-- ===== src/Management/Filter.antt =====
-- `ListMocks` and `matchesFilter`. strings.ToLower is a parameter, strings.Contains is `contains`.
use pmp_mock_http.Prelude.{
  contains, ℕ, String, Bool, true, false, not, ◌&&◌, ◌||◌, Option, none, some, List, [], ◌∷◌, Dict,
  get, any, all, ltb, ◌==◌, if◌then◌else◌,
}
use pmp_mock_http.Matcher.Criteria.{is_empty}
use pmp_mock_http.Management.Types.{ManagedMock, MockFilter}
use pmp_mock_http.Management.Manager.{Manager}

-- A label that the filter asks for, looked up in a map that may be nil.
unfoldable pub has_label : Option (Dict String) → String × String → Bool
has_label none (key, value) = false
has_label (some labels) (key, value) = elim (get labels key) [ none ↦ false | some v ↦ v == value ]

-- `filter.X != nil && t.Before(*filter.X)`, and the same with After.
abbrev before : ℕ → Option ℕ → Bool
before t none = false
before t (some limit) = ltb t limit

abbrev after : ℕ → Option ℕ → Bool
after t none = false
after t (some limit) = ltb limit t

unfoldable pub has_tag : List String → List String → Bool
has_tag mock_tags filter_tags = any (λ f. any (λ t. t == f) mock_tags) filter_tags

module _ (to_lower : String → String) where
  unfoldable pub found : MockFilter → ManagedMock → Bool
  found filter mock =
      contains (to_lower mock.metadata.name) (to_lower filter.search)
      || contains (to_lower mock.metadata.description) (to_lower filter.search)

  -- Each early return of the source is a test that stops at `false`.
  unfoldable pub matches_filter : ManagedMock → MockFilter → Bool
  unfolding has_label has_tag found
  matches_filter mock filter =
      let meta = mock.metadata in
      (is_empty filter.tags || has_tag meta.tags filter.tags)
      && (all (has_label meta.labels) filter.labels
          && ((filter.source == "" || meta.source == filter.source)
              && ((filter.template == "" || meta.template == filter.template)
                  && ((filter.search == "" || found filter mock)
                      && (not (before meta.created_at filter.created_after)
                          && (not (after meta.created_at filter.created_before)
                              && (not (before meta.updated_at filter.updated_after)
                                  && not (after meta.updated_at filter.updated_before))))))))

  abbrev wanted : Option MockFilter → ManagedMock → Bool
  wanted none mock = true
  wanted (some filter) mock = matches_filter mock filter

  listed : Option MockFilter → Dict ManagedMock → List ManagedMock
  listed filter [] = []
  listed filter ((id, mock) ∷ rest) =
      let more = listed filter rest in if wanted filter mock then mock ∷ more else more

  -- In the source the order is that of a walk through a map, which is not specified.
  unfoldable pub list_mocks : Manager → Option MockFilter → List ManagedMock
  unfolding listed
  list_mocks m filter = listed filter m.mocks
