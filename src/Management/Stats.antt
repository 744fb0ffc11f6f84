-- ===== src/Management/Stats.antt =====
-- `GetStats`.
use pmp_mock_http.Prelude.{
  ℕ, ◌+◌, String, none, some, List, [], ◌∷◌, Dict, get, insert, length, ◌==◌, if◌then◌else◌,
}
use pmp_mock_http.Management.Types.{ManagedMock, MockVersion, MockStats}
use pmp_mock_http.Management.Manager.{Manager}

-- `counts[key]++`
unfoldable pub bump : Dict ℕ → String → Dict ℕ
bump counts key = insert counts key (elim (get counts key) [ none ↦ 1 | some n ↦ n + 1 ])

bump_all : Dict ℕ → List String → Dict ℕ
bump_all counts [] = counts
bump_all counts (key ∷ keys) = bump_all (bump counts key) keys

-- One round of the loop over the mocks.
count_mock : MockStats → ManagedMock → MockStats
unfolding bump bump_all
count_mock stats mock =
    let meta = mock.metadata in
    record stats {
      mocks_by_source = bump stats.mocks_by_source meta.source;
      mocks_by_template =
          if meta.template == ""
          then stats.mocks_by_template
          else bump stats.mocks_by_template meta.template;
      mocks_by_tag = bump_all stats.mocks_by_tag meta.tags;
    }

count_mocks : MockStats → Dict ManagedMock → MockStats
count_mocks stats [] = stats
count_mocks stats ((id, mock) ∷ rest) = count_mocks (count_mock stats mock) rest

count_versions : Dict (List MockVersion) → ℕ
count_versions [] = 0
count_versions ((id, versions) ∷ rest) = length versions + count_versions rest

unfoldable pub get_stats : Manager → MockStats
unfolding count_mocks count_mock count_versions
get_stats m =
    record (count_mocks
      (record {
        total_mocks = length m.mocks;
        mocks_by_source = [];
        mocks_by_template = [];
        mocks_by_tag = [];
        total_versions = 0;
        templates = length m.templates;
      })
      m.mocks) { total_versions = count_versions m.versions }
