-- ===== src/Loader/Tests.antt =====
-- Two directories, of which the first has a file that is no YAML and one without a status code.
use pmp_mock_http.Prelude.{pos, some, [], ◌∷◌, ◌==◌, if◌then◌else◌, ◌≡◌, refl}
use pmp_mock_http.Models.{Mock, empty_mock, empty_response}
use pmp_mock_http.Http.{ok, err}
use pmp_mock_http.Loader.Files.{
  file, directory, not_exist, unreadable, LoaderExternals, Loader, default_status, is_yaml_file,
  load_file, load_all, visit, add_loaded, walk_visits, and_then, failed_walk, load_dirs,
}
use pmp_mock_http.Loader.Order.{
  is_error, error_of, before_error, contents, all_visits, load_all-contents,
}

abbrev mock : Mock
mock = record empty_mock { name = "users" }

abbrev libraries : LoaderExternals
libraries = record {
  walk = λ dir.
      if dir == "mocks"
      then directory "mocks" ∷ file "readme.md" ∷ file "users.yaml" ∷ []
      else not_exist "plugins" ∷ unreadable "denied" ∷ file "late.yaml" ∷ [];
  read_file = λ path. ok path;
  unmarshal = λ text. if text == "users.yaml" then ok (record { mocks = mock ∷ [] }) else err "";
  ext = λ path. if path == "readme.md" then ".md" else ".yaml";
  to_lower = λ text. text;
}

abbrev loader : Loader
loader = record { mocks_dirs = "mocks" ∷ "plugins" ∷ []; mocks = [] }

load_all-contents_example :
    (is_error (load_all libraries loader).0
      ≡ is_error (error_of (all_visits libraries ("mocks" ∷ "plugins" ∷ []))))
    × ((load_all libraries loader).1.mocks
        ≡ contents libraries (before_error (all_visits libraries ("mocks" ∷ "plugins" ∷ []))))
load_all-contents_example = load_all-contents libraries loader

loaded : load_all libraries loader ≡ (
  some "failed to walk mocks directory plugins: denied",
  record loader {
    mocks = record mock { response = record empty_response { status_code = pos 200 } } ∷ [];
  },
)
unfolding load_all load_dirs walk_visits and_then failed_walk visit add_loaded load_file
    default_status is_yaml_file
loaded = refl
