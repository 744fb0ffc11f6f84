-- ===== src/Loader/Files.antt =====
-- `Loader` and its operations.
use pmp_mock_http.Prelude.{
  pos, eq_ℤ, String, ◌<>◌, Bool, ◌||◌, Option, none, some, List, [], ◌∷◌, ◌++◌, map, ◌==◌,
  if◌then◌else◌,
}
use pmp_mock_http.Models.{Mock, MockSpec}
use pmp_mock_http.Http.{Result, ok, err, panicked, ◌>>=◌}

-- A call that filepath.Walk makes of its function: for a file or a directory, or with an error,
-- which os.IsNotExist may hold of. The walk ends with the first error that the function returns.
pub data Visit : Type 0 where
  file : String → Visit
  directory : String → Visit
  not_exist : String → Visit
  unreadable : String → Visit

pub record LoaderExternals : Type 0 where
  pub walk : String → List Visit
  -- os.ReadFile, and yaml.Unmarshal into a MockSpec
  pub read_file : String → Result String
  pub unmarshal : String → Result MockSpec
  -- filepath.Ext and strings.ToLower
  pub ext : String → String
  pub to_lower : String → String

pub record Loader : Type 0 where
  pub mocks_dirs : List String
  pub mocks : List Mock

unfoldable pub new_loader : List String → Loader
new_loader mocks_dirs = record { mocks_dirs = mocks_dirs; mocks = [] }

unfoldable pub get_mocks : Loader → List Mock
get_mocks l = l.mocks

-- A status code that is not specified becomes 200.
unfoldable pub default_status : Mock → Mock
default_status mock =
    if eq_ℤ mock.response.status_code (pos 0)
    then record mock { response = record mock.response { status_code = pos 200 } }
    else mock

module _ (x : LoaderExternals) where
  unfoldable pub is_yaml_file : String → Bool
  is_yaml_file path = let ext = x.to_lower (x.ext path) in (ext == ".yaml") || (ext == ".yml")

  -- The mocks of a file, or its error.
  unfoldable pub load_file : String → Result (List Mock)
  load_file path = do
    text ← x.read_file path
    spec ← x.unmarshal text
    ok (map default_status spec.mocks)

  -- A file that cannot be loaded is only warned of.
  unfoldable pub add_loaded : List Mock → Result (List Mock) → List Mock
  add_loaded mocks (ok loaded) = mocks ++ loaded
  add_loaded mocks (err e) = mocks
  add_loaded mocks panicked = mocks

  -- The function that is walked with: the error that it returns, and the mocks.
  unfoldable pub visit : Visit → List Mock → Option String × List Mock
  visit (not_exist path) mocks = (none, mocks)
  visit (unreadable e) mocks = (some e, mocks)
  visit (directory path) mocks = (none, mocks)
  visit (file path) mocks =
      (none, if is_yaml_file path then add_loaded mocks (load_file path) else mocks)

  unfoldable pub and_then :
      Option String × List Mock
      → (List Mock → Option String × List Mock)
      → Option String × List Mock
  and_then (none, mocks) next = next mocks
  and_then (some e, mocks) next = (some e, mocks)

  unfoldable pub walk_visits : List Visit → List Mock → Option String × List Mock
  walk_visits [] mocks = (none, mocks)
  walk_visits (v ∷ vs) mocks = and_then (visit v mocks) (walk_visits vs)

  unfoldable pub failed_walk : String → Option String × List Mock → Option String × List Mock
  failed_walk dir (none, mocks) = (none, mocks)
  failed_walk dir (some e, mocks) =
      (some ("failed to walk mocks directory " <> dir <> ": " <> e), mocks)

  unfoldable pub load_dirs : List String → List Mock → Option String × List Mock
  load_dirs [] mocks = (none, mocks)
  load_dirs (dir ∷ dirs) mocks =
      and_then (failed_walk dir (walk_visits (x.walk dir) mocks)) (load_dirs dirs)

  -- The error, if any, and the loader, which keeps what was loaded before an error.
  unfoldable pub load_all : Loader → Option String × Loader
  load_all l = let (e, mocks) = load_dirs l.mocks_dirs [] in (e, record l { mocks = mocks })
