-- ===== src/Management/Tests.antt =====
-- Managers after some calls, and the management's theorems there.
use pmp_mock_http.Prelude.{
  ◌<>◌, ℕ, decimal, pos, insert, none, some, List, [], ◌∷◌, get, ◌≡◌, refl, ◌⊎◌,
}
use pmp_mock_http.Models.{empty_mock}
use pmp_mock_http.Http.{ok, err, panicked}
use pmp_mock_http.Management.Types.{
  ManagedMock, MockVersion, CreateMockRequest, UpdateMockRequest, ImportRequest, json,
}
use pmp_mock_http.Management.Manager.{
  Manager, new_manager, create_mock, created_mock, update_mock, get_mock, get_version, signed,
  rollback_to_version, initial_version, updated_mock, commit, get_version_history, find_version,
}
use pmp_mock_http.Management.Transfer.{Codec, import_from}
use pmp_mock_http.Management.Valid.{IsValid}
use pmp_mock_http.Management.Steps.{
  Call, creates, updates, deletes, rolls_back, step, run, run_manager-IsValid,
}
use pmp_mock_http.Management.Versions.{IsVersionOf, get_version-exact, rollback_to_version-restores}
use pmp_mock_http.Management.Immutable.{step-keeps_version}
use pmp_mock_http.Management.Imports.{import_from-outcome}

abbrev wanted : CreateMockRequest
wanted = record {
  mock = record empty_mock { name = "first" };
  tags = "a" ∷ [];
  labels = none;
  description = "";
  author = "ann";
  template = "";
}

abbrev change : UpdateMockRequest
change = record {
  mock = some (record empty_mock { name = "second" });
  tags = none;
  labels = none;
  description = some "changed";
  comment = "edit";
  author = "bob";
}

abbrev bare : ManagedMock
bare = record {
  metadata = record {
    id = "";
    name = "";
    version = 1;
    tags = [];
    labels = none;
    description = "";
    author = "";
    created_at = 0;
    updated_at = 0;
    source = "";
    template = "";
  };
  mock = empty_mock;
}

-- A codec that reads every text as one mock with no labels, and writes nothing.
abbrev codec : Codec
codec = record { marshal = λ mocks. none; unmarshal = λ text. some (bare ∷ []) }

abbrev calls : List Call
calls = creates 5 wanted ∷ updates 6 "mock-1" change ∷ []

abbrev edited : Manager
edited = run codec codec new_manager calls

abbrev created : ManagedMock
created = record {
  metadata = record {
    id = "mock-1";
    name = "first";
    version = 1;
    tags = "a" ∷ [];
    labels = none;
    description = "";
    author = "ann";
    created_at = 5;
    updated_at = 5;
    source = "api";
    template = "";
  };
  mock = record empty_mock { name = "first" };
}

abbrev current : ManagedMock
current = record {
  metadata = record created.metadata { version = 2; description = "changed"; updated_at = 6 };
  mock = record empty_mock { name = "second" };
}

abbrev first_version : MockVersion
first_version = record {
  version = 1;
  mock = record empty_mock { name = "first" };
  changed_by = "ann";
  timestamp = 5;
  comment = "Initial version";
}

run_manager-IsValid_example : IsValid (run codec codec new_manager calls)
run_manager-IsValid_example = run_manager-IsValid codec codec calls

edited-stored : get_mock edited "mock-1" ≡ ok current
unfolding run step create_mock created_mock update_mock updated_mock commit get_mock new_manager get
    insert decimal
edited-stored = refl

edited-known : get_version edited "mock-1" (pos 1) ≡ ok first_version
unfolding run step create_mock created_mock initial_version update_mock updated_mock commit
    get_version get_version_history find_version new_manager get insert decimal
edited-known = refl

get_version-exact_example :
    ((n : ℕ) × (v : MockVersion) × IsVersionOf (pos 2) n current
      × (get_version edited "mock-1" (pos 2) ≡ ok v)
      × (v.version ≡ n))
    ⊎ ((¬ ((n : ℕ) × IsVersionOf (pos 2) n current))
        × (get_version edited "mock-1" (pos 2) ≡ err ("version not found: " <> signed (pos 2))))
get_version-exact_example =
    get_version-exact edited "mock-1" current (pos 2) run_manager-IsValid_example edited-stored

rollback_to_version-restores_example :
    (restored : ManagedMock) × (m' : Manager) × (rollback_to_version edited 7 "mock-1" (pos 1) "cat"
      ≡ (ok restored, m'))
    × (get_mock m' "mock-1" ≡ ok restored)
    × (restored.mock ≡ record empty_mock { name = "first" })
    × (restored.metadata.version ≡ 3)
    × ((v : MockVersion) × (get_version m' "mock-1" (pos restored.metadata.version) ≡ ok v)
        × (v.mock ≡ record empty_mock { name = "first" }))
rollback_to_version-restores_example =
    rollback_to_version-restores edited 7 "mock-1" (pos 1) "cat" current first_version
      run_manager-IsValid_example edited-stored edited-known

step-keeps_version_example :
    (get_version (step codec codec edited (rolls_back 7 "mock-1" (pos 1) "cat")) "mock-1" (pos 1)
      ≡ ok first_version)
    ⊎ ((rolls_back 7 "mock-1" (pos 1) "cat" ≡ deletes "mock-1")
        × (get (step codec codec edited (rolls_back 7 "mock-1" (pos 1) "cat")).versions "mock-1"
            ≡ none))
step-keeps_version_example =
    step-keeps_version codec codec edited (rolls_back 7 "mock-1" (pos 1) "cat") "mock-1" (pos 1)
      first_version run_manager-IsValid_example edited-known

abbrev from_git : ImportRequest
from_git = record { format = json; import_data = ""; source = "git"; tags = [] }

import_from-outcome_example : (import_from edited 8 from_git 0 (bare ∷ [])).0 ≡ panicked
import_from-outcome_example = import_from-outcome edited 8 from_git 0 (bare ∷ [])
