-- ===== src/Management/Manager.antt =====
-- internal/management/manager.go: the store of managed mocks. Each method runs under the lock and
-- is one step; the readings of the clock within a call are one argument `now`. A managed mock is
-- reached through the store only, so that a change through the stored pointer is an `insert`.
use pmp_mock_http.Prelude.{
  ℕ, suc, ◌+◌, ℤ, pos, negsuc, String, ◌<>◌, decimal, Bool, false, Option, none, some, List, [],
  ◌∷◌, ◌++◌, Dict, get, insert, delete, nat_eq, ◌==◌, ◌||◌, if◌then◌else◌,
}
use pmp_mock_http.Models.{Mock}
use pmp_mock_http.Http.{Result, ok, err, ◌>>=◌}
use pmp_mock_http.Management.Types.{
  ManagedMock, MockVersion, MockTemplate, CreateMockRequest, UpdateMockRequest,
  CreateTemplateRequest, InstantiateTemplateRequest,
}

pub record Manager : Type 0 where
  pub mocks : Dict ManagedMock
  pub versions : Dict (List MockVersion)
  pub templates : Dict MockTemplate
  pub next_id : ℕ

unfoldable pub new_manager : Manager
new_manager = record { mocks = []; versions = []; templates = []; next_id = 1 }

-- fmt.Sprintf("mock-%d", id)
abbrev pub id_text : ℕ → String
id_text n = "mock-" <> decimal n

unfoldable pub created_mock : String → ℕ → CreateMockRequest → ManagedMock
created_mock id now req = record {
  metadata = record {
    id = id;
    name = req.mock.name;
    version = 1;
    tags = req.tags;
    labels = req.labels;
    description = req.description;
    author = req.author;
    created_at = now;
    updated_at = now;
    source = "api";
    template = req.template;
  };
  mock = req.mock;
}

unfoldable pub initial_version : ℕ → CreateMockRequest → MockVersion
initial_version now req = record {
  version = 1;
  mock = req.mock;
  changed_by = req.author;
  timestamp = now;
  comment = "Initial version";
}

-- `CreateMock`, which never returns an error.
unfoldable pub create_mock : Manager → ℕ → CreateMockRequest → ManagedMock × Manager
unfolding initial_version
create_mock m now req =
    let id = id_text m.next_id in
    let managed = created_mock id now req in
    (
      managed,
      record m {
        mocks = insert m.mocks id managed;
        versions = insert m.versions id (initial_version now req ∷ []);
        next_id = m.next_id + 1;
      },
    )

abbrev pub not_found {ℓ} : {A : Type ℓ} → String → Result A
not_found id = err ("mock not found: " <> id)

abbrev pub or_error {ℓ} : {A : Type ℓ} → Option A → String → Result A
or_error none message = err message
or_error (some a) message = ok a

unfoldable pub get_mock : Manager → String → Result ManagedMock
get_mock m id = or_error (get m.mocks id) ("mock not found: " <> id)

-- `*p` if the pointer is given, else the old value.
abbrev pub given {ℓ} : {A : Type ℓ} → Option A → A → A
given none a = a
given (some b) a = b

unfoldable pub updated_mock : ℕ → UpdateMockRequest → ManagedMock → ManagedMock
updated_mock now req managed = record {
  metadata = record managed.metadata {
    tags = given req.tags managed.metadata.tags;
    labels = given req.labels managed.metadata.labels;
    description = given req.description managed.metadata.description;
    version = managed.metadata.version + 1;
    updated_at = now;
  };
  mock = given req.mock managed.mock;
}

-- `m.versions[id]`, nil if there is none.
abbrev pub history : Manager → String → List MockVersion
history m id = given (get m.versions id) []

-- What UpdateMock and RollbackToVersion both end with: the managed mock is stored with its new
-- version, and the history grows by one entry.
unfoldable pub commit : Manager → String → ManagedMock → String → ℕ → String → Manager
commit m id managed author now comment = record m {
  mocks = insert m.mocks id managed;
  versions = insert m.versions id (
      history m id
      ++ record {
        version = managed.metadata.version;
        mock = managed.mock;
        changed_by = author;
        timestamp = now;
        comment = comment;
      }
        ∷ []);
}

unfoldable pub update_mock : Manager → ℕ → String → UpdateMockRequest → Result ManagedMock × Manager
update_mock m now id req = elim (get m.mocks id) [
  | none ↦ (not_found id, m)
  | some managed ↦
      let managed' = updated_mock now req managed in
      (ok managed', commit m id managed' req.author now req.comment)
]

unfoldable pub delete_mock : Manager → String → Result (Unit {0}) × Manager
delete_mock m id = elim (get m.mocks id) [
  | none ↦ (not_found id, m)
  | some managed ↦ (ok tt, record m { mocks = delete m.mocks id; versions = delete m.versions id })
]

unfoldable pub get_version_history : Manager → String → Result (List MockVersion)
get_version_history m id = or_error (get m.versions id) ("mock not found: " <> id)

-- `v.Version == version`, for an int that may be negative.
abbrev pub is_version : MockVersion → ℤ → Bool
is_version v (pos n) = nat_eq v.version n
is_version v (negsuc n) = false

-- The loop that looks for a version.
unfoldable pub find_version : List MockVersion → ℤ → Option MockVersion
find_version [] version = none
find_version (v ∷ vs) version = if is_version v version then some v else find_version vs version

-- fmt.Sprintf("%d") of an int.
abbrev pub signed : ℤ → String
signed (pos n) = decimal n
signed (negsuc n) = "-" <> decimal (suc n)

unfoldable pub get_version : Manager → String → ℤ → Result MockVersion
get_version m id version = do
  versions ← get_version_history m id
  or_error (find_version versions version) ("version not found: " <> signed version)

unfoldable pub rolled_back : ℕ → MockVersion → ManagedMock → ManagedMock
rolled_back now target managed = record {
  metadata = record managed.metadata { version = managed.metadata.version + 1; updated_at = now };
  mock = target.mock;
}

unfoldable pub rollback_to_version :
    Manager → ℕ → String → ℤ → String → Result ManagedMock × Manager
rollback_to_version m now id version author = elim (get m.mocks id) [
  | none ↦ (not_found id, m)
  | some managed ↦ elim (find_version (history m id) version) [
    | none ↦ (err ("version not found: " <> signed version), m)
    | some target ↦
        let managed' = rolled_back now target managed in
        (ok managed', commit m id managed' author now ("Rolled back to version " <> signed version))
  ]
]

unfoldable pub create_template : Manager → ℕ → CreateTemplateRequest → MockTemplate × Manager
create_template m now req =
    let id = id_text m.next_id in
    let template : MockTemplate = record {
      id = id;
      name = req.name;
      description = req.description;
      category = req.category;
      tags = req.tags;
      mock = req.mock;
      parameters = req.parameters;
      variables = req.variables;
      created_at = now;
      updated_at = now;
    } in
    (template, record m { templates = insert m.templates id template; next_id = m.next_id + 1 })

unfoldable pub get_template : Manager → String → Result MockTemplate
get_template m id = or_error (get m.templates id) ("template not found: " <> id)

-- The order of a list that is read off a map is not specified.
in_category : String → Dict MockTemplate → List MockTemplate
in_category category [] = []
in_category category ((id, t) ∷ rest) =
    let more = in_category category rest in
    if category == "" || (t.category == category) then t ∷ more else more

unfoldable pub list_templates : Manager → String → List MockTemplate
unfolding in_category
list_templates m category = in_category category m.templates

-- The parameters are not applied: the source leaves that to be done.
unfoldable pub instantiate_template :
    Manager → ℕ → InstantiateTemplateRequest → Result ManagedMock × Manager
unfolding get_template
instantiate_template m now req = elim (get m.templates req.template_id) [
  | none ↦ (err ("template not found: " <> req.template_id), m)
  | some template ↦
      let (managed, m') = create_mock m now (record {
        mock = template.mock;
        tags = req.tags ++ template.tags;
        labels = req.labels;
        description = "";
        author = "";
        template = req.template_id;
      }) in
      (ok managed, m')
]

all_mocks : Dict ManagedMock → List Mock
all_mocks [] = []
all_mocks ((id, managed) ∷ rest) = managed.mock ∷ all_mocks rest

unfoldable pub get_all_mocks : Manager → List Mock
unfolding all_mocks
get_all_mocks m = all_mocks m.mocks
