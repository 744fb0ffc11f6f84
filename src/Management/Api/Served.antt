-- ===== src/Management/Api/Served.antt =====
-- What the requests of the API do to the manager.
use pmp_mock_http.Prelude.{
  ℕ, ℤ, String, Bool, true, false, Option, none, some, List, [], ◌∷◌, ◌==◌, if◌then◌else◌, ◌≡◌,
  refl, ◌∙◌, ◌⊎◌, inl, inr, Bool-cases, subst, sym,
}
use pmp_mock_http.Http.{HttpRequest, Result, ok, err, panicked}
use pmp_mock_http.Management.Types.{
  CreateMockRequest, UpdateMockRequest, CreateTemplateRequest, InstantiateTemplateRequest,
  ImportRequest,
}
use pmp_mock_http.Management.Manager.{
  Manager, new_manager, update_mock, delete_mock, rollback_to_version, instantiate_template,
}
use pmp_mock_http.Management.Transfer.{imported, import_mocks}
use pmp_mock_http.Management.Valid.{IsValid, new_manager-IsValid}
use pmp_mock_http.Management.Steps.{
  Call, creates, updates, deletes, rolls_back, creates_template, instantiates, imports, step,
  step-IsValid,
}
use pmp_mock_http.Management.Api.Answers.{
  Route, mocks, mock_by_id, versions, version, rollback, templates, template_by_id, instantiate,
  import_route, export_route, stats, Payload, Answer, ApiExternals, json_or, before_suffix, mock_id,
}
use pmp_mock_http.Management.Api.Handlers.{
  created, handle_mocks, updated, deleted, handle_mock, handle_mock_by_id, rolled, rollback_of,
  handle_rollback, templated, handle_templates, instantiated, handle_instantiate_template,
  imports_of, handle_import, handle,
}
use pmp_mock_http.Management.Api.Atomic.{
  is_refused, is_refused-json_or, Atomic, update_mock-Atomic, delete_mock-Atomic,
  rollback_to_version-Atomic, instantiate_template-Atomic, imported-Atomic,
}

module _ (x : ApiExternals) where
  -- The manager is as before, or as one of its calls leaves it. Then it is not an error that is
  -- answered.
  abbrev pub Serves : Manager → Answer × Manager → Type 0
  Serves m (answer, m') =
      (m' ≡ m)
      ⊎ ((call : Call) × (m' ≡ step x.yaml_codec x.json_codec m call) × (is_refused answer ≡ false))

  Atomic-Serves {ℓ} :
      {A : Type ℓ} (m : Manager) (call : Call) (status code : ℤ) (payload : A → Payload)
      (r : Result A × Manager)
      → r.1 ≡ step x.yaml_codec x.json_codec m call
      → Atomic m r
      → Serves m (json_or status code payload r.0, r.1)
  Atomic-Serves m call status code payload r e (inl same) = inl same
  Atomic-Serves m call status code payload r e (inr fine) =
      inr (call, e, is_refused-json_or status code payload r.0 ∙ fine)

  deleted-Serves :
      (now : ℕ) (m : Manager) (id : String) (r : Result (Unit {0}) × Manager)
      → r.1 ≡ step x.yaml_codec x.json_codec m (deletes id)
      → Atomic m r
      → Serves m (deleted x now r.0, r.1)
  unfolding deleted
  deleted-Serves now m id (r, m') e (inl same) = inl same
  deleted-Serves now m id (ok a, m') e (inr fine) = inr (deletes id, e, refl)
  deleted-Serves now m id (err message, m') e (inr fine) = absurd (cc fine)
  deleted-Serves now m id (panicked, m') e (inr fine) = inr (deletes id, e, refl)

  module _ (now : ℕ) (r : HttpRequest) (m : Manager) where
    created-Serves : (o : Option CreateMockRequest) → Serves m (created x now m o)
    unfolding created step
    created-Serves none = inl refl
    created-Serves (some req) = inr (creates now req, refl, refl)

    updated-Serves : (id : String) (o : Option UpdateMockRequest) → Serves m (updated x now id m o)
    unfolding updated step
    updated-Serves id none = inl refl
    updated-Serves id (some req) =
        Atomic-Serves m (updates now id req) _ _ _ (update_mock m now id req) refl
          (update_mock-Atomic m now id req)

    rolled-Serves : (id : String) (o : Option (ℤ × String)) → Serves m (rolled x now id m o)
    unfolding rolled step
    rolled-Serves id none = inl refl
    rolled-Serves id (some (n, author)) =
        Atomic-Serves m (rolls_back now id n author) _ _ _ (rollback_to_version m now id n author)
          refl (rollback_to_version-Atomic m now id n author)

    templated-Serves : (o : Option CreateTemplateRequest) → Serves m (templated x now m o)
    unfolding templated step
    templated-Serves none = inl refl
    templated-Serves (some req) = inr (creates_template now req, refl, refl)

    instantiated-Serves :
        (o : Option InstantiateTemplateRequest) → Serves m (instantiated x now m o)
    unfolding instantiated step
    instantiated-Serves none = inl refl
    instantiated-Serves (some req) =
        Atomic-Serves m (instantiates now req) _ _ _ (instantiate_template m now req) refl
          (instantiate_template-Atomic m now req)

    imports_of-Serves : (o : Option ImportRequest) → Serves m (imports_of x now m o)
    unfolding imports_of step import_mocks
    imports_of-Serves none = inl refl
    imports_of-Serves (some req) =
        Atomic-Serves m (imports now req) _ _ _
          (imported x.yaml_codec x.json_codec m now req req.format) refl
          (imported-Atomic x.yaml_codec x.json_codec m now req req.format)

    handle_mock-Serves : (id : Option String) → Serves m (handle_mock x now r m id)
    unfolding handle_mock step
    handle_mock-Serves none = inl refl
    handle_mock-Serves (some id) = elim (Bool-cases (r.method == "GET")) [
      | inl gets ↦ rw gets (inl refl)
      | inr e ↦ rw e (elim (Bool-cases (r.method == "PUT")) [
        | inl puts ↦ rw puts (updated-Serves id (x.decode_update r.body))
        | inr e' ↦ rw e' (elim (Bool-cases (r.method == "DELETE")) [
          | inl removes ↦
              rw removes (deleted-Serves now m id (delete_mock m id) refl (delete_mock-Atomic m id))
          | inr e'' ↦ rw e'' (inl refl)
        ])
      ])
    ]

    rollback_of-Serves : (id : Option String) → Serves m (rollback_of x now r m id)
    unfolding rollback_of
    rollback_of-Serves none = inl refl
    rollback_of-Serves (some id) = rolled-Serves id (x.decode_rollback r.body)

    if-Serves :
        (test : Bool) (answer : Answer) (p : Answer × Manager)
        → Serves m p
        → Serves m (if test then p else (answer, m))
    if-Serves true answer p h = h
    if-Serves false answer p h = inl refl

    handle_mocks-Serves : Serves m (handle_mocks x now r m)
    unfolding handle_mocks
    handle_mocks-Serves = elim (Bool-cases (r.method == "GET")) [
      | inl gets ↦ rw gets (inl refl)
      | inr e ↦ rw e (if-Serves (r.method == "POST") _ _ (created-Serves (x.decode_create r.body)))
    ]

    handle_templates-Serves : Serves m (handle_templates x now r m)
    unfolding handle_templates
    handle_templates-Serves = elim (Bool-cases (r.method == "GET")) [
      | inl gets ↦ rw gets (inl refl)
      | inr e ↦
          rw e (if-Serves (r.method == "POST") _ _ (templated-Serves (x.decode_template r.body)))
    ]

    -- Every request of the API leaves the manager as it was, or does to it what one call of the
    -- manager does; and a request that is answered with an error leaves it as it was.
    pub handle-Serves : (route : Route) → Serves m (handle x now route r m)
    unfolding handle handle_mock_by_id handle_rollback handle_instantiate_template handle_import
    handle-Serves mocks = handle_mocks-Serves
    handle-Serves mock_by_id = handle_mock-Serves (mock_id r)
    handle-Serves versions = inl refl
    handle-Serves version = inl refl
    handle-Serves rollback =
        if-Serves (r.method == "POST") _ _
          (rollback_of-Serves (before_suffix "/rollback" (mock_id r)))
    handle-Serves templates = handle_templates-Serves
    handle-Serves template_by_id = inl refl
    handle-Serves instantiate =
        if-Serves (r.method == "POST") _ _ (instantiated-Serves (x.decode_instantiate r.body))
    handle-Serves import_route =
        if-Serves (r.method == "POST") _ _ (imports_of-Serves (x.decode_import r.body))
    handle-Serves export_route = inl refl
    handle-Serves stats = inl refl

  -- Requests with their routes and the readings of the clock, one after another.
  unfoldable pub serve_all : List (ℕ × Route × HttpRequest) → Manager → Manager
  serve_all [] m = m
  serve_all ((now, route, r) ∷ requests) m = serve_all requests (handle x now route r m).1

  Serves-IsValid : (m : Manager) (p : Answer × Manager) → Serves m p → IsValid m → IsValid p.1
  Serves-IsValid m p (inl same) v = subst IsValid (sym same) v
  Serves-IsValid m p (inr (call, e, fine)) v =
      subst IsValid (sym e) (step-IsValid x.yaml_codec x.json_codec m call v)

  serve_all-IsValid :
      (requests : List (ℕ × Route × HttpRequest)) (m : Manager)
      → IsValid m
      → IsValid (serve_all requests m)
  unfolding serve_all
  serve_all-IsValid [] m v = v
  serve_all-IsValid ((now, route, r) ∷ requests) m v =
      serve_all-IsValid requests (handle x now route r m).1
        (Serves-IsValid m (handle x now route r m) (handle-Serves now r m route) v)

  -- After any requests of the API to a new manager, in any order and whatever is answered, each id
  -- names a mock and a history that agree, or neither, and the next id is used by no mock and no
  -- template.
  pub serve_new-IsValid :
      (requests : List (ℕ × Route × HttpRequest)) → IsValid (serve_all requests new_manager)
  serve_new-IsValid requests = serve_all-IsValid requests new_manager new_manager-IsValid
