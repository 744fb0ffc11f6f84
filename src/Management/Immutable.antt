-- ===== src/Management/Immutable.antt =====
-- A version that was once recorded does not change: each call extends the histories, or drops one
-- with its mock. Also what an import does.
use pmp_mock_http.Prelude.{
  ℕ, ◌+◌, ℤ, String, Option, none, some, List, [], ◌∷◌, ◌++◌, Dict, get, insert, get-insert,
  get-delete, ◌≡◌, refl, ap, ◌∙◌, ◌⊎◌, inl, inr, arith, eq_iff, ◌==◌, if◌then◌else◌, Bool-cases,
  Option-cases,
}
use mathlib.Core.List.{append_assoc, append-nil}
use pmp_mock_http.Http.{ok, Result-cases}
use pmp_mock_http.Management.Types.{
  ManagedMock, MockVersion, CreateMockRequest, UpdateMockRequest, InstantiateTemplateRequest,
  ImportRequest, ExportFormat, yaml, json, openapi, other,
}
use pmp_mock_http.Management.Manager.{
  Manager, id_text, create_mock, given, history, commit, update_mock, delete_mock, find_version,
  get_version, rollback_to_version, create_template, instantiate_template,
}
use pmp_mock_http.Management.Transfer.{
  set_source, import_request, import_from, decoded, imported, import_mocks, Codec,
}
use pmp_mock_http.Management.Valid.{IsValid, Slot, create_mock-IsValid}
use pmp_mock_http.Management.Steps.{
  Call, creates, updates, deletes, rolls_back, creates_template, instantiates, imports, step,
}
use pmp_mock_http.Management.Lookup.{find_version-append, get_version-some, get_version-inv}

abbrev Histories : Type 0
Histories = Dict (List MockVersion)

-- Every history is still there, with its entries first.
abbrev Extends : Histories → Histories → Type 0
Extends old new =
    (id : String) (vs : List MockVersion)
    → get old id ≡ some vs
    → (ws : List MockVersion) × (get new id ≡ some (vs ++ ws))

Extends-refl : (old : Histories) → Extends old old
Extends-refl old id vs h = ([], rw append-nil h)

Extends-trans : (a b c : Histories) → Extends a b → Extends b c → Extends a c
Extends-trans a b c f g id vs h =
    let (ws, e) = f id vs h in
    let (us, e') = g id (vs ++ ws) e in (ws ++ us, e' ∙ ap some (append_assoc vs ws us))

Extends-insert :
    (old : Histories) (id : String) (ws : List MockVersion)
    → Extends old (insert old id (given (get old id) [] ++ ws))
Extends-insert old id ws j vs h =
    rw (get-insert old id j (given (get old id) [] ++ ws)) (elim (Bool-cases (id == j)) [
      | inl same ↦
          let found : get old id ≡ some vs = rw ((eq_iff id j).0 same) h in
          (ws, rw same (rw found refl))
      | inr apart ↦ ([], rw apart (rw append-nil h))
    ])

Extends-free :
    (old : Histories) (id : String) (new : List MockVersion)
    → get old id ≡ none
    → Extends old (insert old id new)
Extends-free old id new free j vs h = rw (get-insert old id j new) (elim (Bool-cases (id == j)) [
  | inl same ↦ absurd (cc (free, h, (eq_iff id j).0 same))
  | inr apart ↦ ([], rw apart (rw append-nil h))
])

Slot-none :
    (id : String) (o : Option ManagedMock) (w : Option (List MockVersion))
    → Slot id o w
    → o ≡ none
    → w ≡ none
Slot-none id none none s e = refl
Slot-none id none (some vs) s e = elim s [ ]
Slot-none id (some managed) w s e = cc

create_mock-Extends :
    (m : Manager) (now : ℕ) (req : CreateMockRequest)
    → IsValid m
    → Extends m.versions (create_mock m now req).1.versions
unfolding create_mock
create_mock-Extends m now req v = Extends-free m.versions (id_text m.next_id) _ (
    Slot-none (id_text m.next_id) _ _ (v.slots (id_text m.next_id))
      (v.fresh m.next_id (omega arith)))

commit-Extends :
    (m : Manager) (id : String) (managed : ManagedMock) (author : String) (now : ℕ)
    (comment : String)
    → Extends m.versions (commit m id managed author now comment).versions
unfolding commit
commit-Extends m id managed author now comment = Extends-insert m.versions id _

import_from-Extends :
    (m : Manager) (now : ℕ) (req : ImportRequest) (count : ℕ) (mocks : List ManagedMock)
    → IsValid m
    → Extends m.versions (import_from m now req count mocks).1.versions
unfolding import_from
import_from-Extends m now req count [] v = Extends-refl m.versions
import_from-Extends m now req count (mock ∷ mocks) v =
    elim (Result-cases (set_source req.source mock.metadata.labels)) [
      | inl (labels, e) ↦
          let wanted = import_request req mock labels in
          let m' : Manager = (create_mock m now wanted).1 in
          rw (e, import_from)
            (Extends-trans m.versions m'.versions _ (create_mock-Extends m now wanted v) (
              import_from-Extends m' now req (count + 1) mocks
                (create_mock-IsValid m now wanted v)))
      | inr (inl (message, e)) ↦ rw (e, import_from) (Extends-refl m.versions)
      | inr (inr e) ↦ rw (e, import_from) (Extends-refl m.versions)
    ]

module _ (m : Manager) where
  update_mock-Extends :
      (now : ℕ) (id : String) (req : UpdateMockRequest)
      → Extends m.versions (update_mock m now id req).1.versions
  unfolding update_mock
  update_mock-Extends now id req = elim (Option-cases (get m.mocks id)) [
    | inl missing ↦ rw (missing, update_mock) (Extends-refl m.versions)
    | inr (old, used) ↦ rw (used, update_mock) (commit-Extends m id _ _ now _)
  ]

  rollback_to_version-Extends :
      (now : ℕ) (id : String) (version : ℤ) (author : String)
      → Extends m.versions (rollback_to_version m now id version author).1.versions
  unfolding rollback_to_version
  rollback_to_version-Extends now id version author = elim (Option-cases (get m.mocks id)) [
    | inl missing ↦ rw (missing, rollback_to_version) (Extends-refl m.versions)
    | inr (old, used) ↦ elim (Option-cases (find_version (history m id) version)) [
      | inl unknown ↦
          rw (used, rollback_to_version)
            (rw (unknown, rollback_to_version) (Extends-refl m.versions))
      | inr (target, known) ↦
          rw (used, rollback_to_version)
            (rw (known, rollback_to_version) (commit-Extends m id _ author now _))
    ]
  ]

  instantiate_template-Extends :
      (now : ℕ) (req : InstantiateTemplateRequest)
      → IsValid m
      → Extends m.versions (instantiate_template m now req).1.versions
  unfolding instantiate_template
  instantiate_template-Extends now req v = elim (Option-cases (get m.templates req.template_id)) [
    | inl missing ↦ rw (missing, instantiate_template) (Extends-refl m.versions)
    | inr (template, known) ↦ rw (known, instantiate_template) (create_mock-Extends m now _ v)
  ]

  -- A deletion drops the history of its id and no other.
  delete_mock-keeps :
      (id j : String) (vs : List MockVersion)
      → get m.versions j ≡ some vs
      → ((delete_mock m id).1.versions ≡ m.versions)
        ⊎ (get (delete_mock m id).1.versions j ≡ (if id == j then none else some vs))
  unfolding delete_mock
  delete_mock-keeps id j vs h = elim (Option-cases (get m.mocks id)) [
    | inl missing ↦ rw (missing, delete_mock) (inl refl)
    | inr (old, used) ↦ rw (used, delete_mock) (inr (rw (get-delete m.versions id j) (rw h)))
  ]

decoded-Extends :
    (m : Manager) (now : ℕ) (req : ImportRequest) (mocks : Option (List ManagedMock))
    → IsValid m
    → Extends m.versions (decoded m now req mocks).1.versions
unfolding decoded
decoded-Extends m now req none v = Extends-refl m.versions
decoded-Extends m now req (some mocks) v = import_from-Extends m now req 0 mocks v

module _ (yaml_codec json_codec : Codec) where
  imported-Extends :
      (m : Manager) (now : ℕ) (req : ImportRequest) (format : ExportFormat)
      → IsValid m
      → Extends m.versions (imported yaml_codec json_codec m now req format).1.versions
  unfolding imported
  imported-Extends m now req yaml v = decoded-Extends m now req _ v
  imported-Extends m now req json v = decoded-Extends m now req _ v
  imported-Extends m now req openapi v = Extends-refl m.versions
  imported-Extends m now req (other s) v = Extends-refl m.versions

  Extends-version :
      (m m' : Manager) (id : String) (version : ℤ) (v : MockVersion)
      → Extends m.versions m'.versions
      → get_version m id version ≡ ok v
      → get_version m' id version ≡ ok v
  Extends-version m m' id version v f known =
      let (vs, held, found) = get_version-inv m id version v known in
      let (ws, held') = f id vs held in
      get_version-some m' id version (vs ++ ws) v held' (find_version-append vs ws version v found)

  -- A version that GetVersion finds in a valid manager is found unchanged after any call, unless
  -- the call deletes its mock, whose history is then gone.
  pub step-keeps_version :
      (m : Manager) (call : Call) (id : String) (version : ℤ) (v : MockVersion)
      → IsValid m
      → get_version m id version ≡ ok v
      → (get_version (step yaml_codec json_codec m call) id version ≡ ok v)
        ⊎ ((call ≡ deletes id) × (get (step yaml_codec json_codec m call).versions id ≡ none))
  unfolding step
  step-keeps_version m (creates now req) id version v valid known =
      inl (Extends-version m _ id version v (create_mock-Extends m now req valid) known)
  step-keeps_version m (updates now j req) id version v valid known =
      inl (Extends-version m _ id version v (update_mock-Extends m now j req) known)
  step-keeps_version m (deletes j) id version v valid known =
      let (vs, held, found) = get_version-inv m id version v known in
      elim (delete_mock-keeps m j id vs held) [
        | inl same ↦ inl (get_version-some _ id version vs v (rw same held) found)
        | inr left ↦ elim (Bool-cases (j == id)) [
          | inl same ↦ inr (ap deletes ((eq_iff j id).0 same), left ∙ rw same refl)
          | inr apart ↦ inl (get_version-some _ id version vs v (left ∙ rw apart refl) found)
        ]
      ]
  step-keeps_version m (rolls_back now j n author) id version v valid known =
      inl (Extends-version m _ id version v (rollback_to_version-Extends m now j n author) known)
  step-keeps_version m (creates_template now req) id version v valid known = inl (
      unfold create_template in
      (Extends-version m (create_template m now req).1 id version v (Extends-refl m.versions)
        known))
  step-keeps_version m (instantiates now req) id version v valid known =
      inl (Extends-version m _ id version v (instantiate_template-Extends m now req valid) known)
  step-keeps_version m (imports now req) id version v valid known = inl (
      Extends-version m _ id version v
        (unfold import_mocks in imported-Extends m now req req.format valid) known)
