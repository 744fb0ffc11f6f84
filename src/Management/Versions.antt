-- ===== src/Management/Versions.antt =====
-- The versions of a managed mock: which there are, that they do not change, and what a rollback
-- restores.
use pmp_mock_http.Prelude.{
  ◌⊎◌, sym, ◌∙◌, ℕ, suc, ◌+◌, ◌≤◌, ◌<◌, ℤ, pos, String, ◌<>◌, Option, some, List, [], ◌∷◌, ◌++◌,
  get, get-insert_self, ◌≡◌, refl, ap, inl, inr, arith, length, Option-cases,
}
use pmp_mock_http.Http.{ok, err}
use pmp_mock_http.Management.Types.{ManagedMock, MockVersion}
use pmp_mock_http.Management.Manager.{
  Manager, get_mock, history, commit, signed, find_version, get_version, rolled_back,
  rollback_to_version, or_error,
}
use pmp_mock_http.Management.Valid.{IsValid, CountsFrom, IsValid-history}
use pmp_mock_http.Management.Lookup.{
  find_version-counted, find_version-bounds, get_version-some, get_version-inv, get_mock-inv,
  find_version-number, get_version-missing, find_version-last,
}

-- The numbers of the versions of a mock.
abbrev pub IsVersionOf : ℤ → ℕ → ManagedMock → Type 0
IsVersionOf version n managed = (version ≡ pos n) × (0 < n) × (n ≤ managed.metadata.version)

-- Of a stored mock GetVersion returns the version with the number asked for, if that is from 1 up to
-- the mock's own; for every other number, negative ones included, it returns the error that there is
-- no such version.
pub get_version-exact :
    (m : Manager) (id : String) (managed : ManagedMock) (version : ℤ)
    → IsValid m
    → get_mock m id ≡ ok managed
    → ((n : ℕ) × (v : MockVersion) × IsVersionOf version n managed
        × (get_version m id version ≡ ok v)
        × (v.version ≡ n))
      ⊎ ((¬ ((n : ℕ) × IsVersionOf version n managed))
          × (get_version m id version ≡ err ("version not found: " <> signed version)))
get_version-exact m id managed version valid stored =
    let (vs, held, a) = IsValid-history m id managed valid (get_mock-inv m id managed stored) in
    elim (Option-cases (find_version vs version)) [
      | inl missing ↦ inr (
        λ (n, (e, lo, hi)).
            let (v, found, _) =
              find_version-counted 0 vs n a.counted lo (omega (arith, a.current)) in
            absurd (cc (missing, ap (find_version vs) e ∙ found)),
        get_version-missing m id version vs held missing,
      )
      | inr (v, found) ↦
          let number : pos v.version ≡ version = find_version-number vs version v found in
          let (lo, hi) =
            find_version-bounds 0 vs v.version v a.counted (ap (find_version vs) number ∙ found) in
          inl (
            v.version,
            v,
            (sym number, lo, omega (arith, a.current)),
            get_version-some m id version vs v held found,
            refl,
          )
    ]

-- The newest version of a mock that was just stored by `commit` has its content.
commit-version :
    (m : Manager) (id : String) (managed : ManagedMock) (vs : List MockVersion) (author : String)
    (now : ℕ) (comment : String)
    → get m.versions id ≡ some vs
    → CountsFrom 0 vs
    → managed.metadata.version ≡ suc (length vs)
    → (v : MockVersion) × (get_version
          (commit m id managed author now comment)
          id
          (pos managed.metadata.version)
        ≡ ok v)
      × (v.mock ≡ managed.mock)
unfolding commit
commit-version m id managed vs author now comment held counted number =
    let entry : MockVersion = record {
      version = managed.metadata.version;
      mock = managed.mock;
      changed_by = author;
      timestamp = now;
      comment = comment;
    } in
    (
      entry,
      get_version-some _ id (pos managed.metadata.version) (vs ++ entry ∷ []) entry
          (rw held (get-insert_self m.versions id (vs ++ entry ∷ [])))
          (find_version-last 0 vs entry counted (omega arith)),
      refl,
    )

commit-mock :
    (m : Manager) (id : String) (managed : ManagedMock) (author : String) (now : ℕ)
    (comment : String)
    → get_mock (commit m id managed author now comment) id ≡ ok managed
unfolding commit get_mock
commit-mock m id managed author now comment =
    ap (λ (o : Option ManagedMock). or_error o ("mock not found: " <> id))
      (get-insert_self m.mocks id managed)

abbrev rollback_comment : ℤ → String
rollback_comment version = "Rolled back to version " <> signed version

rollback_to_version-eq :
    (m : Manager) (now : ℕ) (id : String) (version : ℤ) (author : String) (old : ManagedMock)
    (target : MockVersion)
    → get m.mocks id ≡ some old
    → find_version (history m id) version ≡ some target
    → rollback_to_version m now id version author ≡ (
      ok (rolled_back now target old),
      commit m id (rolled_back now target old) author now (rollback_comment version),
    )
unfolding rollback_to_version
rollback_to_version-eq m now id version author old target used found =
    rw (used, rollback_to_version) (rw (found, rollback_to_version) refl)

-- A rollback to a version that GetVersion finds succeeds: GetMock then returns the mock that it
-- returned, with the content of that version under the next version number, and GetVersion finds
-- that content at that number.
pub rollback_to_version-restores :
    (m : Manager) (now : ℕ) (id : String) (version : ℤ) (author : String) (old : ManagedMock)
    (target : MockVersion)
    → IsValid m
    → get_mock m id ≡ ok old
    → get_version m id version ≡ ok target
    → (restored : ManagedMock) × (m' : Manager) × (rollback_to_version m now id version author
        ≡ (ok restored, m'))
      × (get_mock m' id ≡ ok restored)
      × (restored.mock ≡ target.mock)
      × (restored.metadata.version ≡ old.metadata.version + 1)
      × ((v : MockVersion) × (get_version m' id (pos restored.metadata.version) ≡ ok v)
          × (v.mock ≡ target.mock))
unfolding rolled_back
rollback_to_version-restores m now id version author old target valid stored known =
    let used = get_mock-inv m id old stored in
    let (vs, held, a) = IsValid-history m id old valid used in
    let (us, held', found) = get_version-inv m id version target known in
    let restored = rolled_back now target old in
    let comment = rollback_comment version in
    (
      restored,
      commit m id restored author now comment,
      rollback_to_version-eq m now id version author old target used (rw held' found),
      commit-mock m id restored author now comment,
      refl,
      refl,
      commit-version m id restored vs author now comment held a.counted (omega (arith, a.current)),
    )
