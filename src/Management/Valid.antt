-- ===== src/Management/Valid.antt =====
-- The invariant of the manager: a mock is stored under its own id with a history of versions 1, 2,
-- … up to its own version, the last of which is its present content, and no id is given twice.
use pmp_mock_http.Prelude.{
  ℕ, suc, ◌+◌, ◌≤◌, ◌<◌, String, false, Option, none, some, List, [], ◌∷◌, ◌++◌, Dict, get, insert,
  delete, get-insert, get-delete, ◌≡◌, ◌≢◌, refl, subst, ◌∙◌, inl, inr, arith, eq_iff, ◌==◌,
  prefix-decimal_injective, length, length-append, Bool-cases,
}
use pmp_mock_http.Models.{Mock}
use pmp_mock_http.Management.Types.{ManagedMock, MockVersion, CreateMockRequest}
use pmp_mock_http.Management.Manager.{
  Manager, new_manager, id_text, created_mock, create_mock, commit,
}

-- The versions n + 1, n + 2, … in order.
abbrev pub CountsFrom : ℕ → List MockVersion → Type 0
CountsFrom n [] = Unit
CountsFrom n (v ∷ vs) = (v.version ≡ suc n) × CountsFrom (suc n) vs

-- The content of the last version, or of `before` if there is none.
abbrev pub latest : Mock → List MockVersion → Mock
latest before [] = before
latest before (v ∷ vs) = latest v.mock vs

-- A stored mock and its history.
pub record Agrees (id : String) (managed : ManagedMock) (vs : List MockVersion) : Type 0 where
  pub own_id : managed.metadata.id ≡ id
  pub counted : CountsFrom 0 vs
  pub current : length vs ≡ managed.metadata.version
  pub content : latest managed.mock vs ≡ managed.mock
  pub positive : 0 < length vs

-- What stands under an id.
abbrev pub Slot : String → Option ManagedMock → Option (List MockVersion) → Type 0
Slot id none none = Unit
Slot id (some managed) (some vs) = Agrees id managed vs
Slot id _ _ = ⊥

pub record IsValid (m : Manager) : Type 0 where
  pub slots : (id : String) → Slot id (get m.mocks id) (get m.versions id)
  pub fresh : (n : ℕ) → m.next_id ≤ n → get m.mocks (id_text n) ≡ none
  pub fresh_template : (n : ℕ) → m.next_id ≤ n → get m.templates (id_text n) ≡ none

CountsFrom-append :
    (n : ℕ) (vs : List MockVersion) (v : MockVersion)
    → CountsFrom n vs
    → v.version ≡ suc (n + length vs)
    → CountsFrom n (vs ++ v ∷ [])
CountsFrom-append n [] v h e = (omega arith, tt)
CountsFrom-append n (w ∷ vs) v (h, hs) e = (h, CountsFrom-append (suc n) vs v hs (omega arith))

latest-append :
    (before : Mock) (vs : List MockVersion) (v : MockVersion)
    → latest before (vs ++ v ∷ []) ≡ v.mock
latest-append before [] v = refl
latest-append before (w ∷ vs) v = latest-append w.mock vs v

pub id_text-ne : (a b : ℕ) → a ≢ b → (id_text a == id_text b) ≡ false
id_text-ne a b ne = elim (Bool-cases (id_text a == id_text b)) [
  | inl same ↦ absurd (ne (prefix-decimal_injective "mock-" a b ((eq_iff _ _).0 same)))
  | inr apart ↦ apart
]

-- Both maps are written under one id, or it is deleted from both.
module _ (mocks : Dict ManagedMock) (versions : Dict (List MockVersion))
    (slots : (id : String) → Slot id (get mocks id) (get versions id)) where
  pub Slot-insert :
      (id j : String) (managed : ManagedMock) (vs : List MockVersion)
      → Agrees id managed vs
      → Slot j (get (insert mocks id managed) j) (get (insert versions id vs) j)
  Slot-insert id j managed vs a = rw (get-insert mocks id j managed) (
      rw (get-insert versions id j vs) (elim (Bool-cases (id == j)) [
        | inl same ↦ rw same (subst (λ k. Agrees k managed vs) ((eq_iff id j).0 same) a)
        | inr apart ↦ rw apart (slots j)
      ]))

  pub Slot-delete : (id j : String) → Slot j (get (delete mocks id) j) (get (delete versions id) j)
  Slot-delete id j = rw (get-delete mocks id j) (
      rw (get-delete versions id j)
        (elim (Bool-cases (id == j)) [ inl same ↦ rw same tt | inr apart ↦ rw apart (slots j) ]))

-- An id that is not given out yet is not the one that is written.
pub absent-insert {ℓ} :
    {V : Type ℓ} (m : Dict V) (a b : ℕ) (v : V)
    → a < b
    → get m (id_text b) ≡ none
    → get (insert m (id_text a) v) (id_text b) ≡ none
absent-insert m a b v lt h =
    rw (get-insert m (id_text a) (id_text b) v) (rw (id_text-ne a b (λ e. absurd (omega arith))) h)

pub absent-delete {ℓ} :
    {V : Type ℓ} (m : Dict V) (id j : String) → get m j ≡ none → get (delete m id) j ≡ none
absent-delete m id j h = rw (get-delete m id j) (ground arith)

-- Writing under an id that is in use leaves the others free.
absent-overwrite {ℓ} :
    {V : Type ℓ} (m : Dict V) (id j : String) (old v : V)
    → get m id ≡ some old
    → get m j ≡ none
    → get (insert m id v) j ≡ none
absent-overwrite m id j old v used h = rw (get-insert m id j v) (elim (Bool-cases (id == j)) [
  | inl same ↦ cc (used, h, (eq_iff id j).0 same)
  | inr apart ↦ rw apart h
])

pub new_manager-IsValid : IsValid new_manager
unfolding new_manager get
new_manager-IsValid = record { slots = λ id. tt; fresh = λ n h. refl; fresh_template = λ n h. refl }

pub create_mock-IsValid :
    (m : Manager) (now : ℕ) (req : CreateMockRequest)
    → IsValid m
    → IsValid (create_mock m now req).1
unfolding create_mock
create_mock-IsValid m now req v = record {
  slots = λ id.
      Slot-insert m.mocks m.versions v.slots (id_text m.next_id) id
        (created_mock (id_text m.next_id) now req) _
        (unfold created_mock in
          record {
            own_id = refl;
            counted = (refl, tt);
            current = refl;
            content = refl;
            positive = omega arith;
          });
  fresh = λ n h. absent-insert m.mocks m.next_id n _ (omega arith) (v.fresh n (omega arith));
  fresh_template = λ n h. v.fresh_template n (omega arith);
}

-- What the invariant says of a stored mock.
Slot-some :
    (id : String) (o : Option ManagedMock) (w : Option (List MockVersion)) (managed : ManagedMock)
    → Slot id o w
    → o ≡ some managed
    → (vs : List MockVersion) × (w ≡ some vs) × Agrees id managed vs
Slot-some id none w managed s e = cc
Slot-some id (some found) none managed s e = elim s [ ]
Slot-some id (some found) (some vs) managed s e =
    let same : found ≡ managed = cc in (vs, refl, subst (λ k. Agrees id k vs) same s)

pub IsValid-history :
    (m : Manager) (id : String) (managed : ManagedMock)
    → IsValid m
    → get m.mocks id ≡ some managed
    → (vs : List MockVersion) × (get m.versions id ≡ some vs) × Agrees id managed vs
IsValid-history m id managed v used =
    Slot-some id (get m.mocks id) (get m.versions id) managed (v.slots id) used

-- The history grows by the new version of the mock.
Agrees-append :
    (id : String) (old managed : ManagedMock) (vs : List MockVersion) (entry : MockVersion)
    → Agrees id old vs
    → managed.metadata.id ≡ old.metadata.id
    → managed.metadata.version ≡ old.metadata.version + 1
    → entry.version ≡ managed.metadata.version
    → entry.mock ≡ managed.mock
    → Agrees id managed (vs ++ entry ∷ [])
Agrees-append id old managed vs entry a same_id next number content = record {
  own_id = same_id ∙ a.own_id;
  counted = CountsFrom-append 0 vs entry a.counted (omega (arith, a.current));
  current = omega (arith, a.current, length-append vs (entry ∷ []));
  content = latest-append managed.mock vs entry ∙ content;
  positive = omega (arith, length-append vs (entry ∷ []));
}

pub commit-IsValid :
    (m : Manager) (id : String) (old managed : ManagedMock) (author : String) (now : ℕ)
    (comment : String)
    → IsValid m
    → get m.mocks id ≡ some old
    → managed.metadata.id ≡ old.metadata.id
    → managed.metadata.version ≡ old.metadata.version + 1
    → IsValid (commit m id managed author now comment)
unfolding commit
commit-IsValid m id old managed author now comment v used same_id next =
    let (vs, held, a) = IsValid-history m id old v used in
    record {
      slots = λ j.
          Slot-insert m.mocks m.versions v.slots id j managed _
            (rw held (Agrees-append id old managed vs _ a same_id next refl refl));
      fresh = λ n h. absent-overwrite m.mocks id (id_text n) old managed used (v.fresh n h);
      fresh_template = v.fresh_template;
    }
