-- ===== src/Prelude/Maps.antt =====
-- Go's maps with string keys, as association lists. A key stands once in a map that is built by
-- `insert`; the order of a list stands for no order of the map.
use Prim.Native.String.{String}
use mathlib.Core.Path.{◌≡◌, refl, subst}
use mathlib.Core.Logic.{inl, inr}
use mathlib.Core.List.{List, [], ◌∷◌}
use mathlib.Core.Option.{Option, none, some}
use native.Mathlib.Omega.{arith}
use text.Mathlib.TextEquality.{eq_iff}
use text.Mathlib.TextPositions.{eq_refl}
use pmp_mock_http.Prelude.Tests.{◌==◌, if◌then◌else◌, Bool-cases}

abbrev pub Dict {ℓ} : Type ℓ → Type ℓ
Dict V = List (String × V)

module _ {ℓ} {V : Type ℓ} where
  -- `v, exists := m[k]`
  unfoldable pub get : Dict V → String → Option V
  get [] k = none
  get ((j, v) ∷ m) k = if j == k then some v else get m k

  -- `m[k] = v`
  unfoldable pub insert : Dict V → String → V → Dict V
  insert [] k v = (k, v) ∷ []
  insert ((j, w) ∷ m) k v = if j == k then (j, v) ∷ m else (j, w) ∷ insert m k v

  -- `delete(m, k)`
  unfoldable pub delete : Dict V → String → Dict V
  delete [] k = []
  delete ((j, w) ∷ m) k = let rest = delete m k in if j == k then rest else (j, w) ∷ rest

  pub get-insert :
      (m : Dict V) (k j : String) (v : V)
      → get (insert m k v) j ≡ (if k == j then some v else get m j)
  unfolding get insert
  get-insert [] k j v = refl
  get-insert ((i, w) ∷ m) k j v =
      ground (arith, eq_iff k j, eq_iff i k, eq_iff i j, get-insert m k j v)

  pub get-delete :
      (m : Dict V) (k j : String) → get (delete m k) j ≡ (if k == j then none else get m j)
  unfolding get delete
  get-delete [] k j = ground arith
  get-delete ((i, w) ∷ m) k j = ground (arith, eq_iff k j, eq_iff i k, eq_iff i j, get-delete m k j)

  pub get-insert_self : (m : Dict V) (k : String) (v : V) → get (insert m k v) k ≡ some v
  get-insert_self m k v = simp (get-insert, eq_refl)

  -- What holds of every entry still does after an insertion of such an entry.
  pub insert-entries :
      (P : String → V → Type 0) (m : Dict V) (key : String) (new : V)
      → ((k : String) (v : V) → get m k ≡ some v → P k v)
      → P key new
      → (k : String) (v : V) → get (insert m key new) k ≡ some v
      → P k v
  insert-entries P m key new old here k v h = elim (Bool-cases (key == k)) [
    | inl same ↦
        let eq : new ≡ v = ground (arith, get-insert m key k new) in
        subst (λ w. P k w) eq (subst (λ j. P j new) ((eq_iff key k).0 same) here)
    | inr apart ↦ old k v (ground (arith, get-insert m key k new))
  ]
