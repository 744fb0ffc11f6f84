-- ===== src/Matcher/Sorting.antt =====
-- A stable sort by falling priority, which meets what sort.Slice promises.
use mathlib.Core.List.Permᴰ
use mathlib.Core.List.{Permᴰ}
use pmp_mock_http.Prelude.{
  ℤ, ◌≤ℤ◌, ltb_ℤ, List, [], ◌∷◌, refl, inl, inr, if◌then◌else◌, All, arith, Bool-cases,
}
use pmp_mock_http.Models.{Mock}
use pmp_mock_http.Matcher.Search.{SortSlice}
use pmp_mock_http.Matcher.Best.{IsSort, Descending}

place_mock : Mock → List Mock → List Mock
place_mock m [] = m ∷ []
place_mock m (p ∷ ps) = if ltb_ℤ p.priority m.priority then m ∷ p ∷ ps else p ∷ place_mock m ps

unfoldable pub sort_by_priority : SortSlice
unfolding place_mock
sort_by_priority [] = []
sort_by_priority (m ∷ ms) = place_mock m (sort_by_priority ms)

place_mock-perm : (m : Mock) (ps : List Mock) → Permᴰ (place_mock m ps) (m ∷ ps)
unfolding place_mock
place_mock-perm m [] = Permᴰ.refl (m ∷ [])
place_mock-perm m (p ∷ ps) = elim (Bool-cases (ltb_ℤ p.priority m.priority)) [
  | inl below ↦ rw below (Permᴰ.refl (m ∷ p ∷ ps))
  | inr above ↦
      rw above (Permᴰ.trans (Permᴰ.cons refl (place_mock-perm m ps)) (Permᴰ.swap refl refl))
]

sort_by_priority-perm : (ms : List Mock) → Permᴰ (sort_by_priority ms) ms
unfolding sort_by_priority
sort_by_priority-perm [] = Permᴰ.nil
sort_by_priority-perm (m ∷ ms) =
    Permᴰ.trans (place_mock-perm m (sort_by_priority ms))
      (Permᴰ.cons refl (sort_by_priority-perm ms))

AtMost-trans :
    (a b : ℤ) (ps : List Mock)
    → a ≤ℤ b
    → All (λ (q : Mock). q.priority ≤ℤ a) ps
    → All (λ (q : Mock). q.priority ≤ℤ b) ps
AtMost-trans a b [] h hs = tt
AtMost-trans a b (p ∷ ps) h (k, ks) = (omega arith, AtMost-trans a b ps h ks)

place_mock-AtMost :
    (a : ℤ) (m : Mock) (ps : List Mock)
    → m.priority ≤ℤ a
    → All (λ (q : Mock). q.priority ≤ℤ a) ps
    → All (λ (q : Mock). q.priority ≤ℤ a) (place_mock m ps)
unfolding place_mock
place_mock-AtMost a m [] h hs = (h, tt)
place_mock-AtMost a m (p ∷ ps) h (k, ks) = elim (Bool-cases (ltb_ℤ p.priority m.priority)) [
  | inl below ↦ rw below (h, (k, ks))
  | inr above ↦ rw above (k, place_mock-AtMost a m ps h ks)
]

place_mock-Descending : (m : Mock) (ps : List Mock) → Descending ps → Descending (place_mock m ps)
unfolding place_mock
place_mock-Descending m [] d = (tt, tt)
place_mock-Descending m (p ∷ ps) (h, d) = elim (Bool-cases (ltb_ℤ p.priority m.priority)) [
  | inl below ↦
      rw below ((ground arith, AtMost-trans p.priority m.priority ps (ground arith) h), (h, d))
  | inr above ↦
      rw above (place_mock-AtMost p.priority m ps (ground arith) h, place_mock-Descending m ps d)
]

sort_by_priority-Descending : (ms : List Mock) → Descending (sort_by_priority ms)
unfolding sort_by_priority
sort_by_priority-Descending [] = tt
sort_by_priority-Descending (m ∷ ms) =
    place_mock-Descending m (sort_by_priority ms) (sort_by_priority-Descending ms)

pub sort_by_priority-IsSort : IsSort sort_by_priority
sort_by_priority-IsSort = record {
  permutes = sort_by_priority-perm;
  descends = sort_by_priority-Descending;
}
