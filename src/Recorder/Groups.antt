-- ===== src/Recorder/Groups.antt =====
-- The groups of an export.
use pmp_mock_http.Prelude.{
  ◌<>◌, true, Bool, not, ◌&&◌, nat_eq, arith, All, all_runes, eq_of_==, ==_of_eq, String, List, [],
  ◌∷◌, ◌++◌, Dict, get, insert, get-insert, ◌==◌, if◌then◌else◌, ◌≡◌, refl, sym, ap, ◌∙◌, inl, inr,
  eq_iff, Bool-cases,
}
use Prim.Native.Char.{Char, code}
use text.Mathlib.TextLemmas.{
  nil-append, cons-append, append_cancel_left, head-eq_of_cons-eq, tail-eq_of_cons-eq,
}
use mathlib.Core.List.{append_assoc, append-nil}
use pmp_mock_http.Recorder.{RecordedRequest, group_key, members, grouped}

-- The recordings with a key, in their order.
unfoldable with_key : String → List RecordedRequest → List RecordedRequest
with_key key [] = []
with_key key (recorded ∷ recs) =
    let rest = with_key key recs in if group_key recorded == key then recorded ∷ rest else rest

members-insert :
    (groups : Dict (List RecordedRequest)) (recorded : RecordedRequest) (key : String)
    → members (
        get
          (insert groups
            (group_key recorded)
            (members (get groups (group_key recorded)) ++ recorded ∷ []))
          key)
      ≡ (if group_key recorded == key
          then members (get groups key) ++ recorded ∷ []
          else members (get groups key))
members-insert groups recorded key = elim (Bool-cases (group_key recorded == key)) [
  | inl same ↦
      ap members (get-insert groups (group_key recorded) key _)
      ∙ rw same (
          ap (λ k. members (get groups k) ++ recorded ∷ [])
            ((eq_iff (group_key recorded) key).0 same))
  | inr apart ↦ ap members (get-insert groups (group_key recorded) key _) ∙ rw apart refl
]

grouped-from :
    (groups : Dict (List RecordedRequest)) (recs : List RecordedRequest) (key : String)
    → members (get (grouped groups recs) key) ≡ members (get groups key) ++ with_key key recs
unfolding grouped with_key
grouped-from groups [] key = sym (append-nil _)
grouped-from groups (recorded ∷ recs) key =
    grouped-from
      (insert groups (group_key recorded)
        (members (get groups (group_key recorded)) ++ recorded ∷ []))
      recs key
    ∙ ap (λ l. l ++ with_key key recs) (members-insert groups recorded key)
    ∙ elim (Bool-cases (group_key recorded == key)) [
      | inl same ↦
          rw same (append_assoc (members (get groups key)) (recorded ∷ []) (with_key key recs))
      | inr apart ↦ rw apart refl
    ]

-- A text without spaces, as a method is.
abbrev pub is_unspaced : String → Bool
is_unspaced = all_runes (λ c. not (nat_eq (code c) b' '))

-- The recordings with a method and a URI, in their order.
unfoldable pub recorded_under : String → String → List RecordedRequest → List RecordedRequest
recorded_under method uri [] = []
recorded_under method uri (recorded ∷ recs) =
    let rest = recorded_under method uri recs in
    if (recorded.method == method) && (recorded.uri == uri) then recorded ∷ rest else rest

unspaced-head : (c : Char) (m : String) → is_unspaced (String.◌∷◌ c m) ≡ true → ¬ (" " ≡ c)
unfolding all_runes
unspaced-head c m h e = absurd (ground (arith, h, ap (λ (d : Char). nat_eq (code d) b' ') e))

unspaced-tail : (c : Char) (m : String) → is_unspaced (String.◌∷◌ c m) ≡ true → is_unspaced m ≡ true
unfolding all_runes
unspaced-tail c m h = ground (arith, h)

-- A key is read in one way only.
key-parts :
    (m n u v : String)
    → is_unspaced m ≡ true
    → is_unspaced n ≡ true
    → m <> (" " <> u) ≡ n <> (" " <> v)
    → (m ≡ n) × (u ≡ v)
key-parts String.[] String.[] u v h k e =
    (refl, append_cancel_left " " u v (sym (nil-append (" " <> u)) ∙ e ∙ nil-append (" " <> v)))
key-parts String.[] (String.◌∷◌ d n) u v h k e = absurd (
    unspaced-head d n k (
      head-eq_of_cons-eq
        (sym (nil-append (" " <> u) ∙ cons-append " " "" u) ∙ e ∙ cons-append d n (" " <> v))))
key-parts (String.◌∷◌ c m) String.[] u v h k e = absurd (
    unspaced-head c m h (
      head-eq_of_cons-eq
        (sym (nil-append (" " <> v) ∙ cons-append " " "" v) ∙ sym e ∙ cons-append c m (" " <> u))))
key-parts (String.◌∷◌ c m) (String.◌∷◌ d n) u v h k e =
    let parts = sym (cons-append c m (" " <> u)) ∙ e ∙ cons-append d n (" " <> v) in
    let (same, last) =
      key-parts m n u v (unspaced-tail c m h) (unspaced-tail d n k) (tail-eq_of_cons-eq parts) in
    (ap (λ t. String.◌∷◌ c t) same ∙ ap (λ a. String.◌∷◌ a n) (head-eq_of_cons-eq parts), last)

key-test :
    (m n u v : String)
    → is_unspaced m ≡ true
    → is_unspaced n ≡ true
    → (m <> (" " <> u) == n <> (" " <> v)) ≡ ((m == n) && (u == v))
key-test m n u v h k = elim (Bool-cases (m <> (" " <> u) == n <> (" " <> v))) [
  | inl same ↦
      let (e, f) = key-parts m n u v h k (eq_of_== (m <> (" " <> u)) (n <> (" " <> v)) same) in
      same ∙ sym (rw (==_of_eq m n e) (==_of_eq u v f))
  | inr apart ↦ elim (Bool-cases ((m == n) && (u == v))) [
    | inl both ↦
        let e = eq_of_== m n (ground (arith, both)) in
        let f = eq_of_== u v (ground (arith, both)) in
        absurd (
          cc (
            apart,
            ==_of_eq (m <> (" " <> u)) (n <> (" " <> v))
                (ap (λ t. t <> (" " <> u)) e ∙ ap (λ t. n <> (" " <> t)) f),
          ))
    | inr differ ↦ apart ∙ sym differ
  ]
]

with_key-under :
    (method uri : String) (recs : List RecordedRequest)
    → is_unspaced method ≡ true
    → All (λ q. is_unspaced q.method ≡ true) recs
    → with_key (method <> (" " <> uri)) recs ≡ recorded_under method uri recs
unfolding with_key recorded_under
with_key-under method uri [] h hs = refl
with_key-under method uri (recorded ∷ recs) h (k, hs) =
    ap
      (λ b.
        if b
        then recorded ∷ with_key (method <> (" " <> uri)) recs
        else with_key (method <> (" " <> uri)) recs)
      (key-test recorded.method method recorded.uri uri k h)
    ∙ ap (λ l. if (recorded.method == method) && (recorded.uri == uri) then recorded ∷ l else l)
        (with_key-under method uri recs h hs)

-- Where no method has a space in it, the group of a method and a URI holds the recordings with that
-- method and that URI, in their order, and no other.
pub grouped-members :
    (recs : List RecordedRequest) (method uri : String)
    → is_unspaced method ≡ true
    → All (λ q. is_unspaced q.method ≡ true) recs
    → members (get (grouped [] recs) (method <> (" " <> uri))) ≡ recorded_under method uri recs
unfolding get
grouped-members recs method uri h hs =
    grouped-from [] recs (method <> (" " <> uri)) ∙ with_key-under method uri recs h hs
