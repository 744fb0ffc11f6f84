-- ===== src/GraphQl/Lines.antt =====
-- The words of the lines of a query that are no comments.
use pmp_mock_http.Prelude.{
  ◌++◌, starts_with, if◌then◌else◌, ap, String, ◌<>◌, Bool, true, false, List, [], ◌∷◌, ◌≡◌, refl,
  sym, ◌∙◌, inl, inr, arith, Bool-cases,
}
use Prim.Native.Char.{Char}
use mathlib.Core.List.{append_assoc as list_append_assoc, append-nil as list_append-nil}
use text.Mathlib.TextLemmas.{nil-append, cons-append, head-eq_of_cons-eq}
use text.Mathlib.TextEquality.{starts_with_iff}
use pmp_mock_http.GraphQl.Query.{
  is_space, of_char, word, fields, join, trim_left, trim_right, trim_space, without_comments,
}

-- Whether "#" stands at the first rune that is no space.
unfoldable pub is_comment : String → Bool
is_comment String.[] = false
is_comment (String.◌∷◌ c s) = if is_space c then is_comment s else starts_with (String.◌∷◌ c s) "#"

-- The words of the lines that are no comments.
unfoldable pub line_words : List String → List String
line_words [] = []
line_words (line ∷ lines) =
    let rest = line_words lines in if is_comment line then rest else fields "" line ++ rest

word-append : (current : String) (ws : List String) → word current ws ≡ word current [] ++ ws
unfolding word
word-append current ws = ground arith

fields-line :
    (current s t : String) → fields current (s <> ("\n" <> t)) ≡ fields current s ++ fields "" t
unfolding fields is_space
fields-line current String.[] t =
    ap (fields current) (nil-append ("\n" <> t) ∙ cons-append "\n" "" t)
    ∙ ap (λ u. word current (fields "" u)) (nil-append t)
    ∙ word-append current (fields "" t)
fields-line current (String.◌∷◌ c s) t =
    ap (fields current) (cons-append c s ("\n" <> t)) ∙ elim (Bool-cases (is_space c)) [
      | inl space ↦ rw space (
          ap (word current) (fields-line "" s t)
          ∙ word-append current (fields "" s ++ fields "" t)
          ∙ sym (list_append_assoc (word current []) (fields "" s) (fields "" t))
          ∙ ap (λ ws. ws ++ fields "" t) (sym (word-append current (fields "" s))))
      | inr other ↦ rw other (fields-line (current <> of_char c) s t)
    ]

fields-lines :
    (l : String) (ls : List String)
    → fields "" (join "\n" (l ∷ ls)) ≡ fields "" l ++ fields "" (join "\n" ls)
unfolding join
fields-lines l [] =
    sym (list_append-nil (fields "" l))
    ∙ ap (λ ws. fields "" l ++ ws) (sym (unfold fields in unfold word in refl))
fields-lines l (k ∷ ls) = fields-line "" l (join "\n" (k ∷ ls))

starts_with-hash :
    (c : Char) (s t : String)
    → starts_with (String.◌∷◌ c s) "#" ≡ true
    → starts_with (String.◌∷◌ c t) "#" ≡ true
starts_with-hash c s t h =
    let (u, e) = (starts_with_iff (String.◌∷◌ c s) "#").0 h in
    let first = head-eq_of_cons-eq (sym (cons-append "#" "" u) ∙ e) in
    (starts_with_iff (String.◌∷◌ c t) "#").1 (
      t,
      cons-append "#" "" t
          ∙ ap (λ v. String.◌∷◌ "#" v) (nil-append t)
          ∙ ap (λ d. String.◌∷◌ d t) first,
    )

-- Whether "#" stands first does not depend on what follows.
starts-hash :
    (c : Char) (s t : String) → starts_with (String.◌∷◌ c s) "#" ≡ starts_with (String.◌∷◌ c t) "#"
starts-hash c s t = elim (Bool-cases (starts_with (String.◌∷◌ c s) "#")) [
  | inl yes_hash ↦ yes_hash ∙ sym (starts_with-hash c s t yes_hash)
  | inr no_hash ↦ elim (Bool-cases (starts_with (String.◌∷◌ c t) "#")) [
    | inl yes_hash ↦ absurd (cc (no_hash, starts_with-hash c t s yes_hash))
    | inr no_hash' ↦ no_hash ∙ sym no_hash'
  ]
]

trim_right-first :
    (c : Char) (s : String)
    → is_space c ≡ false
    → trim_right (String.◌∷◌ c s) ≡ String.◌∷◌ c (trim_right s)
unfolding trim_right
trim_right-first c s other = rw other refl

is_comment_lem : (line : String) → is_comment line ≡ starts_with (trim_space line) "#"
unfolding is_comment trim_space trim_left
is_comment_lem String.[] = unfold trim_right in refl
is_comment_lem (String.◌∷◌ c s) = elim (Bool-cases (is_space c)) [
  | inl space ↦ rw space (is_comment_lem s)
  | inr other ↦ rw other (
      starts-hash c s (trim_right s)
      ∙ sym (ap (λ t. starts_with t "#") (trim_right-first c s other)))
]

pub line_words-fields :
    (ls : List String) → fields "" (join "\n" (without_comments ls)) ≡ line_words ls
unfolding without_comments line_words
line_words-fields [] = unfold join in unfold fields in unfold word in refl
line_words-fields (line ∷ ls) = elim (Bool-cases (is_comment line)) [
  | inl comment ↦ rw (sym (is_comment_lem line)) (rw comment (line_words-fields ls))
  | inr given ↦ rw (sym (is_comment_lem line)) (
      rw given (
        fields-lines line (without_comments ls)
        ∙ ap (λ ws. fields "" line ++ ws) (line_words-fields ls)))
]
