-- ===== src/GraphQl/Words.antt =====
-- Two queries are the same once normalised exactly if they have the same words.
use pmp_mock_http.Prelude.{
  split, ap, String, ◌<>◌, Bool, true, false, not, List, [], ◌∷◌, ◌==◌, ◌≡◌, refl, sym, ◌∙◌, ◌↔◌,
  inl, inr, arith, Bool-cases, eq_of_==, All, all_runes, all_runes-append,
}
use text.Mathlib.TextLemmas.{nil-append, append-nil, cons-append, append_assoc}
use pmp_mock_http.GraphQl.Query.{
  is_space, of_char, word, fields, join, trim_left, trim_right, trim_space, without_comments,
  normalize_query,
}
use pmp_mock_http.GraphQl.Lines.{line_words, line_words-fields}

-- The words of a query, line by line.
abbrev pub query_words : String → List String
query_words query = line_words (split b'\n' "" query)

fields-trim_left : (s : String) → fields "" (trim_left s) ≡ fields "" s
unfolding fields trim_left word
fields-trim_left String.[] = refl
fields-trim_left (String.◌∷◌ c s) = ground (arith, fields-trim_left s)

fields-trim_right : (current s : String) → fields current (trim_right s) ≡ fields current s
unfolding fields trim_right word
fields-trim_right current String.[] = refl
fields-trim_right current (String.◌∷◌ c s) = elim (Bool-cases (is_space c)) [
  | inl space ↦ elim (Bool-cases (trim_right s == "")) [
    | inl blank ↦
        let none_left : fields "" s ≡ [] =
          sym (fields-trim_right "" s) ∙ ap (fields "") (eq_of_== (trim_right s) "" blank) in
        rw space (rw blank (rw none_left refl))
    | inr more ↦ rw space (rw more (rw space (ap (word current) (fields-trim_right "" s))))
  ]
  | inr other ↦ rw other (rw other (fields-trim_right (current <> of_char c) s))
]

fields-trim_space : (s : String) → fields "" (trim_space s) ≡ fields "" s
unfolding trim_space
fields-trim_space s = fields-trim_right "" (trim_left s) ∙ fields-trim_left s

-- A text without spaces, and one that is a word.
abbrev is_solid : String → Bool
is_solid = all_runes (λ c. not (is_space c))

abbrev IsWord : String → Type 0
IsWord w = (is_solid w ≡ true) × ((w == "") ≡ false)

fields-IsWord : (current s : String) → is_solid current ≡ true → All IsWord (fields current s)
unfolding fields word all_runes
fields-IsWord current String.[] h = ground arith
fields-IsWord current (String.◌∷◌ c s) h = elim (Bool-cases (is_space c)) [
  | inl space ↦ elim (Bool-cases (current == "")) [
    | inl empty ↦ rw space (rw empty (fields-IsWord "" s refl))
    | inr given ↦ rw space (rw given ((h, given), fields-IsWord "" s refl))
  ]
  | inr other ↦ rw other (
      fields-IsWord (current <> of_char c) s
        (all_runes-append (λ c. not (is_space c)) current (of_char c) h (ground arith)))
]

fields-solid :
    (current w s : String) → is_solid w ≡ true → fields current (w <> s) ≡ fields (current <> w) s
unfolding fields all_runes
fields-solid current String.[] s h =
    ap (fields current) (nil-append s) ∙ ap (λ t. fields t s) (sym (append-nil current))
fields-solid current (String.◌∷◌ c w) s h =
    let here : is_space c ≡ false = ground arith in
    let rest : is_solid w ≡ true = ground arith in
    ap (fields current) (cons-append c w s)
    ∙ rw here (
        fields-solid (current <> of_char c) w s rest
        ∙ ap (λ t. fields t s)
            (append_assoc current (of_char c) w
              ∙ ap (λ t. current <> t)
                  (cons-append c "" w ∙ ap (λ t. String.◌∷◌ c t) (nil-append w))))

fields-space : (current s : String) → fields current (" " <> s) ≡ word current (fields "" s)
unfolding fields is_space
fields-space current s =
    ap (fields current) (cons-append " " "" s ∙ ap (λ t. String.◌∷◌ " " t) (nil-append s))

word-given : (w : String) (words : List String) → (w == "") ≡ false → word w words ≡ w ∷ words
unfolding word
word-given w words h = rw h refl

fields-nil : (current : String) → fields current "" ≡ word current []
unfolding fields
fields-nil current = refl

fields-join : (words : List String) → All IsWord words → fields "" (join " " words) ≡ words
unfolding join
fields-join [] h = unfold fields in unfold word in refl
fields-join (w ∷ []) ((solid, given), h) =
    ap (fields "") (sym (append-nil w))
    ∙ fields-solid "" w "" solid
    ∙ ap (λ t. fields t "") (nil-append w)
    ∙ fields-nil w
    ∙ word-given w [] given
fields-join (w ∷ v ∷ words) ((solid, given), h) =
    fields-solid "" w (" " <> join " " (v ∷ words)) solid
    ∙ ap (λ t. fields t (" " <> join " " (v ∷ words))) (nil-append w)
    ∙ fields-space w (join " " (v ∷ words))
    ∙ ap (word w) (fields-join (v ∷ words) h)
    ∙ word-given w (v ∷ words) given

fields-normalize_query : (query : String) → fields "" (normalize_query query) ≡ query_words query
unfolding normalize_query
fields-normalize_query query =
    let ls = without_comments (split b'\n' "" query) in
    let words = fields "" (join "\n" ls) in
    fields-trim_space (join " " words)
    ∙ fields-join words (fields-IsWord "" (join "\n" ls) (unfold all_runes in refl))
    ∙ line_words-fields (split b'\n' "" query)

-- Two queries are normalised to the same text exactly if they have the same words in the same order
-- once the lines that start with "#" are left out; the layout of the words is of no account.
pub normalize_query-eq_iff :
    (p q : String) → (normalize_query p ≡ normalize_query q) ↔ (query_words p ≡ query_words q)
normalize_query-eq_iff p q = (
  λ h. sym (fields-normalize_query p) ∙ ap (fields "") h ∙ fields-normalize_query q,
  λ h.
      unfold normalize_query in
      ap (λ ws. trim_space (join " " ws))
        (line_words-fields (split b'\n' "" p) ∙ h ∙ sym (line_words-fields (split b'\n' "" q))),
)
