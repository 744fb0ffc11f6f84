-- ===== src/Sse/Reader.antt =====
-- A reader of event streams, as the WHATWG specification of server-sent events describes it, of the
-- decoded text: lines end with LF, CR or both; a field has the text after the colon, or "" without
-- one; a blank line ends an event, and one without data is dropped; the last id and the reconnection
-- time outlive an event; an id with U+0000 and a time that is not of digits are not taken.
use pmp_mock_http.Prelude.{
  ◌∙◌, ◌&&◌, leb, ap, String, ◌<>◌, Bool, true, false, not, ◌||◌, Option, none, some, List, [], ◌∷◌,
  ◌++◌, nat_eq, if◌then◌else◌, ◌≡◌, refl, arith, sym, all_runes, all_runes-append,
}
use Prim.Native.Char.{Char, code}
use text.Mathlib.TextLemmas.{nil-append, cons-append, append_assoc}

pub record Fields : Type 0 where
  pub event_type : String
  pub last_id : String
  pub retry : Option String
  pub data_lines : List String

-- Between two events: the last id and the reconnection time.
abbrev pub idle : String → Option String → Fields
idle last_id retry = record { event_type = ""; last_id = last_id; retry = retry; data_lines = [] }

unfoldable pub ends_line : Char → Bool
ends_line c = nat_eq (code c) 10 || nat_eq (code c) 13

-- A text on one line.
abbrev pub is_one_line : String → Bool
is_one_line = all_runes (λ c. not (ends_line c))

unfoldable pub to_first : Char → List String → List String
to_first c [] = String.◌∷◌ c String.[] ∷ []
to_first c (l ∷ ls) = String.◌∷◌ c l ∷ ls

-- An LF after a CR ends no further line.
unfoldable pub lines_from : Bool → String → List String
lines_from after_cr String.[] = []
lines_from after_cr (String.◌∷◌ c s) =
    let rest = lines_from false s in
    let next = lines_from (nat_eq (code c) 13) s in
    if after_cr && nat_eq (code c) 10
    then rest
    else if ends_line c
    then "" ∷ next
    else to_first c rest

-- What follows a prefix.
unfoldable pub after : String → String → Option String
after String.[] s = some s
after (String.◌∷◌ c p) String.[] = none
after (String.◌∷◌ c p) (String.◌∷◌ d s) = if nat_eq (code c) (code d) then after p s else none

unfoldable pub or_all : String → Option String → String
or_all s none = s
or_all s (some t) = t

-- The value of a field, from what follows its name: the text after the colon, without a space at its
-- front, or "" if nothing follows.
unfoldable pub by_colon : String → Option String
by_colon String.[] = some ""
by_colon (String.◌∷◌ c s) = if nat_eq (code c) b':' then some (or_all s (after " " s)) else none

unfoldable pub value : Option String → Option String
unfolding by_colon
value none = none
value (some s) = by_colon s

abbrev pub is_digits : String → Bool
is_digits = all_runes (λ c. leb b'0' (code c) && leb (code c) b'9')

-- A text without U+0000.
abbrev pub is_without_nul : String → Bool
is_without_nul = all_runes (λ c. not (nat_eq (code c) 0))

unfoldable pub set_or : Option String → (String → Fields) → Fields → Fields
set_or none set fields = fields
set_or (some v) set fields = set v

unfoldable pub read_field : String → Fields → Fields
read_field l fields =
    set_or (value (after "event" l)) (λ v. record fields { event_type = v })
      (set_or (value (after "id" l))
        (λ v. if is_without_nul v then record fields { last_id = v } else fields)
        (set_or (value (after "retry" l))
          (λ v. if is_digits v then record fields { retry = some v } else fields)
          (set_or (value (after "data" l))
            (λ v. record fields { data_lines = fields.data_lines ++ v ∷ [] }) fields)))

unfoldable pub is_blank : String → Bool
is_blank String.[] = true
is_blank (String.◌∷◌ c s) = false

unfoldable pub dispatched : Fields → List String → List Fields → List Fields
dispatched fields [] events = events
dispatched fields (v ∷ vs) events = fields ∷ events

-- What is left when the stream ends is no event.
unfoldable pub read_lines : Fields → List String → List Fields
read_lines fields [] = []
read_lines fields (l ∷ ls) =
    let next =
      dispatched fields fields.data_lines (read_lines (idle fields.last_id fields.retry) ls) in
    let more = read_lines (read_field l fields) ls in if is_blank l then next else more

unfoldable pub read_stream : Fields → String → List Fields
read_stream fields s = read_lines fields (lines_from false s)

lines-append :
    (s rest : String)
    → is_one_line s ≡ true
    → lines_from false (s <> ("\n" <> rest)) ≡ s ∷ lines_from false rest
unfolding lines_from all_runes to_first ends_line
lines-append String.[] rest h =
    rw nil-append (rw (cons-append "\n" "" rest) (rw (nil-append rest) refl))
lines-append (String.◌∷◌ c s) rest h =
    rw (cons-append c s ("\n" <> rest)) (ground (arith, lines-append s rest))

after-append : (p q x r : String) → after p q ≡ some r → after p (q <> x) ≡ some (r <> x)
unfolding after
after-append String.[] q x r h = cc
after-append (String.◌∷◌ c p) String.[] x r h = cc
after-append (String.◌∷◌ c p) (String.◌∷◌ d q) x r h =
    rw (cons-append d q x) (ground (arith, after-append p q x r))

-- Whether two texts differ at a place that both have.
differ : String → String → Bool
differ String.[] q = false
differ (String.◌∷◌ c p) String.[] = false
differ (String.◌∷◌ c p) (String.◌∷◌ d q) = if nat_eq (code c) (code d) then differ p q else true

after-differ : (p q x : String) → differ p q ≡ true → after p (q <> x) ≡ none
unfolding after differ
after-differ String.[] q x h = cc
after-differ (String.◌∷◌ c p) String.[] x h = cc
after-differ (String.◌∷◌ c p) (String.◌∷◌ d q) x h =
    rw (cons-append d q x) (ground (arith, after-differ p q x))

after_space : after " " " " ≡ some ""
unfolding after
after_space = refl

by_colon-space : (x : String) → by_colon (": " <> x) ≡ some x
unfolding by_colon or_all
by_colon-space x =
    ap by_colon (cons-append ":" " " x)
    ∙ ap (λ o. some (or_all (" " <> x) o)) (after-append " " " " x "" after_space)
    ∙ ap some (nil-append x)

value-append : (p q x : String) → after p q ≡ some ": " → value (after p (q <> x)) ≡ some x
unfolding value
value-append p q x h = ap value (after-append p q x ": " h) ∙ by_colon-space x

pub read_field-event :
    (e : String) (fields : Fields)
    → read_field ("event: " <> e) fields ≡ record fields { event_type = e }
unfolding read_field set_or after
read_field-event e fields = rw (value-append "event" "event: " e refl) refl

pub read_field-id :
    (e : String) (fields : Fields)
    → is_without_nul e ≡ true
    → read_field ("id: " <> e) fields ≡ record fields { last_id = e }
unfolding read_field set_or after value differ
read_field-id e fields plain =
    rw (after-differ "event" "id: " e refl) (rw (value-append "id" "id: " e refl) (rw plain refl))

pub read_field-retry :
    (e : String) (fields : Fields)
    → is_digits e ≡ true
    → read_field ("retry: " <> e) fields ≡ record fields { retry = some e }
unfolding read_field set_or after value differ
read_field-retry e fields digits = rw (after-differ "event" "retry: " e refl) (
    rw (after-differ "id" "retry: " e refl)
      (rw (value-append "retry" "retry: " e refl) (rw digits refl)))

pub read_field-data :
    (e : String) (fields : Fields)
    → read_field ("data: " <> e) fields ≡ record fields { data_lines = fields.data_lines ++ e ∷ [] }
unfolding read_field set_or after value differ
read_field-data e fields = rw (after-differ "event" "data: " e refl) (
    rw (after-differ "id" "data: " e refl)
      (rw (after-differ "retry" "data: " e refl) (rw (value-append "data" "data: " e refl) refl)))

is_blank-append : (s t : String) → is_blank s ≡ false → is_blank (s <> t) ≡ false
unfolding is_blank
is_blank-append String.[] t h = cc
is_blank-append (String.◌∷◌ c s) t h = rw (cons-append c s t) refl

-- A line that starts with a name is read as a field.
pub read_stream-field :
    (fields : Fields) (name v rest : String)
    → is_one_line name ≡ true
    → is_blank name ≡ false
    → is_one_line v ≡ true
    → read_stream fields ((name <> (v <> "\n")) <> rest)
      ≡ read_stream (read_field (name <> v) fields) rest
unfolding read_stream read_lines
read_stream-field fields name v rest one given one' = rw (← append_assoc name v "\n") (
    rw (append_assoc (name <> v) "\n" rest) (
      rw (lines-append (name <> v) rest (all_runes-append (λ c. not (ends_line c)) name v one one'))
        (rw (is_blank-append name v given) refl)))

-- A blank line after data ends an event.
pub read_stream-blank :
    (fields : Fields) (v : String) (vs : List String) (rest : String)
    → fields.data_lines ≡ v ∷ vs
    → read_stream fields ("\n" <> rest)
      ≡ fields ∷ read_stream (idle fields.last_id fields.retry) rest
unfolding read_stream read_lines dispatched is_blank all_runes
read_stream-blank fields v vs rest h =
    rw (sym (nil-append ("\n" <> rest))) (rw (lines-append "" rest refl) (ground (arith, h)))
