-- ===== src/GraphQl/Query.antt =====
-- `normalizeQuery`, with the functions of Go's strings and unicode that it calls.
use pmp_mock_http.Prelude.{
  split, String, ◌<>◌, Bool, ◌&&◌, ◌||◌, List, [], ◌∷◌, leb, nat_eq, contains, if◌then◌else◌,
  starts_with, ◌==◌,
}
use Prim.Native.Char.{Char, code}

-- unicode.IsSpace
unfoldable pub is_space : Char → Bool
is_space c =
    let n = code c in
    (leb 9 n && leb n 13)
    || (nat_eq n 32
        || (nat_eq n 0x85
            || (nat_eq n 0xA0
                || (nat_eq n 0x1680
                    || ((leb 0x2000 n && leb n 0x200A)
                        || (nat_eq n 0x2028
                            || (nat_eq n 0x2029
                                || (nat_eq n 0x202F || (nat_eq n 0x205F || nat_eq n 0x3000)))))))))

abbrev pub of_char : Char → String
of_char c = String.◌∷◌ c String.[]

-- strings.Fields, with the word that is being read.
unfoldable pub word : String → List String → List String
word current words = if current == "" then words else current ∷ words

unfoldable pub fields : String → String → List String
fields current String.[] = word current []
fields current (String.◌∷◌ c s) =
    let ended = word current (fields "" s) in
    let more = fields (current <> of_char c) s in if is_space c then ended else more

-- strings.Join
unfoldable pub join : String → List String → String
join separator [] = ""
join separator (s ∷ []) = s
join separator (s ∷ t ∷ ts) = s <> (separator <> join separator (t ∷ ts))

unfoldable pub trim_left : String → String
trim_left String.[] = ""
trim_left (String.◌∷◌ c s) = if is_space c then trim_left s else String.◌∷◌ c s

-- The text without the spaces at its end.
unfoldable pub trim_right : String → String
trim_right String.[] = ""
trim_right (String.◌∷◌ c s) =
    let rest = trim_right s in if is_space c && (rest == "") then "" else String.◌∷◌ c rest

-- strings.TrimSpace
unfoldable pub trim_space : String → String
trim_space s = trim_right (trim_left s)

unfoldable pub without_comments : List String → List String
without_comments [] = []
without_comments (line ∷ lines) =
    let rest = without_comments lines in
    if starts_with (trim_space line) "#" then rest else line ∷ rest

unfoldable pub normalize_query : String → String
normalize_query query =
    trim_space (join " " (fields "" (join "\n" (without_comments (split b'\n' "" query)))))

unfoldable pub is_introspection_query : String → Bool
is_introspection_query query =
    let normalized = normalize_query query in
    contains normalized "__schema"
    || (contains normalized "__type" || contains normalized "IntrospectionQuery")
