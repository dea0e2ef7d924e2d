-- ===== src/Json.antt =====
-- What the program uses of `json.dumps`, with `separators=(",", ":")` and `ensure_ascii=False`, or on
-- ASCII text: the text of each kind of value, from the texts of its parts.
use specode_review.Base.{
  ℕ, ◌+◌, ◌-◌, ◌/◌, ◌%◌, List, [], ◌∷◌, ◌++◌, Text, text, nat_eq, ltb, if◌then◌else◌,
}

abbrev hex_digit : ℕ → ℕ
hex_digit n = if ltb n 10 then b'0' + n else b'a' + (n - 10)

-- `\u00xy`
abbrev control_escape : ℕ → Text
control_escape c = text "\\u00" ++ hex_digit (c / 16) ∷ hex_digit (c % 16) ∷ []

unfoldable pub json_char : ℕ → Text
json_char c =
    if nat_eq c b'"'
    then text "\\\""
    else if nat_eq c b'\\'
    then text "\\\\"
    else if nat_eq c 10
    then text "\\n"
    else if nat_eq c 13
    then text "\\r"
    else if nat_eq c 9
    then text "\\t"
    else if nat_eq c 8
    then text "\\b"
    else if nat_eq c 12
    then text "\\f"
    else if ltb c 32
    then control_escape c
    else c ∷ []

unfoldable pub json_chars : Text → Text
unfolding json_char
json_chars [] = []
json_chars (c ∷ s) = json_char c ++ json_chars s

abbrev pub json_string : Text → Text
json_string s = b'"' ∷ json_chars s ++ b'"' ∷ []

abbrev separated : List Text → Text
separated [] = []
separated (x ∷ []) = x
separated (x ∷ y ∷ xs) = x ++ b',' ∷ separated (y ∷ xs)

abbrev pub json_array : List Text → Text
json_array values = b'[' ∷ separated values ++ b']' ∷ []

abbrev member : Text × Text → Text
member (key, value) = json_string key ++ b':' ∷ value

abbrev members : List (Text × Text) → List Text
members [] = []
members (m ∷ ms) = member m ∷ members ms

abbrev pub json_object : List (Text × Text) → Text
json_object ms = b'{' ∷ separated (members ms) ++ b'}' ∷ []
