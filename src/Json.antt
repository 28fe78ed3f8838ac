-- ===== src/Json.antt =====
-- `json.dumps(value, default=str)`: the text that sizes and patterns of arguments are taken of.
use Prim.Native.Char.{Char, code}
use langgraph_lens.Prelude.{
  ℕ, ◌+◌, ◌-◌, ◌/◌, ◌%◌, String, ◌<>◌, true, false, ◌&&◌, eqb, leb, if◌then◌else◌,
}
use langgraph_lens.Time.{Fraction}
use langgraph_lens.Text.{decimal}
use langgraph_lens.Value.{
  Value, null, bool, int, float, text, list, dict, object, Items, nil, cons, Fields, end, field,
}

hex_digit : ℕ → String
hex_digit d =
    if eqb d 10
    then "a"
    else if eqb d 11
    then "b"
    else if eqb d 12
    then "c"
    else if eqb d 13
    then "d"
    else if eqb d 14
    then "e"
    else if eqb d 15
    then "f"
    else decimal d

-- `\uXXXX`
unicode_escape : ℕ → String
unfolding hex_digit decimal
unicode_escape n =
    "\\u"
    <> hex_digit (n / 4096 % 16)
    <> hex_digit (n / 256 % 16)
    <> hex_digit (n / 16 % 16)
    <> hex_digit (n % 16)

-- A character inside a JSON text, with `ensure_ascii`.
escaped : Char → String
unfolding unicode_escape
escaped c =
    let n = code c in
    if eqb n 34
    then "\\\""
    else if eqb n 92
    then "\\\\"
    else if eqb n 10
    then "\\n"
    else if eqb n 13
    then "\\r"
    else if eqb n 9
    then "\\t"
    else if eqb n 8
    then "\\b"
    else if eqb n 12
    then "\\f"
    else if leb 32 n && leb n 126
    then String.◌∷◌ c String.[]
    else if leb n 0xffff
    then unicode_escape n
    else unicode_escape (0xd800 + (n - 0x10000) / 1024)
      <> unicode_escape (0xdc00 + (n - 0x10000) % 1024)

escaped_text : String → String
unfolding escaped
escaped_text String.[] = ""
escaped_text (String.◌∷◌ c s) = escaped c <> escaped_text s

unfoldable pub quoted : String → String
unfolding escaped_text
quoted s = "\"" <> escaped_text s <> "\""

module _ (float_repr : Fraction → String) where
  unfoldable mutual
    pub json_dumps : Value → String
    json_dumps null = "null"
    json_dumps (bool true) = "true"
    json_dumps (bool false) = "false"
    json_dumps (int n) = decimal n
    json_dumps (float x) = float_repr x
    json_dumps (text s) = quoted s
    json_dumps (list vs) = "[" <> json_items vs <> "]"
    json_dumps (dict fs) = "{" <> json_fields fs <> "}"
    json_dumps (object s fs) = quoted s

    pub json_items : Items → String
    json_items nil = ""
    json_items (cons v nil) = json_dumps v
    json_items (cons v (cons w vs)) = json_dumps v <> ", " <> json_items (cons w vs)

    pub json_fields : Fields → String
    json_fields end = ""
    json_fields (field k v end) = quoted k <> ": " <> json_dumps v
    json_fields (field k v (field j w fs)) =
        quoted k <> ": " <> json_dumps v <> ", " <> json_fields (field j w fs)
