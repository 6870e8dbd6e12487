-- ===== src/Common/Json.antt =====
-- JSON documents and `json.dumps(document, indent=2, ensure_ascii=…)`.
use refundagent.Common.Chars.{Chars, codes, decimal}
use refundagent.Common.Tests.{ltb, leb, ◌==◌, if◌then◌else◌}
use Prim.Native.Nat.{ℕ, zero, suc, ◌+◌, ◌-◌, ◌*◌, ◌/◌, ◌%◌}
use mathlib.Core.Bool.{Bool, true, false, ◌&&◌, ◌||◌}
use mathlib.Core.List.{List, [], ◌∷◌, ◌++◌}
use refundagent.Domain.Result.{Result, ok, err, unicode_error}
use refundagent.Common.Lists.{any}

mutual
  pub data Json : Type 0 where
    null : Json
    bool : Bool → Json
    int : ℕ → Json
    str : Chars → Json
    arr : Items → Json
    obj : Fields → Json

  pub data Items : Type 0 where
    nil : Items
    cons : Json → Items → Items

  pub data Fields : Type 0 where
    end : Fields
    field : Chars → Json → Fields → Fields

abbrev pub items : List Json → Items
items [] = Items.nil
items (j ∷ js) = Items.cons j (items js)

abbrev hex_digit : ℕ → ℕ
hex_digit d = if ltb d 10 then b'0' + d else b'a' + (d - 10)

-- `\uXXXX`
abbrev unicode_escape : ℕ → Chars
unicode_escape u =
    b'\\'
    ∷ b'u'
    ∷ hex_digit (u / 4096 % 16)
    ∷ hex_digit (u / 256 % 16)
    ∷ hex_digit (u / 16 % 16)
    ∷ hex_digit (u % 16)
    ∷ []

-- A code point above U+FFFF as its surrogates.
abbrev ascii_escape : ℕ → Chars
ascii_escape c =
    if ltb c 65536
    then unicode_escape c
    else unicode_escape (55296 + (c - 65536) / 1024) ++ unicode_escape (56320 + (c - 65536) % 1024)

-- One character of a string; the flag is `ensure_ascii`.
unfoldable pub escape_char : Bool → ℕ → Chars
escape_char ascii c =
    if c == b'"'
    then b'\\' ∷ b'"' ∷ []
    else if c == b'\\'
    then b'\\' ∷ b'\\' ∷ []
    else if c == 10
    then b'\\' ∷ b'n' ∷ []
    else if c == 13
    then b'\\' ∷ b'r' ∷ []
    else if c == 9
    then b'\\' ∷ b't' ∷ []
    else if c == 12
    then b'\\' ∷ b'f' ∷ []
    else if c == 8
    then b'\\' ∷ b'b' ∷ []
    else if ltb c 32 || (ascii && leb 127 c)
    then ascii_escape c
    else c ∷ []

abbrev escape : Bool → Chars → Chars
escape ascii [] = []
escape ascii (c ∷ s) = escape_char ascii c ++ escape ascii s

unfoldable pub quote : Bool → Chars → Chars
unfolding escape_char
quote ascii s = b'"' ∷ (escape ascii s ++ b'"' ∷ [])

abbrev blanks : ℕ → Chars
blanks zero = []
blanks (suc n) = b' ' ∷ blanks n

-- A line break and the indentation of a level.
abbrev break : ℕ → Chars
break level = 10 ∷ blanks (2 * level)

abbrev print_bool : Bool → Chars
print_bool true = codes "true"
print_bool false = codes "false"

unfoldable mutual
  unfolding quote

  pub print : Bool → ℕ → Json → Chars
  print a l Json.null = codes "null"
  print a l (Json.bool b) = print_bool b
  print a l (Json.int n) = decimal n
  print a l (Json.str s) = quote a s
  print a l (Json.arr Items.nil) = codes "[]"
  print a l (Json.arr (Items.cons j js)) =
      b'['
      ∷ (break (l + 1) ++ (print a (l + 1) j ++ (print_items a l js ++ (break l ++ b']' ∷ []))))
  print a l (Json.obj Fields.end) = codes "{}"
  print a l (Json.obj (Fields.field k j fs)) =
      b'{'
      ∷ (break (l + 1)
          ++ (quote a k
              ++ (codes ": "
                  ++ (print a (l + 1) j ++ (print_fields a l fs ++ (break l ++ b'}' ∷ []))))))

  pub print_items : Bool → ℕ → Items → Chars
  print_items a l Items.nil = []
  print_items a l (Items.cons j js) =
      b',' ∷ (break (l + 1) ++ (print a (l + 1) j ++ print_items a l js))

  pub print_fields : Bool → ℕ → Fields → Chars
  print_fields a l Fields.end = []
  print_fields a l (Fields.field k j fs) =
      b','
      ∷ (break (l + 1) ++ (quote a k ++ (codes ": " ++ (print a (l + 1) j ++ print_fields a l fs))))

-- `json.dumps(document, indent=2, ensure_ascii=ascii)`
unfoldable pub dumps : Bool → Json → Chars
unfolding print
dumps ascii document = print ascii 0 document

-- The length of a code point in UTF-8.
abbrev pub utf8_width : ℕ → ℕ
utf8_width c = if ltb c 128 then 1 else if ltb c 2048 then 2 else if ltb c 65536 then 3 else 4

-- The length of a text in UTF-8.
unfoldable pub utf8_length : Chars → ℕ
utf8_length [] = 0
utf8_length (c ∷ s) = utf8_width c + utf8_length s

-- A code point that UTF-8 cannot write.
abbrev pub is_surrogate : ℕ → Bool
is_surrogate c = leb 55296 c && ltb c 57344

abbrev pub has_surrogate : Chars → Bool
has_surrogate text = any is_surrogate text

-- `len(text.encode("utf-8"))`, which raises on a surrogate.
abbrev pub encoded_length : Chars → Result ℕ
encoded_length text = if has_surrogate text then err unicode_error else ok (utf8_length text)
