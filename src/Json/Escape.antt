-- ===== src/Json/Escape.antt =====
-- The JSON string literal that `json_print_string` promises, and its length.
use airu_v2_fw.Base.{
  ℕ, ◌+◌, ◌/◌, ◌%◌, List, [], ◌∷◌, ◌++◌, ◌≡◌, ◌≤◌, refl, ap, arith, ltb, ◌==◌, if◌then◌else◌,
  length, length-append,
}
use airu_v2_fw.Json.{hex_digit, has_short_escape, count_escapes}

-- The character behind the backslash, for a byte with a short escape.
abbrev pub short_letter : ℕ → ℕ
short_letter c =
    if c == 8
    then b'b'
    else if c == 12
    then b'f'
    else if c == b'\n'
    then b'n'
    else if c == b'\r'
    then b'r'
    else if c == b'\t'
    then b't'
    else c

-- RFC 8259: quotes, backslashes and control characters are escaped, all else stands for itself.
unfoldable pub escape_byte : ℕ → List ℕ
escape_byte c =
    if has_short_escape c
    then b'\\' ∷ short_letter c ∷ []
    else if ltb c 32
    then b'\\' ∷ b'u' ∷ b'0' ∷ b'0' ∷ hex_digit (c / 16) ∷ hex_digit (c % 16) ∷ []
    else c ∷ []

unfoldable pub escaped : List ℕ → List ℕ
unfolding escape_byte
escaped [] = []
escaped (c ∷ cs) = escape_byte c ++ escaped cs

-- The literal with its NUL.
unfoldable pub quoted : List ℕ → List ℕ
unfolding escaped
quoted s = b'"' ∷ (escaped s ++ (b'"' ∷ 0 ∷ []))

-- The extra characters of one byte.
pub length-escape_byte :
    (c : ℕ)
    → length (escape_byte c) ≡ 1 + (if has_short_escape c then 1 else if ltb c 32 then 5 else 0)
unfolding escape_byte
length-escape_byte c = ground arith

pub count_escapes_lem : (n : ℕ) (s : List ℕ) → count_escapes n s + length s ≡ n + length (escaped s)
unfolding count_escapes escaped
count_escapes_lem n [] = refl
count_escapes_lem n (c ∷ cs) = ground (
  arith,
  length-append (escape_byte c) (escaped cs),
  length-escape_byte c,
  count_escapes_lem (if has_short_escape c then n + 1 else if ltb c 32 then n + 5 else n) cs,
)

pub length-quoted : (s : List ℕ) → length (quoted s) ≡ length (escaped s) + 3
unfolding quoted
length-quoted s = omega (arith, length-append (escaped s) (b'"' ∷ 0 ∷ []))

length-escaped_le : (s : List ℕ) → length s ≤ length (escaped s)
length-escaped_le s = omega (arith, count_escapes_lem 0 s)

escape_byte_plain : (c : ℕ) → length (escape_byte c) ≤ 1 → escape_byte c ≡ c ∷ []
unfolding escape_byte
escape_byte_plain c h = ground arith

-- A string that the first loop finds nothing to escape in is its own escape.
pub escaped_plain : (s : List ℕ) → length (escaped s) ≡ length s → escaped s ≡ s
unfolding escaped
escaped_plain [] h = refl
escaped_plain (c ∷ cs) h =
    rw
      (escape_byte_plain c (
        omega (
          arith,
          length-append (escape_byte c) (escaped cs),
          length-escape_byte c,
          length-escaped_le cs,
        )))
      (ap (◌∷◌ c) (
        escaped_plain cs (
          omega (
            arith,
            length-append (escape_byte c) (escaped cs),
            length-escape_byte c,
            length-escaped_le cs,
          ))))
