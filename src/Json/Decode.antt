-- ===== src/Json/Decode.antt =====
-- A reader of JSON string literals, written from RFC 8259, gets back every string that
-- `json_print_string` prints.
use airu_v2_fw.Base.{
  ℕ, zero, suc, ◌+◌, ◌-◌, ◌*◌, ◌/◌, ◌%◌, ◌<◌, ◌≡◌, refl, ap, ◌∙◌, arith, List, [], ◌∷◌, ◌++◌,
  Option, none, some, ◌||◌, ltb, leb, ◌==◌, if◌then◌else◌, length, drop, true, append_assoc, inl,
  inr, Bool-cases,
}
use airu_v2_fw.Base.Memory.{◌>>=◌}
use airu_v2_fw.Json.{hex_digit, json_print_string}
use airu_v2_fw.Json.Escape.{escape_byte, escaped, quoted}
use airu_v2_fw.Json.Writes.{json_print_string_lem}

-- The value of a hexadecimal digit, in either case.
abbrev hex_value : ℕ → ℕ
hex_value d = if leb d b'9' then d - b'0' else if leb d b'F' then d - b'A' + 10 else d - b'a' + 10

-- Four digits behind `\u`.
pub read_code : List ℕ → Option (ℕ × List ℕ)
read_code (a ∷ b ∷ c ∷ d ∷ rest) =
    some (hex_value a * 4096 + hex_value b * 256 + hex_value c * 16 + hex_value d, rest)
read_code _ = none

-- What stands behind a backslash.
pub read_escape : List ℕ → Option (ℕ × List ℕ)
unfolding read_code
read_escape [] = none
read_escape (c ∷ cs) =
    if c == b'u'
    then read_code cs
    else if c == b'b'
    then some (8, cs)
    else if c == b'f'
    then some (12, cs)
    else if c == b'n'
    then some (b'\n', cs)
    else if c == b'r'
    then some (b'\r', cs)
    else if c == b't'
    then some (b'\t', cs)
    else if c == b'"' || c == b'\\' || c == b'/'
    then some (c, cs)
    else none

-- The string up to the closing quote, and what follows it; control characters are refused. The
-- fuel counts the characters of the string.
pub read_string : ℕ → List ℕ → Option (List ℕ × List ℕ)
unfolding read_escape
read_string zero cs = none
read_string (suc n) [] = none
read_string (suc n) (c ∷ cs) =
    let plain = read_string n cs >>= λ r. some (c ∷ r.0, r.1) in
    let special = read_escape cs >>= λ e. read_string n e.1 >>= λ r. some (e.0 ∷ r.0, r.1) in
    if c == b'"'
    then some ([], cs)
    else if c == b'\\'
    then special
    else if ltb c 32
    then none
    else plain

hex_value-hex_digit : (d : ℕ) → d < 16 → hex_value (hex_digit d) ≡ d
hex_value-hex_digit d h = ground arith

read_string-escape_byte :
    (n c : ℕ) (t : List ℕ)
    → read_string (suc n) (escape_byte c ++ t) ≡ (read_string n t >>= λ r. some (c ∷ r.0, r.1))
unfolding read_string escape_byte
read_string-escape_byte n c t =
    ground (arith, hex_value-hex_digit (c / 16), hex_value-hex_digit (c % 16))

-- Reading what was printed gives the string back, whatever bytes it has and whatever follows.
pub read_string-escaped :
    (s rest : List ℕ) (n : ℕ)
    → length s < n
    → read_string n (escaped s ++ (b'"' ∷ rest)) ≡ some (s, rest)
unfolding escaped read_string
read_string-escaped s rest zero h = elim h [ ]
read_string-escaped [] rest (suc n) h = refl
read_string-escaped (c ∷ cs) rest (suc n) h =
    ap (read_string (suc n)) (append_assoc (escape_byte c) (escaped cs) (b'"' ∷ rest))
    ∙ read_string-escape_byte n c (escaped cs ++ (b'"' ∷ rest))
    ∙ rw (read_string-escaped cs rest n (omega arith))

-- Whatever `json_print_string` leaves in a buffer reads back: behind the opening quote stands a
-- literal of the input, then the NUL and the rest of the old buffer.
pub read_string-json_print_string :
    (s m m' : List ℕ)
    → json_print_string (some s) (some m) ≡ some (true, some m')
    → read_string (length s + 1) (drop 1 m') ≡ some (s, 0 ∷ drop (length (quoted s)) m)
unfolding quoted
read_string-json_print_string s m m' h = elim (Bool-cases (leb (length (quoted s)) (length m))) [
  | inl fits ↦ rw (printed fits) (
      rw (append_assoc (escaped s) (b'"' ∷ 0 ∷ []) (drop (length (quoted s)) m))
        (read_string-escaped s _ (length s + 1) (omega arith)))
  | inr over ↦ absurd (ground (arith, json_print_string_lem s m))
]
  where
    printed :
        leb (length (quoted s)) (length m) ≡ true → m' ≡ quoted s ++ drop (length (quoted s)) m
    printed fits = ground (arith, json_print_string_lem s m)
