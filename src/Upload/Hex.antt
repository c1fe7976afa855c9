-- ===== src/Upload/Hex.antt =====
-- The size lines of chunks in main/http_file_upload.c are read back as the standard says.
use airu_v2_fw.Base.{
  ℕ, zero, suc, ◌+◌, ◌-◌, ◌*◌, ◌/◌, ◌%◌, ◌<◌, ◌≤◌, ◌^◌, ◌≡◌, Bool, ◌&&◌, ◌||◌, List, [], ◌∷◌, ◌++◌,
  refl, ap, ◌∙◌, arith, leb, if◌then◌else◌, length,
}
use airu_v2_fw.Json.{hex_digit}
use airu_v2_fw.Upload.{hex_onto, size_line, crlf}

abbrev is_hex : ℕ → Bool
is_hex c = leb b'0' c && leb c b'9' || leb b'a' c && leb c b'f'

abbrev hex_value : ℕ → ℕ
hex_value c = if leb c b'9' then c - b'0' else c - b'a' + 10

-- The number that the leading hexadecimal digits continue, and what follows them.
pub read_size : ℕ → List ℕ → ℕ × List ℕ
read_size n [] = (n, [])
read_size n (c ∷ cs) =
    let rest = read_size (n * 16 + hex_value c) cs in if is_hex c then rest else (n, c ∷ cs)

read_size-hex_digit :
    (n d : ℕ) (text : List ℕ)
    → d < 16
    → read_size n (hex_digit d ∷ text) ≡ read_size (n * 16 + d) text
unfolding read_size
read_size-hex_digit n d text h = ground (arith)

read_size-hex_onto :
    (fuel n : ℕ) (text : List ℕ) → n < fuel → read_size 0 (hex_onto fuel n text) ≡ read_size n text
unfolding hex_onto
read_size-hex_onto zero n text h = absurd (omega arith)
read_size-hex_onto (suc fuel) n text h = ground (
  arith,
  read_size-hex_digit 0 n text,
  read_size-hex_onto fuel (n / 16) (hex_digit (n % 16) ∷ text),
  read_size-hex_digit (n / 16) (n % 16) text,
)

hex_onto_append :
    (fuel n : ℕ) (text rest : List ℕ)
    → hex_onto fuel n text ++ rest ≡ hex_onto fuel n (text ++ rest)
unfolding hex_onto
hex_onto_append zero n text rest = refl
hex_onto_append (suc fuel) n text rest =
    ground (arith, hex_onto_append fuel (n / 16) (hex_digit (n % 16) ∷ text) rest)

-- A size line reads back as its number, with the line's end behind it.
pub read_size-size_line :
    (n : ℕ) (rest : List ℕ) → read_size 0 (size_line n ++ rest) ≡ (n, crlf ++ rest)
unfolding size_line read_size
read_size-size_line n rest =
    ap (read_size 0) (hex_onto_append (n + 1) n crlf rest)
    ∙ read_size-hex_onto (n + 1) n (crlf ++ rest) (omega arith)

power : ℕ → ℕ
power zero = 1
power (suc k) = 16 * power k

length-hex_onto :
    (k fuel n : ℕ) (text : List ℕ)
    → n < power (suc k)
    → length (hex_onto fuel n text) ≤ suc k + length text
unfolding hex_onto power
length-hex_onto k zero n text h = omega arith
length-hex_onto zero (suc fuel) n text h = ground arith
length-hex_onto (suc k) (suc fuel) n text h =
    ground (arith, length-hex_onto k fuel (n / 16) (hex_digit (n % 16) ∷ text))

pub length-size_line : (n : ℕ) → n < 2 ^ 32 → length (size_line n) ≤ 10
unfolding size_line power
length-size_line n h = length-hex_onto 7 (n + 1) n crlf h
