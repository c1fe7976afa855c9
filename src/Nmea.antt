-- ===== src/Nmea.antt =====
-- main/gps_if.c: the texts of NMEA sentences, their fields, numbers and checksums, and the floats
-- that the parser computes with, which are a parameter.
use airu_v2_fw.Base.{
  ℕ, zero, suc, not, ◌+◌, ◌-◌, ◌*◌, ◌^◌, ◌<◌, ◌≡◌, ◌≢◌, Bool, true, false, ◌&&◌, List, [], ◌∷◌,
  ◌++◌, length, take, drop, get_or, ltb, leb, ◌==◌, if◌then◌else◌, Option, none, some, bit_xor, All,
}
use airu_v2_fw.Base.Int.{ℤ, pos, negsuc}
use airu_v2_fw.Base.Memory.{◌>>=◌}
use airu_v2_fw.Upload.Session.{digits_value, atoi}

-- C's `float` and `double`, which are not told apart, and `atof`, which reads up to a byte that
-- cannot belong to a number. A whole number below 2 ^ 24 is exact.
pub record GpsFloats : Type 1 where
  pub Float : Type 0
  pub of_ℤ : ℤ → Float
  pub micro_six : Float  -- 0.000006
  pub add : Float → Float → Float
  pub sub : Float → Float → Float
  pub mul : Float → Float → Float
  pub div : Float → Float → Float
  pub trunc : Float → ℤ
  pub to_uint : Float → ℕ  -- to `uint32_t`
  pub atof : List ℕ → Float
  pub atof-comma : (t rest : List ℕ) → All (λ c. c ≢ b',') t → atof (t ++ (b',' ∷ rest)) ≡ atof t
  pub atof-digits :
      (t : List ℕ)
      → All (λ c. leb b'0' c && leb c b'9' ≡ true) t
      → digits_value 0 t < 2 ^ 24
      → to_uint (atof t) ≡ digits_value 0 t

abbrev pub head : List ℕ → ℕ
head [] = 0
head (c ∷ _) = c

-- `atol` reads as `atoi` does.
unfoldable pub atol : List ℕ → ℤ
unfolding atoi
atol t = atoi t

-- A function of the size, under the sign: C's division rounds towards 0.
abbrev pub on_size : (ℕ → ℕ) → ℤ → ℤ
on_size f (pos n) = pos (f n)
on_size f (negsuc n) = if f (n + 1) == 0 then pos 0 else negsuc (f (n + 1) - 1)

-- `strchr(p, ',') + 1`
unfoldable pub next_field : List ℕ → Option (List ℕ)
next_field [] = none
next_field (c ∷ cs) = let rest = next_field cs in if c == b',' then some cs else rest

abbrev pub next_fields : ℕ → List ℕ → Option (List ℕ)
next_fields zero p = some p
next_fields (suc n) p = next_field p >>= next_fields n

-- `parseHex`
abbrev pub parse_hex : ℕ → ℕ
parse_hex c =
    if ltb c b'0'
    then 0
    else if leb c b'9'
    then c - b'0'
    else if ltb c b'A'
    then 0
    else if leb c b'F'
    then (c - b'A') + 10
    else 0

-- The loop over the bytes from the third to before the star.
pub xor_all : ℕ → List ℕ → ℕ
xor_all sum [] = sum
xor_all sum (c ∷ cs) = xor_all (bit_xor sum c) cs

-- Whether the fourth byte from the end is a star.
abbrev pub has_star : List ℕ → Bool
has_star nmea = get_or nmea (length nmea - 4) 0 == b'*'

-- The test of the checksum, of a sentence of at least 4 bytes: whether it is rejected.
unfoldable pub is_bad : List ℕ → Bool
unfolding xor_all
is_bad nmea =
    let n = length nmea in
    if has_star nmea
    then not (
        xor_all (parse_hex (get_or nmea (n - 3) 0) * 16 + parse_hex (get_or nmea (n - 2) 0))
          (drop 2 (take (n - 4) nmea))
        == 0)
    else false
