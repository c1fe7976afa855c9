-- ===== src/Mqtt/Tokens.antt =====
-- The words of a payload, as main/mqtt_if.c takes them with `strtok`.
use airu_v2_fw.Base.{
  ℕ, ◌+◌, ◌<◌, ◌≤◌, ◌≡◌, ◌≢◌, List, [], ◌∷◌, ◌++◌, length, codes, Option, none, some, All,
  All-append, arith, refl, inl, ◌⊎◌, length-append, append-nil,
}
use airu_v2_fw.Base.Bytes.{c_string}
use airu_v2_fw.Mqtt.{skip_spaces, split_space, strtok}

-- A word: no space and no NUL, and not empty.
abbrev pub IsWordByte : ℕ → Type 0
IsWordByte c = (c ≢ b' ') × (c ≢ 0)

pub record IsWord (w : List ℕ) : Type 0 where
  pub some_byte : 0 < length w
  pub bytes : All IsWordByte w

pub c_string_lem : (t : List ℕ) → All (λ c. c ≢ 0) t → c_string t ≡ t
unfolding c_string
c_string_lem [] h = refl
c_string_lem (c ∷ t) h = ground (arith, c_string_lem t h.1, h.0)

pub split_space-append :
    (w rest : List ℕ) → All IsWordByte w → split_space (w ++ (b' ' ∷ rest)) ≡ (w, rest)
unfolding split_space
split_space-append [] rest h = ground arith
split_space-append (c ∷ w) rest h = ground (arith, split_space-append w rest h.1, h.0)

pub split_space-word : (w : List ℕ) → All IsWordByte w → split_space w ≡ (w, [])
unfolding split_space
split_space-word [] h = refl
split_space-word (c ∷ w) h = ground (arith, split_space-word w h.1, h.0)

pub skip_spaces-word : (w rest : List ℕ) → IsWord w → skip_spaces (w ++ rest) ≡ w ++ rest
unfolding skip_spaces
skip_spaces-word [] rest h = absurd (omega (arith, h.some_byte))
skip_spaces-word (c ∷ w) rest h = ground (arith, h.bytes.0)

pub strtok-append : (w rest : List ℕ) → IsWord w → strtok (w ++ (b' ' ∷ rest)) ≡ some (w, rest)
unfolding strtok
strtok-append w rest h = ground (
  arith,
  skip_spaces-word w (b' ' ∷ rest) h,
  split_space-append w rest h.bytes,
  length-append w (b' ' ∷ rest),
)

pub strtok-word : (w : List ℕ) → IsWord w → strtok w ≡ some (w, [])
unfolding strtok
strtok-word w h =
    ground (arith, skip_spaces-word w [] h, append-nil w, split_space-word w h.bytes, h.some_byte)

-- A token and what follows it are shorter than the text, by the space between them.
abbrev pub Within : ℕ → Option (List ℕ × List ℕ) → Type 0
Within n none = Unit
Within n (some (a, r)) = (length a + length r ≤ n) × (length r ≡ 0 ⊎ length a + length r < n)

pub split_space-length :
    (t : List ℕ)
    → (length (split_space t).0 + length (split_space t).1 ≤ length t)
      × ((length (split_space t).1 ≡ 0)
          ⊎ (length (split_space t).0 + length (split_space t).1 < length t))
unfolding split_space
split_space-length [] = (omega arith, inl refl)
split_space-length (c ∷ t) = let ih = split_space-length t in ground (arith, ih)

pub length-skip_spaces : (t : List ℕ) → length (skip_spaces t) ≤ length t
unfolding skip_spaces
length-skip_spaces [] = omega arith
length-skip_spaces (c ∷ t) = ground (arith, length-skip_spaces t)

pub length-c_string : (t : List ℕ) → length (c_string t) ≤ length t
unfolding c_string
length-c_string [] = omega arith
length-c_string (c ∷ t) = ground (arith, length-c_string t)

pub strtok-Within : (t : List ℕ) → Within (length t) (strtok t)
unfolding strtok
strtok-Within t = ground (arith, split_space-length (skip_spaces t), length-skip_spaces t)

abbrev pub ota_payload : List ℕ → List ℕ
ota_payload name = codes "ota" ++ (b' ' ∷ name)

pub ota-IsWord : IsWord (codes "ota")
ota-IsWord = record { some_byte = omega arith; bytes = omega arith }

pub has_no_nul : (w : List ℕ) → All IsWordByte w → All (λ c. c ≢ 0) w
has_no_nul [] h = tt
has_no_nul (c ∷ w) h = (h.0.1, has_no_nul w h.1)

pub ota_payload-c_string :
    (name : List ℕ) → IsWord name → c_string (ota_payload name) ≡ ota_payload name
ota_payload-c_string name h = c_string_lem (ota_payload name) (
    All-append (λ c. c ≢ 0) (codes "ota") (b' ' ∷ name) (omega arith)
      (omega arith, has_no_nul name h.bytes))
