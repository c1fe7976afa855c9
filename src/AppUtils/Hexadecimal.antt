-- ===== src/AppUtils/Hexadecimal.antt =====
-- main/app_utils.c: a text of hexadecimal digits is as good as its bytes.
use airu_v2_fw.Base.{
  ℕ, zero, suc, ◌+◌, ◌-◌, ◌*◌, ◌/◌, ◌%◌, ◌<◌, ◌≡◌, List, [], ◌∷◌, ◌++◌, some, ltb, if◌then◌else◌,
  length, drop, All, arith, refl, sym, ap, ◌∙◌, ◌⊎◌, inl, inr, append_assoc, append-nil,
  length-append,
}
use airu_v2_fw.Base.Memory.{◌>>=◌, store, copy_append}
use airu_v2_fw.AppUtils.{hex_digit, hex_byte, hex_text, app_setmac, print_bytes, print_sha256}

abbrev pub IsByte : ℕ → Type 0
IsByte n = n < 256

-- A reader of hexadecimal digits, which is none of the code's.
unfoldable pub digit_value : ℕ → ℕ
digit_value c = if ltb c b'A' then c - b'0' else if ltb c b'a' then c - b'A' + 10 else c - b'a' + 10

unfoldable pub unhex : List ℕ → List ℕ
unhex [] = []
unhex (h ∷ []) = []
unhex (h ∷ l ∷ text) = (digit_value h * 16 + digit_value l) ∷ unhex text

-- The letters of a form: capitals, or small ones.
abbrev pub IsLetters : ℕ → Type 0
IsLetters a = (a ≡ b'A') ⊎ (a ≡ b'a')

digit_value-hex_digit : (a d : ℕ) → IsLetters a → d < 16 → digit_value (hex_digit a d) ≡ d
unfolding digit_value hex_digit
digit_value-hex_digit a d (inl e) h = ground arith
digit_value-hex_digit a d (inr e) h = ground arith

pub unhex-hex_text :
    (a : ℕ) (bytes : List ℕ) → IsLetters a → All IsByte bytes → unhex (hex_text a bytes) ≡ bytes
unfolding unhex hex_text hex_byte
unhex-hex_text a [] l h = refl
unhex-hex_text a (n ∷ bytes) l h =
    rw
      (
        digit_value-hex_digit a (n / 16) l (omega (arith, h.0)),
        digit_value-hex_digit a (n % 16) l (omega arith),
        unhex-hex_text a bytes l h.1,
      )
      (ap (λ k. k ∷ bytes) (omega arith))

length-hex_text : (a : ℕ) (bytes : List ℕ) → length (hex_text a bytes) ≡ 2 * length bytes
unfolding hex_text hex_byte
length-hex_text a [] = omega arith
length-hex_text a (n ∷ bytes) = omega (arith, length-hex_text a bytes)

full : (m : List ℕ) (n : ℕ) → length m ≡ n → drop n m ≡ []
full [] zero e = refl
full [] (suc n) e = absurd (omega arith)
full (x ∷ m) zero e = absurd (omega arith)
full (x ∷ m) (suc n) e = full m n (omega arith)

-- Whatever stood in the 13 bytes of `DEVICE_MAC`, they are filled by the text of the six bytes and
-- its NUL, and a reader of hexadecimal digits gets the six bytes back from the text.
pub app_setmac-unhex :
    (mac device_mac : List ℕ)
    → length mac ≡ 6
    → All IsByte mac
    → length device_mac ≡ 13
    → (text : List ℕ) × (app_setmac mac device_mac ≡ some (text ++ (0 ∷ []))) × (unhex text ≡ mac)
unfolding app_setmac
app_setmac-unhex mac device_mac e h l = (
  hex_text b'A' mac,
  copy_append (hex_text b'A' mac ++ (0 ∷ [])) [] device_mac 0 refl (omega (arith, size))
      ∙ rw
          (
            full device_mac (length (hex_text b'A' mac ++ (0 ∷ []))) (omega (arith, size)),
            append-nil,
          )
          refl,
  unhex-hex_text b'A' mac (inl refl) h,
)
  where
    size : length (hex_text b'A' mac ++ (0 ∷ [])) ≡ 13
    size = omega (arith, length-append (hex_text b'A' mac) (0 ∷ []), length-hex_text b'A' mac)

-- The loop of `print_sha256` behind what it has printed, where a NUL stands at its end.
print_bytes_lem :
    (bytes text rest : List ℕ) (c i : ℕ)
    → length text ≡ i * 2
    → length rest ≡ 2 * length bytes
    → (length bytes ≡ 0 → c ≡ 0)
    → print_bytes i bytes (text ++ (c ∷ rest)) ≡ some ((text ++ hex_text b'a' bytes) ++ (0 ∷ []))
unfolding print_bytes hex_text hex_byte
print_bytes_lem [] text [] c i e k z = rw (append-nil text, z refl) refl
print_bytes_lem [] text (x ∷ rest) c i e k z = absurd (omega arith)
print_bytes_lem (n ∷ bytes) text [] c i e k z = absurd (omega arith)
print_bytes_lem (n ∷ bytes) text (x ∷ []) c i e k z = absurd (omega arith)
print_bytes_lem (n ∷ bytes) text (x ∷ y ∷ rest) c i e k z =
    rw
      (
        copy_append (hex_byte b'a' n ++ (0 ∷ [])) text (c ∷ x ∷ y ∷ rest) (i * 2) (sym e)
            (omega arith),
        ◌>>=◌,
        ← append_assoc text (hex_byte b'a' n) (0 ∷ rest),
        ← append_assoc text (hex_byte b'a' n) (hex_text b'a' bytes),
      )
      (print_bytes_lem bytes (text ++ hex_byte b'a' n) rest 0 (i + 1)
        (omega (arith, length-append text (hex_byte b'a' n))) (omega arith) (λ _. refl))

store_inside :
    (m : List ℕ) (i v : ℕ)
    → i < length m
    → (m' : List ℕ) × (store m i v ≡ some m') × (length m' ≡ length m)
unfolding store
store_inside [] i v h = absurd (omega arith)
store_inside (x ∷ m) zero v h = (v ∷ m, refl, refl)
store_inside (x ∷ m) (suc i) v h =
    let (m', e, l) = store_inside m i v (omega arith) in (x ∷ m', rw e refl, omega (arith, l))

-- Whatever stood in the 65 bytes of `hash_print`, they are filled by a text and its NUL from which a
-- reader of hexadecimal digits gets the 32 bytes of the digest back.
pub print_sha256-unhex :
    (image_hash hash_print : List ℕ)
    → length image_hash ≡ 32
    → All IsByte image_hash
    → length hash_print ≡ 65
    → (text : List ℕ) × (print_sha256 image_hash hash_print ≡ some (text ++ (0 ∷ [])))
      × (unhex text ≡ image_hash)
unfolding print_sha256
print_sha256-unhex image_hash hash_print e h l =
    let (m, s, k) = store_inside hash_print 64 0 (omega arith) in
    (
      hex_text b'a' image_hash,
      rw (s, ◌>>=◌) (printed m (omega arith)),
      unhex-hex_text b'a' image_hash (inr refl) h,
    )
  where
    printed :
        (m : List ℕ)
        → length m ≡ 65
        → print_bytes 0 image_hash m ≡ some (hex_text b'a' image_hash ++ (0 ∷ []))
    printed [] k = absurd (omega arith)
    printed (c ∷ rest) k =
        print_bytes_lem image_hash [] rest c 0 refl (omega arith) λ z. absurd (omega arith)
