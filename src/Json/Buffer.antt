-- ===== src/Json/Buffer.antt =====
-- A C string in a buffer, and what `strcat` and `json_print_string` put behind it.
use airu_v2_fw.Base.{
  ℕ, zero, suc, ◌+◌, ◌/◌, ◌%◌, ◌<◌, ◌≤◌, ◌≡◌, ◌≢◌, List, [], ◌∷◌, ◌++◌, length, take, drop, ◌==◌,
  if◌then◌else◌, Option, none, some, All, All-append, arith, refl, sym, ap, ◌⊎◌, inl, inr,
  Option-cases,
}
use airu_v2_fw.Base.Memory.{◌>>=◌, copy, store}
use airu_v2_fw.Json.{json_print_string, hex_digit}
use airu_v2_fw.Json.Escape.{escaped, escape_byte}

unfoldable pub strlen : List ℕ → ℕ
strlen [] = 0
strlen (c ∷ cs) = let n = strlen cs in if c == 0 then 0 else suc n

-- `strcat(m, text)`
unfoldable pub strcat : List ℕ → List ℕ → Option (List ℕ)
strcat text m = copy m (strlen m) (text ++ (0 ∷ []))

-- `strcpy(m, text)`
unfoldable pub strcpy : List ℕ → List ℕ → Option (List ℕ)
strcpy text m = copy m 0 (text ++ (0 ∷ []))

-- `json_print_string(input, m + strlen(m))`
unfoldable pub print_json : List ℕ → List ℕ → Option (List ℕ)
print_json input m = json_print_string (some input) (some (drop (strlen m) m)) >>= λ r.
    r.1 >>= λ behind. some (take (strlen m) m ++ behind)

-- The literal without its NUL.
unfoldable pub literal : List ℕ → List ℕ
literal s = b'"' ∷ (escaped s ++ (b'"' ∷ []))

abbrev pub NoNul : List ℕ → Type 0
NoNul t = All (λ c. c ≢ 0) t

-- The result of building a text in a buffer of that size: the text with its NUL, or undefined
-- behaviour exactly if there is no room for them.
pub record Holds (n : ℕ) (text : List ℕ) (o : Option (List ℕ)) : Type 0 where
  pub rest : List ℕ
  pub is_text : o ≡ some (text ++ (0 ∷ rest))
  pub size : length text + 1 + length rest ≡ n

abbrev pub Builds : ℕ → List ℕ → Option (List ℕ) → Type 0
Builds n text o = NoNul text × (Holds n text o ⊎ ((n ≤ length text) × (o ≡ none)))

pub strlen-append : (t r : List ℕ) → NoNul t → strlen (t ++ (0 ∷ r)) ≡ length t
unfolding strlen
strlen-append [] r h = ground arith
strlen-append (c ∷ t) r h = ground (arith, strlen-append t r h.1, h.0)

pub store-length :
    (m m' : List ℕ) (i v : ℕ) → store m i v ≡ some m' → (length m' ≡ length m) × (i < length m)
unfolding store
store-length [] m' i v e = absurd (ground arith)
store-length (x ∷ m) m' zero v e = (sym (ap size_of e), omega arith)
  where
    size_of : Option (List ℕ) → ℕ
    size_of none = 0
    size_of (some t) = length t
store-length (x ∷ m) m' (suc i) v e = elim (Option-cases (store m i v)) [
  | inl n ↦ absurd (ground arith)
  | inr (t, k) ↦ ground (arith, store-length m t i v k)
]

pub copy_outside :
    (bs m : List ℕ) (i : ℕ) → 0 < length bs → length m < i + length bs → copy m i bs ≡ none
unfolding copy
copy_outside [] m i p h = absurd (omega arith)
copy_outside (b ∷ bs) m i p h = elim (Option-cases (store m i b)) [
  | inl e ↦ rw e refl
  | inr (t, e) ↦
      let (l, k) = store-length m t i b e in
      rw e (copy_outside bs t (i + 1) (omega arith) (omega arith))
]

pub NoNul-hex : (n : ℕ) → NoNul (hex_digit n ∷ [])
NoNul-hex n = ground arith

pub NoNul-escape_byte : (c : ℕ) → NoNul (escape_byte c)
unfolding escape_byte
NoNul-escape_byte c = ground (arith, NoNul-hex (c / 16), NoNul-hex (c % 16))

pub NoNul-escaped : (s : List ℕ) → NoNul (escaped s)
unfolding escaped
NoNul-escaped [] = tt
NoNul-escaped (c ∷ s) =
    All-append (λ c. c ≢ 0) (escape_byte c) (escaped s) (NoNul-escape_byte c) (NoNul-escaped s)

pub NoNul-literal : (s : List ℕ) → NoNul (literal s)
unfolding literal
NoNul-literal s =
    (omega arith, All-append (λ c. c ≢ 0) (escaped s) (b'"' ∷ []) (NoNul-escaped s) (omega arith))
