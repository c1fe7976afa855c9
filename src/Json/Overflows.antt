-- ===== src/Json/Overflows.antt =====
-- `json_print_string` of main/json.c in a buffer that is too short for the literal and its NUL.
use airu_v2_fw.Base.{
  ℕ, ◌+◌, ◌-◌, ◌≤◌, ◌<◌, List, [], ◌∷◌, Option, none, some, ◌≡◌, refl, arith, ltb, if◌then◌else◌,
  length,
}
use airu_v2_fw.Base.Memory.{
  ◌>>=◌, store, copy, store_outside, HasSize, store-HasSize_of, copy-HasSize,
}
use airu_v2_fw.Json.{
  has_short_escape, print_code, write_char, write_escaped, write_body, close_string, print_string,
  count_escapes,
}
use airu_v2_fw.Json.Escape.{count_escapes_lem, escape_byte, quoted, length-quoted}

-- What the body of the loop writes for a byte; `sprintf` adds a NUL.
abbrev pub written : ℕ → List ℕ
written c =
    if has_short_escape c
    then escape_byte c
    else if ltb c 32
    then b'\\' ∷ print_code c
    else escape_byte c

pub write_char-copy :
    (m : List ℕ) (p c : ℕ)
    → write_char m p c
      ≡ (copy m p (written c) >>= λ m'. some (m', p + (length (escape_byte c) - 1)))
unfolding write_char escape_byte copy
write_char-copy m p c = ground arith

advance-HasSize :
    (n q : ℕ) (o : Option (List ℕ)) (f : List ℕ × ℕ → Option (List ℕ))
    → HasSize n o
    → ((m : List ℕ) → length m ≡ n → HasSize n (f (m, q)))
    → HasSize n (◌>>=◌ {B = List ℕ × ℕ} o (λ m. some (m, q)) >>= f)
advance-HasSize n q none f h k = tt
advance-HasSize n q (some m) f h k = k m h

write_escaped-HasSize :
    (n : ℕ) (cs m : List ℕ) (p : ℕ) → length m ≡ n → HasSize n (write_escaped m p cs)
unfolding write_escaped
write_escaped-HasSize n [] m p e = e
write_escaped-HasSize n (c ∷ cs) m p e = rw (write_char-copy m p c) (
    advance-HasSize n (p + (length (escape_byte c) - 1)) (copy m p (written c)) _
      (copy-HasSize n (written c) m p e)
      λ m' e'. write_escaped-HasSize n cs m' (p + (length (escape_byte c) - 1) + 1) e')

write_body-HasSize : (n k : ℕ) (s m : List ℕ) → length m ≡ n → HasSize n (write_body m k s)
unfolding write_body
write_body-HasSize n k s m e =
    ground (arith, copy-HasSize n s m 1 e, write_escaped-HasSize n s m 1 e)

store_outside_of {ℓ} :
    {A : Type ℓ} (n i v : ℕ) (o : Option (List ℕ)) (g : List ℕ → Option A)
    → n ≤ i
    → HasSize n o
    → (o >>= λ m. store m i v >>= g) ≡ none
store_outside_of n i v none g h e = refl
store_outside_of n i v (some m) g h e = rw (store_outside m i v (omega arith))

-- In a buffer that ends before the NUL some write is out of bounds.
close_string_outside :
    (n k : ℕ) (o : Option (List ℕ)) → n ≤ k + 2 → HasSize n o → (o >>= λ m. close_string m k) ≡ none
unfolding close_string
close_string_outside n k none h e = refl
close_string_outside n k (some m) h e =
    store_outside_of n (k + 2) 0 (store m (k + 1) b'"') _ h (store-HasSize_of n m (k + 1) b'"' e)

pub print_string_overflows : (s m : List ℕ) → length m < length (quoted s) → print_string s m ≡ none
unfolding print_string
print_string_overflows s m h = go (store m 0 b'"') (store-HasSize_of _ m 0 b'"' refl)
  where
    go :
        (o : Option (List ℕ))
        → HasSize (length m) o
        → (o >>= λ m'. write_body m' (count_escapes 0 s) s >>= λ m''.
            close_string m'' (length s + count_escapes 0 s))
          ≡ none
    go none e = refl
    go (some m') e =
        close_string_outside (length m) _ _
          (omega (arith, h, count_escapes_lem 0 s, length-quoted s))
          (write_body-HasSize _ (count_escapes 0 s) s m' e)
