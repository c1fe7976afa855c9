-- ===== src/Json.antt =====
-- main/json.c: `json_print_string` writes a C string as a JSON string literal. The input is the
-- bytes before the terminating NUL; the output is a buffer (Base.Memory), where a write behind the
-- end is `none`. A pointer that is NULL is `none` at the argument. `size_t` sums are left
-- unbounded: they count bytes of strings that are in memory.
pub mod Escape
pub mod Overflows
pub mod Writes
pub mod Decode
pub mod Buffer
pub mod Building
use airu_v2_fw.Base.{
  ℕ, ◌+◌, ◌-◌, ◌/◌, ◌%◌, Bool, true, false, not, ◌&&◌, ◌||◌, List, [], ◌∷◌, ◌++◌, Option, none,
  some, ltb, ◌==◌, if◌then◌else◌, length,
}
use airu_v2_fw.Base.Memory.{◌>>=◌, store, copy}

-- `strchr("\"\\\b\f\n\r\t", c)`, for a byte that is not NUL
abbrev pub has_short_escape : ℕ → Bool
has_short_escape c =
    c == b'"' || c == b'\\' || c == 8 || c == 12 || c == b'\n' || c == b'\r' || c == b'\t'

-- The first loop: the number of extra characters that the escapes take.
pub count_escapes : ℕ → List ℕ → ℕ
count_escapes n [] = n
count_escapes n (c ∷ cs) =
    count_escapes (if has_short_escape c then n + 1 else if ltb c 32 then n + 5 else n) cs

-- A digit of `%x`.
abbrev pub hex_digit : ℕ → ℕ
hex_digit d = if ltb d 10 then b'0' + d else b'a' + (d - 10)

-- What `sprintf(p, "u%04x", c)` writes for a byte, its NUL included.
abbrev pub print_code : ℕ → List ℕ
print_code c = b'u' ∷ b'0' ∷ b'0' ∷ hex_digit (c / 16) ∷ hex_digit (c % 16) ∷ 0 ∷ []

abbrev put_letter : List ℕ → ℕ → ℕ → Option (List ℕ × ℕ)
put_letter m p letter = store m p letter >>= λ m'. some (m', p)

-- The `switch`: the escape's letters behind the backslash, and where the last of them stands.
pub write_escape : List ℕ → ℕ → ℕ → Option (List ℕ × ℕ)
write_escape m p c =
    if c == b'\\'
    then put_letter m p b'\\'
    else if c == b'"'
    then put_letter m p b'"'
    else if c == 8
    then put_letter m p b'b'
    else if c == 12
    then put_letter m p b'f'
    else if c == b'\n'
    then put_letter m p b'n'
    else if c == b'\r'
    then put_letter m p b'r'
    else if c == b'\t'
    then put_letter m p b't'
    else (copy m p (print_code c) >>= λ m'. some (m', p + 4))

-- The body of the second loop, with `p` for `output_pointer`.
pub write_char : List ℕ → ℕ → ℕ → Option (List ℕ × ℕ)
unfolding write_escape
write_char m p c =
    if ltb 31 c && not (c == b'"') && not (c == b'\\')
    then put_letter m p c
    else (store m p b'\\' >>= λ m'. write_escape m' (p + 1) c)

-- The second loop.
pub write_escaped : List ℕ → ℕ → List ℕ → Option (List ℕ)
unfolding write_char
write_escaped m p [] = some m
write_escaped m p (c ∷ cs) = write_char m p c >>= λ r. write_escaped r.0 (r.1 + 1) cs

-- The closing quote and the NUL.
pub close_string : List ℕ → ℕ → Option (Bool × List ℕ)
close_string m output_length = store m (output_length + 1) b'"' >>= λ m'.
    store m' (output_length + 2) 0 >>= λ m''. some (true, m'')

-- What the copy loops and `memcpy` leave of the buffer, for a string with that many extra characters.
pub write_body : List ℕ → ℕ → List ℕ → Option (List ℕ)
unfolding write_escaped
write_body m escape_characters input =
    if escape_characters == 0 then copy m 1 input else write_escaped m 1 input

-- Behind the checks for NULL.
pub print_string : List ℕ → List ℕ → Option (Bool × List ℕ)
unfolding write_body close_string count_escapes
print_string input output =
    let escape_characters = count_escapes 0 input in
    store output 0 b'"' >>= λ m. write_body m escape_characters input >>= λ m'.
    close_string m' (length input + escape_characters)

unfoldable pub json_print_string :
    Option (List ℕ) → Option (List ℕ) → Option (Bool × Option (List ℕ))
unfolding print_string
json_print_string input none = some (false, none)
json_print_string none (some output) = some (false, some output)
json_print_string (some input) (some output) =
    print_string input output >>= λ r. some (r.0, some r.1)
