-- ===== src/Json/Writes.antt =====
-- `json_print_string` writes exactly the literal, in place, or leaves the buffer's bounds.
use airu_v2_fw.Base.{
  ℕ, suc, ◌+◌, ◌-◌, ◌≤◌, ◌<◌, true, List, [], ◌∷◌, ◌++◌, Option, none, some, ◌≡◌, refl, sym, ap,
  ◌∙◌, arith, ltb, leb, Bool-cases, ==_iff, inl, inr, ◌==◌, if◌then◌else◌, length, drop,
  length-drop, drop-drop, length-append, append_assoc,
}
use airu_v2_fw.Base.Memory.{◌>>=◌, copy, store_append, copy_append}
use airu_v2_fw.Json.{
  has_short_escape, write_char, write_escaped, write_body, close_string, print_string,
  json_print_string, count_escapes,
}
use airu_v2_fw.Json.Overflows.{written, write_char-copy, print_string_overflows}
use airu_v2_fw.Json.Escape.{
  length-escape_byte, count_escapes_lem, escaped_plain, escape_byte, escaped, quoted, length-quoted,
}

-- What stands behind the escape of a byte after the loop's body.
abbrev behind : ℕ → List ℕ → List ℕ
behind c t = if has_short_escape c then drop 2 t else if ltb c 32 then 0 ∷ drop 7 t else drop 1 t

behind_lem :
    (c : ℕ) (t : List ℕ)
    → length (escape_byte c) < length t
    → (drop 1 (behind c t) ≡ drop (length (escape_byte c) + 1) t)
      × (length (behind c t) + length (escape_byte c) ≡ length t)
unfolding escape_byte
behind_lem c t h =
    ground
      (arith, length-drop 2 t, length-drop 7 t, length-drop 1 t, drop-drop 2 1 t, drop-drop 1 1 t)

write_char_append :
    (c p : ℕ) (pre t : List ℕ)
    → p ≡ length pre
    → length (escape_byte c) < length t
    → write_char (pre ++ t) p c
      ≡ some (pre ++ (escape_byte c ++ behind c t), p + (length (escape_byte c) - 1))
unfolding escape_byte
write_char_append c p pre t e h =
    rw (write_char-copy (pre ++ t) p c) (ground (arith, copy_append (written c) pre t p e))

-- What the loop leaves of `pre ++ t`: the escapes behind the prefix, and then a list `t'` that
-- differs from what followed in its first byte at most.
record Written (m : Option (List ℕ)) (pre s t : List ℕ) : Type 0 where
  left : List ℕ
  writes : m ≡ some (pre ++ (escaped s ++ left))
  keeps : drop 1 left ≡ drop (length (escaped s) + 1) t

drop-behind :
    (c : ℕ) (cs t : List ℕ)
    → length (escape_byte c) < length t
    → drop (length (escaped cs) + 1) (behind c t) ≡ drop (length (escaped (c ∷ cs)) + 1) t
unfolding escaped
drop-behind c cs t fits =
    ap (λ k. drop k (behind c t)) (omega arith)
    ∙ sym (drop-drop 1 (length (escaped cs)) (behind c t))
    ∙ ap (drop (length (escaped cs))) (behind_lem c t fits).0
    ∙ drop-drop (length (escape_byte c) + 1) (length (escaped cs)) t
    ∙ ap (λ k. drop k t) (omega (arith, length-append (escape_byte c) (escaped cs)))

Written-cons :
    (c p : ℕ) (cs pre t : List ℕ)
    → p ≡ length pre
    → length (escape_byte c) < length t
    → Written
        (write_escaped ((pre ++ escape_byte c) ++ behind c t) (p + length (escape_byte c)) cs)
        (pre ++ escape_byte c)
        cs
        (behind c t)
    → Written (write_escaped (pre ++ t) p (c ∷ cs)) pre (c ∷ cs) t
unfolding write_escaped escaped
Written-cons c p cs pre t e fits w = record {
  left = w.left;
  writes = rw (write_char_append c p pre t e fits) (
      ap (λ k. write_escaped (pre ++ (escape_byte c ++ behind c t)) k cs) next
      ∙ rw (append_assoc pre (escape_byte c) (behind c t)) at w.writes
      ∙ ap some (simp append_assoc));
  keeps = w.keeps ∙ drop-behind c cs t fits;
}
  where
    next : p + (length (escape_byte c) - 1) + 1 ≡ p + length (escape_byte c)
    next = omega (arith, length-escape_byte c)

write_escaped-Written :
    (cs : List ℕ) (p : ℕ) (pre t : List ℕ)
    → p ≡ length pre
    → length (escaped cs) < length t
    → Written (write_escaped (pre ++ t) p cs) pre cs t
unfolding write_escaped escaped
write_escaped-Written [] p pre t e h = record { left = t; writes = refl; keeps = refl }
write_escaped-Written (c ∷ cs) p pre t e h = Written-cons c p cs pre t e fits (
    write_escaped-Written cs (p + length (escape_byte c)) (pre ++ escape_byte c) (behind c t)
      (omega (arith, length-append pre (escape_byte c)))
      (omega (arith, sizes, behind_lem c t fits)))
  where
    sizes : length (escape_byte c ++ escaped cs) ≡ length (escape_byte c) + length (escaped cs)
    sizes = length-append (escape_byte c) (escaped cs)

    fits : length (escape_byte c) < length t
    fits = omega (arith, sizes)

copy-Written :
    (s t : List ℕ)
    → length (escaped s) < length t
    → escaped s ≡ s
    → Written (copy (b'"' ∷ t) 1 s) (b'"' ∷ []) s t
copy-Written s t h e = record {
  left = drop (length s) t;
  writes =
      copy_append s (b'"' ∷ []) t 1 refl (omega (arith, ap length e))
      ∙ ap (λ u. some (b'"' ∷ (u ++ drop (length s) t))) (sym e);
  keeps = drop-drop (length s) 1 t ∙ ap (λ k. drop k t) (omega (arith, ap length e));
}

-- Both ways to fill the body.
write_body-Written :
    (s t : List ℕ)
    → length (escaped s) < length t
    → Written (write_body (b'"' ∷ t) (count_escapes 0 s) s) (b'"' ∷ []) s t
unfolding write_body
write_body-Written s t h = elim (Bool-cases (count_escapes 0 s == 0)) [
  | inl none_needed ↦ rw none_needed (
      copy-Written s t h
        (escaped_plain s (omega (arith, count_escapes_lem 0 s, (==_iff _ 0).0 none_needed))))
  | inr some_needed ↦ rw some_needed (write_escaped-Written s 1 (b'"' ∷ []) t refl h)
]

-- The closing quote and the NUL go behind the body.
close_string_append :
    (pre left : List ℕ) (n : ℕ)
    → n + 1 ≡ length pre
    → 2 ≤ length left
    → close_string (pre ++ left) n ≡ some (true, pre ++ (b'"' ∷ 0 ∷ drop 2 left))
unfolding close_string
close_string_append pre [] n e h = absurd (omega arith)
close_string_append pre (x ∷ []) n e h = absurd (omega arith)
close_string_append pre (x ∷ y ∷ rest) n e h = rw (store_append pre (y ∷ rest) x b'"' (n + 1) e) (
    rw (← append_assoc pre (b'"' ∷ []) (y ∷ rest)) (
      rw
        (store_append (pre ++ (b'"' ∷ [])) rest y 0 (n + 2)
          (omega (arith, length-append pre (b'"' ∷ []))))
        (ap (λ m. some (true, m)) (append_assoc pre (b'"' ∷ []) (0 ∷ rest)))))

-- Closing what `Written` describes gives the literal, with the rest of the buffer as it was.
close_string-Written :
    (s t : List ℕ) (x : ℕ) (o : Option (List ℕ))
    → length (quoted s) ≤ suc (length t)
    → Written o (b'"' ∷ []) s t
    → (o >>= λ m. close_string m (length s + count_escapes 0 s))
      ≡ some (true, quoted s ++ drop (length (quoted s)) (x ∷ t))
unfolding quoted
close_string-Written s t x o h w = rw w.writes (
    close_string_append (b'"' ∷ escaped s) w.left _ (omega (arith, count_escapes_lem 0 s)) (
      omega (
        arith,
        ap length w.keeps,
        length-drop 1 w.left,
        length-drop (length (escaped s) + 1) t,
        length-quoted s,
      ))
    ∙ ap (λ u. some (true, u))
        (simp append_assoc (ap (λ u. b'"' ∷ (escaped s ++ (b'"' ∷ 0 ∷ u))) tail_kept)))
  where
    tail_kept : drop 2 w.left ≡ drop (length (quoted s)) (x ∷ t)
    tail_kept =
        sym (drop-drop 1 1 w.left)
        ∙ ap (drop 1) w.keeps
        ∙ drop-drop (length (escaped s) + 1) 1 t
        ∙ drop-drop 1 (length (escaped s) + 1 + 1) (x ∷ t)
        ∙ ap (λ k. drop k (x ∷ t)) {y = length (quoted s)} (omega (arith, length-quoted s))

print_string_fits :
    (s m : List ℕ)
    → length (quoted s) ≤ length m
    → print_string s m ≡ some (true, quoted s ++ drop (length (quoted s)) m)
unfolding print_string
print_string_fits s [] h = absurd (omega (arith, length-quoted s))
print_string_fits s (x ∷ t) h =
    rw (store_append [] t x b'"' 0 refl)
      (close_string-Written s t x _ h (write_body-Written s t (omega (arith, length-quoted s))))

-- For every string and every buffer: where the literal with its NUL fits, it stands at the
-- buffer's start and all behind it is unchanged; where it does not fit, a write leaves the buffer.
pub json_print_string_lem :
    (s m : List ℕ)
    → json_print_string (some s) (some m) ≡ (
        if leb (length (quoted s)) (length m)
        then some (true, some (quoted s ++ drop (length (quoted s)) m))
        else none)
unfolding json_print_string
json_print_string_lem s m = elim (Bool-cases (leb (length (quoted s)) (length m))) [
  | inl fits ↦ rw (fits, print_string_fits s m (ground arith))
  | inr over ↦ rw (over, print_string_overflows s m (ground arith))
]
