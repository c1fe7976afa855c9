-- ===== src/Server/Copies.antt =====
-- `http_get_isp_info` of main/http_server_if.c: what its inner loop copies of a text.
use airu_v2_fw.Base.{
  ℕ, suc, ◌+◌, ◌-◌, ◌<◌, ◌≤◌, ◌≡◌, true, false, List, [], ◌∷◌, ◌++◌, some, leb, length, take, drop,
  arith, refl, ap, ◌∙◌, append_assoc, append-nil, length-append, Bool-cases, inl, inr,
}
use airu_v2_fw.Base.Memory.{◌>>=◌, store_append}
use airu_v2_fw.Server.Isp.{Copying, reading, overflowed, take_char, cut, read_chars}

-- The state with a text in the array.
abbrev pub copied : List ℕ → List ℕ → Copying
copied t rest = record { ii = length t; waiting_for_json = false; json_buf = t ++ rest }

-- One more byte.
take_char-copied :
    (c : ℕ) (t : List ℕ) (x : ℕ) (rest : List ℕ)
    → take_char c (copied t (x ∷ rest)) ≡ some (copied (t ++ (c ∷ [])) rest)
unfolding take_char
take_char-copied c t x rest =
    rw (store_append t rest x c (length t) refl)
      (ap some (ap2 (length-append t (c ∷ [])) (append_assoc t (c ∷ []) rest)))
  where
    ap2 :
        {i j : ℕ} {a b : List ℕ}
        → j ≡ i
        → b ≡ a
        → Path Copying
            (record { ii = i; waiting_for_json = false; json_buf = a })
            (record { ii = j; waiting_for_json = false; json_buf = b })
    ap2 e f = rw (e, f) refl

-- The bytes of a document that leaves room, behind what was copied.
pub read_chars-copied :
    (len : ℕ) (d t rest : List ℕ)
    → length t + length d < len
    → length d ≤ length rest
    → read_chars len d (copied t rest) ≡ some (reading (copied (t ++ d) (drop (length d) rest)))
unfolding read_chars
read_chars-copied len [] t rest h k = rw (append-nil t) refl
read_chars-copied len (c ∷ d) t [] h k = absurd (omega arith)
read_chars-copied len (c ∷ d) t (x ∷ rest) h k =
    rw (take_char-copied c t x rest, ◌>>=◌, more)
      (rw (← append_assoc t (c ∷ []) d) (
        read_chars-copied len d (t ++ (c ∷ [])) rest (omega (arith, length-append t (c ∷ [])))
          (omega arith)))
  where
    more : leb len (length (t ++ (c ∷ []))) ≡ false
    more = ground (arith, length-append t (c ∷ []))

empty : (r : List ℕ) → length r ≡ 0 → r ≡ []
empty [] e = refl
empty (x ∷ r) e = absurd (omega arith)

-- The last byte gives way to a NUL.
cut-copied : (c : ℕ) (t rest : List ℕ) → cut (copied (t ++ (c ∷ [])) rest) ≡ some (t ++ (0 ∷ rest))
unfolding cut
cut-copied c t rest =
    rw (length-append t (c ∷ []), append_assoc t (c ∷ []) rest, next)
      (store_append t rest c 0 (length t) refl)
  where
    next : length t + 1 ≡ suc (length t)
    next = omega arith

-- The bytes of a document that leaves no room.
pub read_chars-overflowed :
    (len : ℕ) (d t rest : List ℕ)
    → length t < len
    → len ≤ length t + length d
    → length t + length rest ≡ len
    → read_chars len d (copied t rest)
      ≡ some (overflowed (t ++ (take (len - length t - 1) d ++ (0 ∷ []))))
unfolding read_chars cut
read_chars-overflowed len [] t rest h k e = absurd (omega arith)
read_chars-overflowed len (c ∷ d) t [] h k e = absurd (omega arith)
read_chars-overflowed len (c ∷ d) t (x ∷ rest) h k e =
    rw (take_char-copied c t x rest, ◌>>=◌)
      (elim (Bool-cases (leb len (length (t ++ (c ∷ []))))) [
        | inl f ↦
            rw (f, ◌>>=◌, cut-copied c t rest)
              (rw (none_left f, empty rest (ground (arith, length-append t (c ∷ [])))) refl)
        | inr f ↦ rw f (
            read_chars-overflowed len d (t ++ (c ∷ [])) rest (ground arith)
              (omega (arith, length-append t (c ∷ []))) (omega (arith, length-append t (c ∷ [])))
            ∙ rw (one_more f) (ap some (ap overflowed (append_assoc t (c ∷ []) _))))
      ])
  where
    none_left : leb len (length (t ++ (c ∷ []))) ≡ true → len - length t - 1 ≡ 0
    none_left f = ground (arith, length-append t (c ∷ []))

    one_more :
        leb len (length (t ++ (c ∷ []))) ≡ false
        → len - length t - 1 ≡ suc (len - length (t ++ (c ∷ [])) - 1)
    one_more f = ground (arith, length-append t (c ∷ []))
