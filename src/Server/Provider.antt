-- ===== src/Server/Provider.antt =====
-- `http_get_isp_info` of main/http_server_if.c: the text that it leaves for its caller.
use airu_v2_fw.Base.{
  ℕ, zero, suc, ◌+◌, ◌-◌, ◌<◌, ◌≤◌, ◌≡◌, true, false, List, [], ◌∷◌, ◌++◌, Option, some, ltb,
  if◌then◌else◌, length, take, drop, All, arith, refl, ap, length-drop, Bool-cases, inl, inr,
}
use airu_v2_fw.Base.Int.{ℤ}
use airu_v2_fw.Base.Bytes.{c_string}
use airu_v2_fw.Base.Memory.{◌>>=◌}
use airu_v2_fw.Json.Buffer.{NoNul}
use airu_v2_fw.Upload.{esp_ok, esp_fail}
use airu_v2_fw.Server.Isp.{
  Copying, reading, overflowed, answered, IspResult, all_calls, take_char, read_chars, add_time,
  http_get_isp_info,
}
use airu_v2_fw.Server.Reads.{
  joined, IsRead, NoBrace, read_chars-append, read_chars-NoBrace, read_response-joined,
}
use airu_v2_fw.Server.Copies.{copied, read_chars-copied, read_chars-overflowed}
use airu_v2_fw.Server.Stamps.{NoNul-take, c_string-append, provider_text, add_time-HoldsText}

-- The result of a call: its error, the text that it leaves, and every resource given back.
pub record Provides (err : ℤ) (text : List ℕ) (o : Option IspResult) : Type 0 where
  pub result : IspResult
  pub returns : o ≡ some result
  pub same_err : result.err ≡ err
  pub same_text : c_string result.json_buf ≡ text
  pub same_calls : result.calls ≡ all_calls

-- The whole response as one text.
unfoldable pub read_all : (now len : ℕ) → List ℕ → List ℕ → Option IspResult
read_all now len text m =
    read_chars len text (record { ii = 0; waiting_for_json = true; json_buf = m }) >>= λ p. elim p [
      | overflowed t ↦ some (record { err = esp_fail; json_buf = t; calls = all_calls })
      | reading s ↦ add_time len now s >>= λ t.
          some (record { err = esp_ok; json_buf = t; calls = all_calls })
    ]

cons_of : (r : List ℕ) → 0 < length r → (x : ℕ) × (xs : List ℕ) × (r ≡ x ∷ xs)
cons_of [] h = absurd (omega arith)
cons_of (x ∷ xs) h = (x, xs, refl)

-- The brace ends the wait.
read_chars-brace :
    (len : ℕ) (d m : List ℕ)
    → read_chars len (b'{' ∷ d) (record { ii = 0; waiting_for_json = true; json_buf = m })
      ≡ read_chars len (b'{' ∷ d) (copied [] m)
unfolding read_chars take_char
read_chars-brace len d m = refl

abbrev pub whole : List ℕ → ℕ → List ℕ
whole d z = b'{' ∷ (d ++ (z ∷ []))

read_all-from :
    (now len : ℕ) (d : List ℕ) (z : ℕ) (m : List ℕ)
    → length m ≡ len
    → length (whole d z) < len
    → (x : ℕ) (rest : List ℕ) (t : List ℕ) → drop (length (whole d z)) m ≡ x ∷ rest
    → add_time len now (copied (whole d z) (x ∷ rest)) ≡ some t
    → read_all now len (whole d z) m
      ≡ some (record { err = esp_ok; json_buf = t; calls = all_calls })
unfolding read_all
read_all-from now len d z m e l x rest t f g =
    rw
      (
        read_chars-brace len (d ++ (z ∷ [])) m,
        read_chars-copied len (whole d z) [] m (omega arith) (omega arith),
        ◌>>=◌,
        f,
        g,
      )
      refl

read_all-fits :
    (now len : ℕ) (d : List ℕ) (z : ℕ) (m : List ℕ)
    → NoNul (whole d z)
    → length m ≡ len
    → length (whole d z) < len
    → Provides esp_ok (provider_text now len (b'{' ∷ d) z) (read_all now len (whole d z) m)
unfolding provider_text
read_all-fits now len d z m h e l =
    let (x, rest, f) = cons_of (drop n m) (omega (arith, length-drop n m)) in
    let (t, g, c) = add_time-HoldsText now len (b'{' ∷ d) z x rest h (remains x rest f) in
    record {
      result = record { err = esp_ok; json_buf = t; calls = all_calls };
      returns = read_all-from now len d z m e l x rest t f g;
      same_err = refl;
      same_text = rw small c;
      same_calls = refl;
    }
  where
    n : ℕ
    n = length (whole d z)

    small : ltb (length (whole d z)) len ≡ true
    small = ground arith

    remains : (x : ℕ) (rest : List ℕ) → drop n m ≡ x ∷ rest → n + suc (length rest) ≡ len
    remains x rest f = omega (arith, length-drop n m, ap length f)

read_all-overflows :
    (now len : ℕ) (d : List ℕ) (z : ℕ) (m : List ℕ)
    → NoNul (whole d z)
    → 0 < len
    → length m ≡ len
    → len ≤ length (whole d z)
    → Provides esp_fail (provider_text now len (b'{' ∷ d) z) (read_all now len (whole d z) m)
unfolding read_all provider_text
read_all-overflows now len d z m h p e l = record {
  result = record {
    err = esp_fail;
    json_buf = take (len - 1) (whole d z) ++ (0 ∷ []);
    calls = all_calls;
  };
  returns =
      rw
        (
          read_chars-brace len (d ++ (z ∷ [])) m,
          read_chars-overflowed len (whole d z) [] m p (omega arith) (omega arith),
          ◌>>=◌,
          same,
        )
        refl;
  same_err = refl;
  same_text =
      rw big (c_string-append (take (len - 1) (whole d z)) [] (NoNul-take (len - 1) (whole d z) h));
  same_calls = refl;
}
  where
    big : ltb (length (whole d z)) len ≡ false
    big = ground arith

    same : len - 0 - 1 ≡ len - 1
    same = omega arith

NoBrace-take : (n : ℕ) (a b : List ℕ) → n ≤ length a → NoBrace a → NoBrace (take n (a ++ b))
NoBrace-take zero a b l h = tt
NoBrace-take (suc n) [] b l h = absurd (omega arith)
NoBrace-take (suc n) (c ∷ a) b l h = (h.0, NoBrace-take n a b (omega arith) h.1)

-- The reads and the head before the document make no difference.
http_get_isp_info-read_all :
    (now len : ℕ) (reads : List (List ℕ)) (head d : List ℕ) (z : ℕ) (m : List ℕ)
    → All IsRead reads
    → joined reads ≡ head ++ whole d z
    → 99 ≤ length head
    → NoBrace head
    → 0 < len
    → http_get_isp_info now len (answered reads) m ≡ read_all now len (whole d z) m
unfolding http_get_isp_info read_all
http_get_isp_info-read_all now len reads head d z m r e l h p =
    rw
      (
        read_response-joined len reads 0 start r (rw e (NoBrace-take 99 head (whole d z) l h)) refl
            p,
        e,
        read_chars-append len head (whole d z) start,
        read_chars-NoBrace len head start h refl p,
        ◌>>=◌,
      )
      refl
  where
    start : Copying
    start = record { ii = 0; waiting_for_json = true; json_buf = m }

abbrev pub provider_err : (len : ℕ) (d : List ℕ) (z : ℕ) → ℤ
provider_err len d z = if ltb (length (whole d z)) len then esp_ok else esp_fail

-- For a response in reads that are not empty, whose first brace stands behind 99 bytes or more, with
-- no NUL from there on, and an array of `len` bytes, `len` above 0: whatever the cuts between the
-- reads, the caller's array holds the text from the brace on. If that is shorter than `len`, its last
-- byte gives way to the time, as far as there is room, and the code is ESP_OK. Else as much of it as
-- fits is left, and the code is -1. The socket and the address are given back.
pub http_get_isp_info-Provides :
    (now len : ℕ) (reads : List (List ℕ)) (head d : List ℕ) (z : ℕ) (m : List ℕ)
    → All IsRead reads
    → joined reads ≡ head ++ whole d z
    → 99 ≤ length head
    → NoBrace head
    → NoNul (whole d z)
    → 0 < len
    → length m ≡ len
    → Provides
        (provider_err len d z)
        (provider_text now len (b'{' ∷ d) z)
        (http_get_isp_info now len (answered reads) m)
http_get_isp_info-Provides now len reads head d z m r e l b h p k =
    rw (http_get_isp_info-read_all now len reads head d z m r e l b p)
      (elim (Bool-cases (ltb (length (whole d z)) len)) [
        | inl f ↦ rw f (read_all-fits now len d z m h k (ground arith))
        | inr f ↦ rw f (read_all-overflows now len d z m h p k (ground arith))
      ])
