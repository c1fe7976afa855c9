-- ===== src/Server/Reads.antt =====
-- `http_get_isp_info` of main/http_server_if.c: how a response is cut into reads does not matter.
use airu_v2_fw.Base.{
  ℕ, zero, suc, ◌+◌, ◌-◌, ◌<◌, ◌≤◌, ◌≡◌, ◌≢◌, true, false, List, [], ◌∷◌, ◌++◌, Option, none, some,
  leb, ltb, length, take, All, arith, refl, subst, Bool-cases, Option-cases, inl, inr,
}
use airu_v2_fw.Base.Memory.{◌>>=◌}
use airu_v2_fw.Server.Isp.{
  Copying, Progress, reading, overflowed, take_char, cut, read_chars, take_read, read_response,
}

-- The bytes of all reads.
unfoldable pub joined : List (List ℕ) → List ℕ
joined [] = []
joined (r ∷ rs) = r ++ joined rs

abbrev pub IsRead : List ℕ → Type 0
IsRead r = 0 < length r

abbrev pub NoBrace : List ℕ → Type 0
NoBrace t = All (λ c. c ≢ b'{') t

-- What follows a loop that may have given up.
abbrev pub go_on : (Copying → Option Progress) → Progress → Option Progress
go_on f (overflowed m) = some (overflowed m)
go_on f (reading s) = f s

pub read_chars-append :
    (len : ℕ) (a b : List ℕ) (s : Copying)
    → read_chars len (a ++ b) s ≡ (read_chars len a s >>= go_on (read_chars len b))
unfolding read_chars
read_chars-append len [] b s = refl
read_chars-append len (c ∷ a) b s = elim (Option-cases (take_char c s)) [
  | inl e ↦ rw e refl
  | inr (t, e) ↦ rw e (elim (Bool-cases (leb len t.ii)) [
    | inl f ↦ rw (◌>>=◌, f) (over (cut t))
    | inr f ↦ rw (◌>>=◌, f) (read_chars-append len a b t)
  ])
]
  where
    over :
        (o : Option (List ℕ))
        → (o >>= λ m. some (overflowed m))
          ≡ ((o >>= λ m. some (overflowed m)) >>= go_on (read_chars len b))
    over none = refl
    over (some m) = refl

-- Before the document nothing is copied.
pub read_chars-NoBrace :
    (len : ℕ) (t : List ℕ) (s : Copying)
    → NoBrace t
    → s.waiting_for_json ≡ true
    → s.ii < len
    → read_chars len t s ≡ some (reading s)
unfolding read_chars take_char
read_chars-NoBrace len [] s h w l = refl
read_chars-NoBrace len (c ∷ t) s h w l = ground (arith, h.0, read_chars-NoBrace len t s h.1 w l)

-- A read that counts, and the reads behind it.
read_response-counted :
    (len total : ℕ) (c : ℕ) (r : List ℕ) (rs : List (List ℕ)) (s : Copying)
    → 100 ≤ total + length (c ∷ r)
    → ((t : Copying)
        → read_response len (total + length (c ∷ r)) rs t ≡ read_chars len (joined rs) t)
    → read_response len total ((c ∷ r) ∷ rs) s ≡ read_chars len (joined ((c ∷ r) ∷ rs)) s
unfolding read_response take_read joined
read_response-counted len total c r rs s l rest =
    rw (read_chars-append len (c ∷ r) (joined rs) s)
      (elim (Option-cases (read_chars len (c ∷ r) s)) [
        | inl e ↦ rw (lt-false, e) refl
        | inr (overflowed m, e) ↦ rw (lt-false, e) refl
        | inr (reading t, e) ↦ rw (lt-false, e) (rest t)
      ])
  where
    lt-false : ltb (total + length (c ∷ r)) 100 ≡ false
    lt-false = ground arith

-- Once 100 bytes were read, the rest of the reads is one text.
read_response-late :
    (len : ℕ) (rs : List (List ℕ)) (total : ℕ) (s : Copying)
    → 100 ≤ total
    → All IsRead rs
    → read_response len total rs s ≡ read_chars len (joined rs) s
unfolding read_response joined read_chars
read_response-late len [] total s l h = refl
read_response-late len ([] ∷ rs) total s l h = absurd (omega (arith, h.0))
read_response-late len ((c ∷ r) ∷ rs) total s l h =
    read_response-counted len total c r rs s (omega arith)
      λ t. read_response-late len rs (total + length (c ∷ r)) t (omega arith) h.1

NoBrace-take :
    (n : ℕ) (a b : List ℕ)
    → length a ≤ n
    → NoBrace (take n (a ++ b))
    → NoBrace a × NoBrace (take (n - length a) b)
NoBrace-take n [] b l h = (tt, subst (λ k. NoBrace (take k b)) (omega arith) h)
NoBrace-take zero (c ∷ a) b l h = absurd (omega arith)
NoBrace-take (suc n) (c ∷ a) b l h =
    let (p, q) = NoBrace-take n a b (omega arith) h.1 in
    ((h.0, p), subst (λ k. NoBrace (take k b)) (omega arith) q)

-- With no brace among the bytes that are not looked at, all reads are one text.
pub read_response-joined :
    (len : ℕ) (rs : List (List ℕ)) (total : ℕ) (s : Copying)
    → All IsRead rs
    → NoBrace (take (99 - total) (joined rs))
    → s.waiting_for_json ≡ true
    → s.ii < len
    → read_response len total rs s ≡ read_chars len (joined rs) s
unfolding read_response take_read joined read_chars
read_response-joined len [] total s h b w l = refl
read_response-joined len ([] ∷ rs) total s h b w l = absurd (omega (arith, h.0))
read_response-joined len ((c ∷ r) ∷ rs) total s h b w l =
    elim (Bool-cases (ltb (total + length (c ∷ r)) 100)) [
      | inl e ↦
          let (p, q) = NoBrace-take (99 - total) (c ∷ r) (joined rs) (ground arith) b in
          rw
            (e, read_chars-append len (c ∷ r) (joined rs) s, read_chars-NoBrace len (c ∷ r) s p w l)
            (read_response-joined len rs (total + length (c ∷ r)) s h.1
              (subst (λ k. NoBrace (take k (joined rs))) (omega arith) q) w l)
      | inr e ↦
          read_response-counted len total c r rs s (ground arith)
            λ t. read_response-late len rs (total + length (c ∷ r)) t (ground arith) h.1
    ]
