-- ===== src/Server/Stamps.antt =====
-- `http_get_isp_info` of main/http_server_if.c: the time that it puts over the last byte of a
-- document.
use airu_v2_fw.Base.{
  ℕ, zero, suc, ◌+◌, ◌-◌, ◌/◌, ◌≤◌, ◌≡◌, ◌≢◌, List, [], ◌∷◌, ◌++◌, Option, some, ltb, if◌then◌else◌,
  length, take, drop, All-append, arith, refl, append_assoc, length-append, Bool-cases, inl, inr,
}
use airu_v2_fw.Base.Bytes.{c_string}
use airu_v2_fw.Base.Memory.{◌>>=◌, store, store_append, copy, copy_append}
use airu_v2_fw.Json.Buffer.{NoNul, strlen, strlen-append}
use airu_v2_fw.Upload.{fitted}
use airu_v2_fw.Server.Isp.{Copying, utc_text, digits, add_time}
use airu_v2_fw.Server.Copies.{copied}

NoNul-digits : (most n : ℕ) → NoNul (digits most n)
unfolding digits
NoNul-digits zero n = tt
NoNul-digits (suc most) n = elim (Bool-cases (ltb n 10)) [
  | inl e ↦ rw e (omega arith, tt)
  | inr e ↦ rw e (
      All-append (λ c. c ≢ 0) (digits most (n / 10)) _ (NoNul-digits most (n / 10))
        (omega arith, tt))
]

NoNul-utc_text : (now : ℕ) → NoNul (utc_text now)
unfolding utc_text
NoNul-utc_text now =
    ground (arith, All-append (λ c. c ≢ 0) (digits 10 now) (b'"' ∷ b'}' ∷ []) (NoNul-digits 10 now))

pub NoNul-take : (n : ℕ) (t : List ℕ) → NoNul t → NoNul (take n t)
NoNul-take zero t h = tt
NoNul-take (suc n) [] h = tt
NoNul-take (suc n) (c ∷ t) h = (h.0, NoNul-take n t h.1)

length-take : (n : ℕ) (t : List ℕ) → length (take n t) ≤ n
length-take zero t = omega arith
length-take (suc n) [] = omega arith
length-take (suc n) (c ∷ t) = omega (arith, length-take n t)

pub c_string-append : (t r : List ℕ) → NoNul t → c_string (t ++ (0 ∷ r)) ≡ t
unfolding c_string
c_string-append [] r h = ground arith
c_string-append (c ∷ t) r h = ground (arith, c_string-append t r h.1, h.0)

-- What the caller reads, for a document whose last byte is `z`.
unfoldable pub provider_text : (now len : ℕ) (d : List ℕ) (z : ℕ) → List ℕ
provider_text now len d z =
    if ltb (length (d ++ (z ∷ []))) len
    then d ++ take (len - length (d ++ (z ∷ [])) - 1) (utc_text now)
    else take (len - 1) (d ++ (z ∷ []))

-- The array ends in a text.
abbrev pub HoldsText : List ℕ → Option (List ℕ) → Type 0
HoldsText text o = (m : List ℕ) × (o ≡ some m) × (c_string m ≡ text)

add_time_lem :
    (now len n : ℕ) (s : Copying) (m : List ℕ)
    → s.ii ≡ suc n
    → store s.json_buf s.ii 0 ≡ some m
    → add_time len now s ≡ copy m n (fitted (len - strlen m) (utc_text now))
unfolding add_time
add_time_lem now len n s m e f = rw (f, ◌>>=◌, e) refl

-- A text of which all that has room is put over the last byte.
over_last :
    (k : ℕ) (d text : List ℕ) (z : ℕ) (rest : List ℕ)
    → NoNul d
    → NoNul text
    → k ≡ length rest
    → HoldsText (d ++ take k text) (copy (d ++ (z ∷ 0 ∷ rest)) (length d) (fitted (suc k) text))
over_last k d text z rest h g e = (
  d ++ (fitted (suc k) text ++ behind),
  copy_append (fitted (suc k) text) d (z ∷ 0 ∷ rest) (length d) refl
      (omega (arith, length-append (take k text) (0 ∷ []), length-take k text)),
  rw (append_assoc (take k text) (0 ∷ []) behind, ← append_assoc d (take k text) (0 ∷ behind))
      (c_string-append (d ++ take k text) behind
        (All-append (λ c. c ≢ 0) d (take k text) h (NoNul-take k text g))),
)
  where
    behind : List ℕ
    behind = drop (length (fitted (suc k) text)) (z ∷ 0 ∷ rest)

NoNul-init : (d : List ℕ) (z : ℕ) → NoNul (d ++ (z ∷ [])) → NoNul d
NoNul-init [] z h = tt
NoNul-init (c ∷ d) z h = (h.0, NoNul-init d z h.1)

pub add_time-HoldsText :
    (now len : ℕ) (d : List ℕ) (z x : ℕ) (rest : List ℕ)
    → NoNul (d ++ (z ∷ []))
    → length (d ++ (z ∷ [])) + suc (length rest) ≡ len
    → HoldsText
        (d ++ take (len - length (d ++ (z ∷ [])) - 1) (utc_text now))
        (add_time len now (copied (d ++ (z ∷ [])) (x ∷ rest)))
add_time-HoldsText now len d z x rest h e =
    rw
      (
        add_time_lem now len (length d) (copied (d ++ (z ∷ [])) (x ∷ rest)) _
            (omega (arith, length-append d (z ∷ [])))
            (store_append (d ++ (z ∷ [])) rest x 0 (length (d ++ (z ∷ []))) refl),
        strlen-append (d ++ (z ∷ [])) rest h,
        append_assoc d (z ∷ []) (0 ∷ rest),
        room,
        less,
      )
      (over_last (length rest) d (utc_text now) z rest (NoNul-init d z h) (NoNul-utc_text now) refl)
  where
    room : len - length (d ++ (z ∷ [])) ≡ suc (length rest)
    room = omega arith

    less : suc (length rest) - 1 ≡ length rest
    less = omega arith
