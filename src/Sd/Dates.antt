-- ===== src/Sd/Dates.antt =====
-- The paths of main/sd_if.c tell the days apart.
use airu_v2_fw.Base.{
  ℕ, ◌+◌, ◌-◌, ◌*◌, ◌<◌, ◌≡◌, List, [], ◌∷◌, ◌++◌, codes, ltb, ◌==◌, if◌then◌else◌, arith, sym, ap,
  ◌∙◌, drop, Bool-cases, inl, inr,
}
use airu_v2_fw.Sd.{Date, two_digits, file_name}

-- A reader of a number up to its delimiter, and what follows that.
pub read_number : ℕ → ℕ → List ℕ → ℕ × List ℕ
read_number stop n [] = (n, [])
read_number stop n (c ∷ cs) =
    let rest = read_number stop (n * 10 + (c - b'0')) cs in if c == stop then (n, cs) else rest

read_number-two_digits :
    (stop n : ℕ) (rest : List ℕ)
    → n < 256
    → stop < 48
    → read_number stop 0 (two_digits n ++ (stop ∷ rest)) ≡ (n, rest)
unfolding two_digits read_number
read_number-two_digits stop n rest h s = elim (Bool-cases (ltb n 100)) [
  | inl l ↦ rw l ground arith
  | inr l ↦ rw l ground arith
]

two_digits-injective :
    (stop a b : ℕ) (r s : List ℕ)
    → a < 256
    → b < 256
    → stop < 48
    → two_digits a ++ (stop ∷ r) ≡ two_digits b ++ (stop ∷ s)
    → (a ≡ b) × (r ≡ s)
two_digits-injective stop a b r s ha hb hs e =
    let p : (a, r) ≡ (b, s) =
      sym (read_number-two_digits stop a r ha hs)
      ∙ ap (read_number stop 0) e
      ∙ read_number-two_digits stop b s hb hs in
    (ap (λ x. x.0) p, ap (λ x. x.1) p)

-- The fields are bytes.
pub record IsDate (d : Date) : Type 0 where
  pub year_fits : d.year < 256
  pub month_fits : d.month < 256
  pub day_fits : d.day < 256

pub file_name-injective : (a b : Date) → IsDate a → IsDate b → file_name a ≡ file_name b → a ≡ b
unfolding file_name
file_name-injective a b ha hb e =
    let (y, r) =
      two_digits-injective b'-' a.year b.year _ _ ha.year_fits hb.year_fits (omega arith)
        (ap (drop 8) e) in
    let (m, q) =
      two_digits-injective b'-' a.month b.month _ _ ha.month_fits hb.month_fits (omega arith) r in
    let (d, _) =
      two_digits-injective b'.' a.day b.day (codes "csv") (codes "csv") ha.day_fits hb.day_fits
        (omega arith) q in
    λ i. record { year = y i; month = m i; day = d i }
