-- ===== src/Gps/Dates.antt =====
-- RMC sentences that main/gps_if.c reads.
use airu_v2_fw.Base.{
  ℕ, zero, suc, ◌+◌, ◌-◌, ◌*◌, ◌/◌, ◌%◌, ◌<◌, ◌≤◌, ◌≡◌, ◌≢◌, true, false, ◌&&◌, List, [], ◌∷◌, ◌++◌,
  length, take, drop, ltb, leb, ◌==◌, some, All, refl, sym, append-nil, ap, ◌∙◌, arith, length-drop,
}
use airu_v2_fw.Base.Int.{pos_part, neg_part}
use airu_v2_fw.Sd.{two_digits}
use airu_v2_fw.Upload.Session.{digits_value}
use airu_v2_fw.Gps.{to_degrees, coordinate}
use airu_v2_fw.Nmea.{on_size, GpsFloats, head, atol, next_field}

abbrev pub NoComma : List ℕ → Type 0
NoComma t = All (λ c. c ≢ b',') t

pub next_field-append : (t rest : List ℕ) → NoComma t → next_field (t ++ (b',' ∷ rest)) ≡ some rest
unfolding next_field
next_field-append [] rest h = ground arith
next_field-append (c ∷ t) rest h = ground (arith, next_field-append t rest h.1, h.0)

-- The digits of a day, a month and a year of two digits each.
unfoldable pub date_field : (d m y : ℕ) → List ℕ
date_field d m y = two_digits d ++ (two_digits m ++ two_digits y)

pub record IsDay (d m y : ℕ) : Type 0 where
  pub day_fits : d < 100
  pub month_fits : m < 100
  pub year_fits : y < 100

two_digits_small : (n : ℕ) → n < 100 → two_digits n ≡ (b'0' + n / 10) ∷ (b'0' + n % 10) ∷ []
unfolding two_digits
two_digits_small n h = ground arith

digits_value-digit :
    (n k : ℕ) (cs : List ℕ)
    → k < 10
    → digits_value n ((b'0' + k) ∷ cs) ≡ digits_value (n * 10 + k) cs
unfolding digits_value
digits_value-digit n k cs h = ground (arith, ap (λ x. digits_value x cs) (same n k))
  where
    same : (n k : ℕ) → n * 10 + ((b'0' + k) - b'0') ≡ n * 10 + k
    same n k = omega arith

digits_value-two_digits :
    (n k : ℕ) (cs : List ℕ)
    → k < 100
    → digits_value n (two_digits k ++ cs) ≡ digits_value (n * 100 + k) cs
digits_value-two_digits n k cs h =
    ap (λ t. digits_value n (t ++ cs)) (two_digits_small k h)
    ∙ digits_value-digit n (k / 10) ((b'0' + k % 10) ∷ cs) (omega arith)
    ∙ digits_value-digit (n * 10 + k / 10) (k % 10) cs (omega arith)
    ∙ ap (λ x. digits_value x cs) (omega arith)

digits_value-nil : (n : ℕ) → digits_value n [] ≡ n
unfolding digits_value
digits_value-nil n = refl

pub date_field-digits_value :
    (d m y : ℕ) → IsDay d m y → digits_value 0 (date_field d m y) ≡ d * 10000 + m * 100 + y
unfolding date_field digits_value
date_field-digits_value d m y h =
    digits_value-two_digits 0 d (two_digits m ++ two_digits y) h.day_fits
    ∙ digits_value-two_digits (0 * 100 + d) m (two_digits y) h.month_fits
    ∙ ap (digits_value ((0 * 100 + d) * 100 + m)) (sym (append-nil (two_digits y)))
    ∙ digits_value-two_digits ((0 * 100 + d) * 100 + m) y [] h.year_fits
    ∙ last
  where
    last : digits_value (((0 * 100 + d) * 100 + m) * 100 + y) [] ≡ d * 10000 + m * 100 + y
    last = digits_value-nil (((0 * 100 + d) * 100 + m) * 100 + y) ∙ omega arith

pub date_field-digits :
    (d m y : ℕ) → IsDay d m y → All (λ c. leb b'0' c && leb c b'9' ≡ true) (date_field d m y)
unfolding date_field two_digits
date_field-digits d m y h = ground (arith, h.day_fits, h.month_fits, h.year_fits)

pub date_field-NoComma : (d m y : ℕ) → IsDay d m y → NoComma (date_field d m y)
unfolding date_field two_digits
date_field-NoComma d m y h = ground (arith, h.day_fits, h.month_fits, h.year_fits)

take-append_le : (n : ℕ) (t u : List ℕ) → n ≤ length t → take n (t ++ u) ≡ take n t
take-append_le zero t u h = refl
take-append_le (suc n) [] u h = absurd (omega arith)
take-append_le (suc n) (c ∷ t) u h = ap (λ x. c ∷ x) (take-append_le n t u (omega arith))

drop-append_le : (n : ℕ) (t u : List ℕ) → n ≤ length t → drop n (t ++ u) ≡ drop n t ++ u
drop-append_le zero t u h = refl
drop-append_le (suc n) [] u h = absurd (omega arith)
drop-append_le (suc n) (c ∷ t) u h = drop-append_le n t u (omega arith)

NoComma-drop : (n : ℕ) (t : List ℕ) → NoComma t → NoComma (drop n t)
NoComma-drop zero t h = h
NoComma-drop (suc n) [] h = tt
NoComma-drop (suc n) (c ∷ t) h = NoComma-drop n t h.1

-- A coordinate of that many digits of degrees, with minutes, in the range that `int32_t` holds.
pub record IsCoordinate (width : ℕ) (t : List ℕ) : Type 0 where
  pub no_comma : NoComma t
  pub long : width + 3 ≤ length t
  pub in_range : pos_part (atol (take width t)) + neg_part (atol (take width t)) ≤ 214

head-append : (t u : List ℕ) → 0 < length t → NoComma t → head (t ++ u) ≢ b','
head-append [] u p h = absurd (omega arith)
head-append (c ∷ t) u p h = h.0

module _ (fl : GpsFloats) where
  open fl use {Float}

  -- A coordinate is read, and its comma is found behind it.
  pub record Passes (width : ℕ) (p rest : List ℕ) : Type 0 where
    pub value : Float
    pub behind : List ℕ
    pub reads : coordinate fl width p ≡ some (value, behind)
    pub comma : next_field behind ≡ some rest

  pub coordinate-Passes :
      (width : ℕ) (t rest : List ℕ) → IsCoordinate width t → Passes width (t ++ (b',' ∷ rest)) rest
  unfolding coordinate
  coordinate-Passes width t rest h = record {
    value =
        to_degrees fl (atol (take width p))
          (on_size (λ n. 50 * n / 3) (atol (take 2 q ++ take 4 (drop 3 q))));
    behind = drop 3 q;
    reads = rw (starts, in_range) refl;
    comma =
        ap (λ x. next_field (drop 3 x))
          (drop-append_le width t (b',' ∷ rest) (omega (arith, h.long)))
        ∙ ap next_field (
            drop-append_le 3 (drop width t) (b',' ∷ rest)
              (omega (arith, h.long, length-drop width t)))
        ∙ next_field-append (drop 3 (drop width t)) rest
            (NoComma-drop 3 (drop width t) (NoComma-drop width t h.no_comma));
  }
    where
      p : List ℕ
      p = t ++ (b',' ∷ rest)

      q : List ℕ
      q = drop width p

      starts : (head (t ++ (b',' ∷ rest)) == b',') ≡ false
      starts = ground (arith, head-append t (b',' ∷ rest) (omega (arith, h.long)) h.no_comma)

      in_range :
          ltb 214 (
            pos_part (atol (take width (t ++ (b',' ∷ rest))))
            + neg_part (atol (take width (t ++ (b',' ∷ rest)))))
          ≡ false
      in_range =
          rw (take-append_le width t (b',' ∷ rest) (omega (arith, h.long)))
            (ground (arith, h.in_range))
