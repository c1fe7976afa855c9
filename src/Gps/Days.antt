-- ===== src/Gps/Days.antt =====
-- The date field of an RMC sentence through the parser of main/gps_if.c.
use airu_v2_fw.Base.{ℕ, ◌+◌, ◌*◌, ◌/◌, ◌%◌, ◌≡◌, false, List, ◌∷◌, ◌++◌, ◌==◌, ap, ◌∙◌, arith}
use airu_v2_fw.Sd.{two_digits}
use airu_v2_fw.Gps.{EspGps, set_date}
use airu_v2_fw.Nmea.{GpsFloats, head}
use airu_v2_fw.Gps.Dates.{
  date_field, IsDay, date_field-digits_value, date_field-digits, date_field-NoComma,
}

date_field-head :
    (d m y : ℕ) (rest : List ℕ) → IsDay d m y → (head (date_field d m y ++ rest) == b',') ≡ false
unfolding date_field two_digits
date_field-head d m y rest k = ground (arith, k.day_fits)

module _ (fl : GpsFloats) where
  open fl use {to_uint, atof, atof-comma, atof-digits}

  pub set_date-date_field :
      (d m y : ℕ) (rest : List ℕ) (g : EspGps fl)
      → IsDay d m y
      → set_date fl (date_field d m y ++ (b',' ∷ rest)) g
        ≡ record g { day = d; month = m; year = y }
  unfolding set_date
  set_date-date_field d m y rest g k =
      rw (not_comma, value) (λ i. record g { day = to_day i; month = to_month i; year = to_year i })
    where
      not_comma : (head (date_field d m y ++ (b',' ∷ rest)) == b',') ≡ false
      not_comma = date_field-head d m y (b',' ∷ rest) k

      value : to_uint (atof (date_field d m y ++ (b',' ∷ rest))) ≡ d * 10000 + m * 100 + y
      value =
          ap to_uint (atof-comma (date_field d m y) rest (date_field-NoComma d m y k))
          ∙ atof-digits (date_field d m y) (date_field-digits d m y k) (
              omega (arith, date_field-digits_value d m y k, k.day_fits, k.month_fits, k.year_fits))
          ∙ date_field-digits_value d m y k

      to_day : (d * 10000 + m * 100 + y) / 10000 % 256 ≡ d
      to_day = omega (arith, k.day_fits, k.month_fits, k.year_fits)

      to_month : (d * 10000 + m * 100 + y) % 10000 / 100 ≡ m
      to_month = omega (arith, k.day_fits, k.month_fits, k.year_fits)

      to_year : (d * 10000 + m * 100 + y) % 100 ≡ y
      to_year = omega (arith, k.day_fits, k.month_fits, k.year_fits)
