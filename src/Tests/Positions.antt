-- ===== src/Tests/Positions.antt =====
-- Runs of main/gps_if.c, with whole numbers in place of floats.
use airu_v2_fw.Base.{
  ℕ, ◌+◌, ◌-◌, ◌*◌, ◌^◌, ◌<◌, ◌≡◌, ◌≢◌, true, ◌&&◌, List, [], ◌∷◌, ◌++◌, All, codes, leb, refl,
  arith,
}
use airu_v2_fw.Base.Int.{pos, pos_part}
use airu_v2_fw.Led.{led_initialize}
use airu_v2_fw.Upload.Session.{digits_value}
use airu_v2_fw.Gps.{Gps}
use airu_v2_fw.Nmea.{GpsFloats}
use airu_v2_fw.Gps.Sentences.{Rmc}

digits_value-comma :
    (n : ℕ) (t rest : List ℕ)
    → All (λ c. c ≢ b',') t
    → digits_value n (t ++ (b',' ∷ rest)) ≡ digits_value n t
unfolding digits_value
digits_value-comma n [] rest h = ground arith
digits_value-comma n (c ∷ t) rest h =
    ground (arith, digits_value-comma (n * 10 + (c - b'0')) t rest h.1)

pub whole_atof : List ℕ → ℕ
whole_atof t = digits_value 0 t

pub whole_atof-comma :
    (t rest : List ℕ) → All (λ c. c ≢ b',') t → whole_atof (t ++ (b',' ∷ rest)) ≡ whole_atof t
unfolding whole_atof
whole_atof-comma t rest h = digits_value-comma 0 t rest h

pub whole_atof-digits :
    (t : List ℕ)
    → All (λ c. leb b'0' c && leb c b'9' ≡ true) t
    → digits_value 0 t < 2 ^ 24
    → whole_atof t ≡ digits_value 0 t
unfolding whole_atof
whole_atof-digits t h l = refl

abbrev pub whole : GpsFloats
whole = record {
  Float = ℕ;
  of_ℤ = pos_part;
  micro_six = 0;
  add = λ a b. a + b;
  sub = λ a b. a - b;
  mul = λ a b. a * b;
  div = λ a b. a;
  trunc = pos;
  to_uint = λ a. a;
  atof = whole_atof;
  atof-comma = whole_atof-comma;
  atof-digits = whole_atof-digits;
}

abbrev at_noon : Rmc
at_noon = record {
  time = codes "120000.000";
  status = b'A';
  lat = codes "4045.9";
  ns = b'N';
  lon = codes "11150.6";
  ew = b'W';
  speed = codes "0.02";
  angle = [];
}

abbrev pub cold : Gps whole
cold = record {
  esp_gps = record {
    lat = 0;
    lon = 0;
    alt = 0;
    year = 0;
    month = 0;
    day = 0;
    hour = 0;
    min = 0;
    sec = 0;
  };
  led = led_initialize;
}
