-- ===== src/Gps/Sentences.antt =====
-- The way of the parser of main/gps_if.c through an RMC sentence.
use airu_v2_fw.Base.{
  ℕ, ◌≡◌, ◌≢◌, true, ◌||◌, List, [], ◌∷◌, ◌++◌, codes, ltb, ◌==◌, if◌then◌else◌, some, refl, sym,
  ap, ◌∙◌, arith, ◌⊎◌, inl, inr,
}
use airu_v2_fw.Led.{led_set_event_bit, gps_rtc_set}
use airu_v2_fw.Gps.{esp_ok, EspGps, Gps, coordinate, hemisphere, set_time, set_date, parse_rmc}
use airu_v2_fw.Nmea.{GpsFloats, head, next_field, next_fields}
use airu_v2_fw.Gps.Dates.{
  NoComma, next_field-append, date_field, IsDay, IsCoordinate, Passes, coordinate-Passes,
}
use airu_v2_fw.Gps.Days.{set_date-date_field}

-- The fields of an RMC sentence but the date.
pub record Rmc : Type 0 where
  pub time : List ℕ
  pub status : ℕ
  pub lat : List ℕ
  pub ns : ℕ
  pub lon : List ℕ
  pub ew : ℕ
  pub speed : List ℕ
  pub angle : List ℕ

pub record IsRmc (r : Rmc) : Type 0 where
  pub time_field : NoComma r.time
  pub status_letter : (r.status ≡ b'A') ⊎ (r.status ≡ b'V')
  pub lat_field : IsCoordinate 2 r.lat
  pub ns_letter : (r.ns ≡ b'N') ⊎ (r.ns ≡ b'S')
  pub lon_field : IsCoordinate 3 r.lon
  pub ew_letter : (r.ew ≡ b'E') ⊎ (r.ew ≡ b'W')
  pub speed_field : NoComma r.speed
  pub angle_field : NoComma r.angle

-- From the latitude on, and from the time on.
unfoldable pub position_part : Rmc → (date rest : List ℕ) → List ℕ
position_part r date rest =
    r.lat
    ++ (b','
        ∷ r.ns
        ∷ b','
        ∷ (r.lon
            ++ (b','
                ∷ r.ew
                ∷ b','
                ∷ (r.speed ++ (b',' ∷ (r.angle ++ (b',' ∷ (date ++ (b',' ∷ rest)))))))))

unfoldable pub rmc_body : Rmc → (date rest : List ℕ) → List ℕ
rmc_body r date rest = r.time ++ (b',' ∷ r.status ∷ b',' ∷ position_part r date rest)

unfoldable pub rmc_sentence : Rmc → (date rest : List ℕ) → List ℕ
rmc_sentence r date rest = codes "$GPRMC" ++ (b',' ∷ rmc_body r date rest)

module _ (fl : GpsFloats) where
  open fl use {Float, to_uint, atof, atof-comma, atof-digits}

  set_time-comma :
      (t rest : List ℕ) (g : EspGps fl)
      → NoComma t
      → set_time fl (t ++ (b',' ∷ rest)) g ≡ set_time fl t g
  set_time-comma t rest g h = rw (atof-comma t rest h) refl

  -- What the parser keeps of such a sentence.
  pub kept : Rmc → (d m y : ℕ) → Gps fl → Gps fl
  kept r d m y g = record {
    esp_gps = record (set_time fl r.time g.esp_gps) { day = d; month = m; year = y };
    led = if ltb y 80 then led_set_event_bit gps_rtc_set g.led else g.led;
  }

  -- The pointer's way through a sentence.
  record Walk (nmea t date : List ℕ) : Type 0 where
    s : List ℕ
    la : List ℕ
    la' : List ℕ
    n : List ℕ
    lo : List ℕ
    lo' : List ℕ
    e : List ℕ
    x : Float
    y : Float
    to_time : next_field nmea ≡ some t
    to_status : next_field t ≡ some s
    is_status : (head s == b'A' || head s == b'V') ≡ true
    to_lat : next_field s ≡ some la
    lat_read : coordinate fl 2 la ≡ some (x, la')
    to_ns : next_field la' ≡ some n
    is_ns : (hemisphere fl b'N' b'S' x n).0 ≡ true
    to_lon : next_field n ≡ some lo
    lon_read : coordinate fl 3 lo ≡ some (y, lo')
    to_ew : next_field lo' ≡ some e
    is_ew : (hemisphere fl b'E' b'W' y e).0 ≡ true
    to_date : next_fields 3 e ≡ some date

  parse_rmc-Walk :
      (nmea t date : List ℕ) (g : Gps fl)
      → Walk nmea t date
      → parse_rmc fl nmea g ≡ (
          let e = set_date fl date (set_time fl t g.esp_gps) in
          some (
            esp_ok,
            record {
              esp_gps = e;
              led = if ltb e.year 80 then led_set_event_bit gps_rtc_set g.led else g.led;
            },
          ))
  unfolding parse_rmc
  parse_rmc-Walk nmea t date g w =
      rw
        (
          w.to_time, w.to_status, w.is_status, w.to_lat, w.lat_read, w.to_ns, w.is_ns, w.to_lon,
          w.lon_read, w.to_ew, w.is_ew, w.to_date,
        )
        refl

  hemisphere_letter :
      (plus minus c : ℕ) (x : Float) (rest : List ℕ)
      → (c ≡ plus) ⊎ (c ≡ minus)
      → (hemisphere fl plus minus x (c ∷ rest)).0 ≡ true
  unfolding hemisphere
  hemisphere_letter plus minus c x rest (inl e) = ground arith
  hemisphere_letter plus minus c x rest (inr e) = ground arith

  letter-field :
      (a b c : ℕ) (rest : List ℕ)
      → (c ≡ a) ⊎ (c ≡ b)
      → a ≢ b','
      → b ≢ b','
      → next_field (c ∷ b',' ∷ rest) ≡ some rest
  letter-field a b c rest h na nb = next_field-append (c ∷ []) rest (not_comma h, tt)
    where
      not_comma : ((c ≡ a) ⊎ (c ≡ b)) → c ≢ b','
      not_comma (inl e) q = na (sym e ∙ q)
      not_comma (inr e) q = nb (sym e ∙ q)

  rmc-Walk :
      (r : Rmc) (d m y : ℕ) (rest : List ℕ)
      → IsRmc r
      → Walk
          (rmc_sentence r (date_field d m y) rest)
          (rmc_body r (date_field d m y) rest)
          (date_field d m y ++ (b',' ∷ rest))
  unfolding rmc_sentence rmc_body position_part
  rmc-Walk r d m y rest h = record {
    s = r.status ∷ b',' ∷ (r.lat ++ (b',' ∷ r.ns ∷ b',' ∷ after_ns));
    la = r.lat ++ (b',' ∷ r.ns ∷ b',' ∷ after_ns);
    la' = at_lat.behind;
    n = r.ns ∷ b',' ∷ after_ns;
    lo = after_ns;
    lo' = at_lon.behind;
    e = r.ew ∷ b',' ∷ after_ew;
    x = at_lat.value;
    y = at_lon.value;
    to_time = next_field-append (codes "$GPRMC") _ (omega arith);
    to_status = next_field-append r.time _ h.time_field;
    is_status = status_lem h.status_letter;
    to_lat = letter-field b'A' b'V' r.status _ h.status_letter (omega arith) (omega arith);
    lat_read = at_lat.reads;
    to_ns = at_lat.comma;
    is_ns = hemisphere_letter b'N' b'S' r.ns at_lat.value (b',' ∷ after_ns) h.ns_letter;
    to_lon = letter-field b'N' b'S' r.ns _ h.ns_letter (omega arith) (omega arith);
    lon_read = at_lon.reads;
    to_ew = at_lon.comma;
    is_ew = hemisphere_letter b'E' b'W' r.ew at_lon.value (b',' ∷ after_ew) h.ew_letter;
    to_date =
        rw
          (
            letter-field b'E' b'W' r.ew after_ew h.ew_letter (omega arith) (omega arith),
            next_field-append r.speed (r.angle ++ (b',' ∷ (date_field d m y ++ (b',' ∷ rest))))
                h.speed_field,
            next_field-append r.angle (date_field d m y ++ (b',' ∷ rest)) h.angle_field,
          )
          refl;
  }
    where
      after_ew : List ℕ
      after_ew = r.speed ++ (b',' ∷ (r.angle ++ (b',' ∷ (date_field d m y ++ (b',' ∷ rest)))))

      after_ns : List ℕ
      after_ns =
          r.lon
          ++ (b','
              ∷ r.ew
              ∷ b','
              ∷ (r.speed ++ (b',' ∷ (r.angle ++ (b',' ∷ (date_field d m y ++ (b',' ∷ rest)))))))

      at_lat : Passes fl 2 (r.lat ++ (b',' ∷ r.ns ∷ b',' ∷ after_ns)) (r.ns ∷ b',' ∷ after_ns)
      at_lat = coordinate-Passes fl 2 r.lat _ h.lat_field

      at_lon : Passes fl 3 after_ns (r.ew ∷ b',' ∷ after_ew)
      at_lon = coordinate-Passes fl 3 r.lon _ h.lon_field

      status_lem :
          ((r.status ≡ b'A') ⊎ (r.status ≡ b'V')) → (r.status == b'A' || r.status == b'V') ≡ true
      status_lem (inl e) = ground arith
      status_lem (inr e) = ground arith

  pub parse_rmc-kept :
      (r : Rmc) (d m y : ℕ) (rest : List ℕ) (g : Gps fl)
      → IsRmc r
      → IsDay d m y
      → parse_rmc fl (rmc_sentence r (date_field d m y) rest) g ≡ some (esp_ok, kept r d m y g)
  unfolding kept rmc_body
  parse_rmc-kept r d m y rest g h k =
      parse_rmc-Walk _ _ _ g (rmc-Walk r d m y rest h)
      ∙ rw
          (set_date-date_field fl d m y rest
            (set_time fl (rmc_body r (date_field d m y) rest) g.esp_gps) k)
          refl
      ∙ ap
          (λ e. some (
            esp_ok,
            record {
              esp_gps = record e { day = d; month = m; year = y };
              led = if ltb y 80 then led_set_event_bit gps_rtc_set g.led else g.led;
            },
          ))
          (set_time-comma r.time (r.status ∷ b',' ∷ position_part r (date_field d m y) rest)
            g.esp_gps h.time_field)
