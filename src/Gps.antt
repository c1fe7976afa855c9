-- ===== src/Gps.antt =====
-- main/gps_if.c: the task that reads sentences of the GPS module, and the parser of RMC and GGA
-- sentences. `none` is undefined behaviour: a pointer behind a comma that is not there, a sentence
-- that is longer than its array, a number of degrees that leaves `int32_t`.
pub mod Dates
pub mod Days
pub mod Sentences
pub mod Checksums
use airu_v2_fw.Base.{
  ℕ, zero, suc, not, ◌+◌, ◌-◌, ◌*◌, ◌/◌, ◌%◌, ◌^◌, ◌<◌, ◌≡◌, ◌≢◌, Bool, true, false, ◌&&◌, ◌||◌,
  List, [], ◌∷◌, ◌++◌, length, take, drop, get_or, codes, ltb, leb, ◌==◌, if◌then◌else◌, Option,
  none, some, bit_xor, All,
}
use airu_v2_fw.Base.Bytes.{c_string}
use airu_v2_fw.Base.Int.{ℤ, pos, negsuc, pos_part, neg_part}
use airu_v2_fw.Base.Memory.{◌>>=◌}
use airu_v2_fw.Led.{Led, led_set_event_bit, gps_rtc_set}
use airu_v2_fw.Server.{contains}
use airu_v2_fw.Upload.Session.{digits_value}
use airu_v2_fw.Nmea.{
  GpsFloats, atol, has_star, head, is_bad, next_field, next_fields, on_size, parse_hex, xor_all,
}

abbrev pub esp_ok : ℤ
esp_ok = pos 0

abbrev pub esp_fail : ℤ
esp_fail = negsuc 0

module _ (fl : GpsFloats) where
  open fl use {Float, of_ℤ, micro_six, add, sub, mul, div, trunc, to_uint, atof}

  -- `esp_gps_t`
  pub record EspGps : Type 0 where
    pub lat : Float
    pub lon : Float
    pub alt : Float
    pub year : ℕ
    pub month : ℕ
    pub day : ℕ
    pub hour : ℕ
    pub min : ℕ
    pub sec : ℕ

  pub record Gps : Type 0 where
    pub esp_gps : EspGps
    pub led : Led

  -- `(latitude - 100 * (int)(latitude / 100)) / 60.0` and `(int)(latitude / 100)`
  unfoldable pub to_degrees : (degree minutes : ℤ) → Float
  to_degrees degree minutes =
      let latitude = add (of_ℤ (on_size (λ n. n * 100) degree)) (mul (of_ℤ minutes) micro_six) in
      let whole = trunc (div latitude (of_ℤ (pos 100))) in
      add (div (sub latitude (of_ℤ (on_size (λ n. 100 * n) whole))) (of_ℤ (pos 60))) (of_ℤ whole)

  -- A coordinate with that many digits of degrees, at a pointer: its value, 0 for an empty field,
  -- and where the pointer then is.
  unfoldable pub coordinate : ℕ → List ℕ → Option (Float × List ℕ)
  coordinate width p =
      let degree = atol (take width p) in
      let q = drop width p in
      let minutes = on_size (λ n. 50 * n / 3) (atol (take 2 q ++ take 4 (drop 3 q))) in
      if head p == b','
      then some (of_ℤ (pos 0), p)
      else if ltb 214 (pos_part degree + neg_part degree)
      then none
      else some (to_degrees degree minutes, drop 3 q)

  -- The letter of a hemisphere: whether it is one, and the coordinate with its sign.
  unfoldable pub hemisphere : (plus minus : ℕ) → Float → List ℕ → Bool × Float
  hemisphere plus minus x p =
      if head p == b','
      then (true, x)
      else if head p == minus
      then (true, mul x (of_ℤ (negsuc 0)))
      else (head p == plus, x)

  -- `esp_gps.hour`, `min` and `sec`, from `timef`
  abbrev pub set_time : List ℕ → EspGps → EspGps
  set_time p g =
      let time = to_uint (atof p) in
      record g { hour = time / 10000 % 256; min = time % 10000 / 100; sec = time % 100 }

  -- The branch of a GGA sentence, from the start of the sentence on.
  unfoldable pub parse_gga : List ℕ → Gps → Option (ℤ × Gps)
  unfolding coordinate hemisphere
  parse_gga nmea g = next_field nmea >>= λ time. next_field time >>= coordinate 2 >>= λ lat.
      next_field lat.1 >>= λ ns.
      let latitude = hemisphere b'N' b'S' lat.0 ns in
      if latitude.0
      then (next_field ns >>= coordinate 3 >>= λ lon. next_field lon.1 >>= λ ew.
          let longitude = hemisphere b'E' b'W' lon.0 ew in
          if longitude.0
          then (next_fields 4 ew >>= λ altitude. next_fields 2 altitude >>= λ _.
              let alt = if head altitude == b',' then of_ℤ (pos 0) else atof altitude in
              some (
                esp_ok,
                record g {
                  esp_gps =
                      set_time time
                        (record g.esp_gps { alt = alt; lat = latitude.1; lon = longitude.1 });
                },
              ))
          else some (esp_fail, g))
      else some (esp_fail, g)

  -- The date of an RMC sentence, at its field: day, month and year.
  unfoldable pub set_date : List ℕ → EspGps → EspGps
  set_date p g =
      let fulldate = if head p == b',' then 0 else to_uint (atof p) in
      record g {
        day = fulldate / 10000 % 256;
        month = fulldate % 10000 / 100;
        year = fulldate % 100;
      }

  -- The branch of an RMC sentence, from the start of the sentence on; the position is not kept.
  unfoldable pub parse_rmc : List ℕ → Gps → Option (ℤ × Gps)
  unfolding coordinate hemisphere set_date
  parse_rmc nmea g = next_field nmea >>= λ time. next_field time >>= λ status.
      if head status == b'A' || head status == b'V'
      then (next_field status >>= coordinate 2 >>= λ lat. next_field lat.1 >>= λ ns.
          if (hemisphere b'N' b'S' lat.0 ns).0
          then (next_field ns >>= coordinate 3 >>= λ lon. next_field lon.1 >>= λ ew.
              if (hemisphere b'E' b'W' lon.0 ew).0
              then (next_fields 3 ew >>= λ date.
                  let e = set_date date (set_time time g.esp_gps) in
                  some (
                    esp_ok,
                    record {
                      esp_gps = e;
                      led = if ltb e.year 80 then led_set_event_bit gps_rtc_set g.led else g.led;
                    },
                  ))
              else some (esp_fail, g))
          else some (esp_fail, g))
      else some (esp_fail, g)

  -- `parse`; a rejected checksum returns `false`, which is `ESP_OK`. A sentence of less than 4
  -- bytes is read before its array, and the loop of the checksum, whose counter is a `uint8_t`,
  -- does not end from 260 bytes on.
  unfoldable pub parse : List ℕ → Gps → Option (ℤ × Gps)
  unfolding is_bad parse_gga parse_rmc
  parse nmea g =
      if ltb (length nmea) 4
      then none
      else if has_star nmea && ltb 259 (length nmea)
      then none
      else if is_bad nmea
      then some (esp_ok, g)
      else if contains nmea (codes "$GPGGA")
      then parse_gga nmea g
      else if contains nmea (codes "$GPRMC")
      then parse_rmc nmea g
      else some (esp_fail, g)

  -- `uart_event_t`: the bytes that are read up to a detected line end, a line end that is not
  -- found, which flushes the input, and the events that are only logged.
  pub data GpsEvent : Type 0 where
    pattern_det : (bytes : List ℕ) → GpsEvent
    no_pattern logged : GpsEvent

  -- One event of `uart_gps_event_mgr`; the array has 1024 bytes, and a NUL is put behind what is
  -- read.
  unfoldable pub handle_gps_event : GpsEvent → Gps → Option Gps
  unfolding parse
  handle_gps_event (pattern_det bytes) g =
      if ltb (length bytes) 1024 then (parse (c_string bytes) g >>= λ r. some r.1) else none
  handle_gps_event no_pattern g = some g
  handle_gps_event logged g = some g

  -- `GPS_Poll`
  abbrev pub gps_poll : Gps → EspGps
  gps_poll g = g.esp_gps
