-- ===== src/Hdc/Readings.antt =====
-- main/hdc1080_if.c: what a poll leaves in the caller's variables.
use airu_v2_fw.Base.{
  ℕ, zero, suc, ◌+◌, ◌*◌, ◌<◌, ◌≤◌, ◌≡◌, true, false, List, [], ◌∷◌, All, get_or, arith, refl, inl,
  inr, Bool-cases,
}
use airu_v2_fw.Base.Int.{ℤ, pos_part, neg_part}
use airu_v2_fw.Nvs.{is_ok}
use airu_v2_fw.Hdc.{
  Bus, measurement, reading_out, minus, temperature, humidity, Reading, read_out, hdc1080_poll,
}

abbrev pub IsByte : ℕ → Type 0
IsByte n = n < 256

-- From -40 to 125 degrees, and from 0 to 100 percent, without the upper ends.
pub record InRange (temp : ℤ) (hum : ℕ) : Type 0 where
  pub not_too_cold : neg_part temp ≤ 40 * 65536
  pub not_too_hot : pos_part temp < 125 * 65536
  pub not_too_wet : hum < 100 * 65536

temperature-low : (h l : ℕ) → neg_part (temperature h l) ≤ 40 * 65536
unfolding temperature minus
temperature-low h l = ground arith

temperature-high : (h l : ℕ) → IsByte h → IsByte l → pos_part (temperature h l) < 125 * 65536
unfolding temperature minus
temperature-high h l p q = ground arith

temperature-word :
    (h l : ℕ)
    → pos_part (temperature h l) + 40 * 65536 ≡ neg_part (temperature h l) + (256 * h + l) * 165
unfolding temperature minus
temperature-word h l = ground arith

get_or-IsByte : (bytes : List ℕ) (i : ℕ) → All IsByte bytes → IsByte (get_or bytes i 0)
get_or-IsByte [] i h = omega arith
get_or-IsByte (b ∷ bytes) zero h = h.0
get_or-IsByte (b ∷ bytes) (suc i) h = get_or-IsByte bytes i h.1

-- What the four bytes that are read say: in 65536ths, 165 times the first word less 40 degrees, and
-- 100 times the second word, the high byte of each first.
pub record Says (bytes : List ℕ) (temp : ℤ) (hum : ℕ) : Type 0 where
  pub in_degrees :
      pos_part temp + 40 * 65536 ≡ neg_part temp + (256 * get_or bytes 0 0 + get_or bytes 1 0) * 165
  pub in_percent : hum ≡ (256 * get_or bytes 2 0 + get_or bytes 3 0) * 100
  pub in_range : All IsByte bytes → InRange temp hum

-- How a poll ends, by the bus: the measurement does not start, is not read, or is read.
pub data Polled {i2c : Bus} (r : Reading i2c) (after : ℤ × Reading i2c) : Type 0 where
  unstarted :
      is_ok (i2c.begin measurement r.state).0 ≡ false
      → after.0 ≡ (i2c.begin measurement r.state).0
      → after.1.temp ≡ r.temp
      → after.1.hum ≡ r.hum
      → after.1.links ≡ r.links + 1
      → Polled r after
  unread :
      is_ok (i2c.begin measurement r.state).0 ≡ true
      → is_ok (i2c.begin reading_out (i2c.begin measurement r.state).2).0 ≡ false
      → after.0 ≡ (i2c.begin reading_out (i2c.begin measurement r.state).2).0
      → after.1.temp ≡ r.temp
      → after.1.hum ≡ r.hum
      → after.1.links ≡ r.links
      → Polled r after
  measured :
      is_ok (i2c.begin measurement r.state).0 ≡ true
      → is_ok (i2c.begin reading_out (i2c.begin measurement r.state).2).0 ≡ true
      → is_ok after.0 ≡ true
      → Says (i2c.begin reading_out (i2c.begin measurement r.state).2).1 after.1.temp after.1.hum
      → after.1.links ≡ r.links
      → Polled r after

Says-values :
    (bytes : List ℕ)
    → Says bytes
        (temperature (get_or bytes 0 0) (get_or bytes 1 0))
        (humidity (get_or bytes 2 0) (get_or bytes 3 0))
unfolding humidity
Says-values bytes = record {
  in_degrees = temperature-word (get_or bytes 0 0) (get_or bytes 1 0);
  in_percent = omega arith;
  in_range = λ h. record {
    not_too_cold = temperature-low (get_or bytes 0 0) (get_or bytes 1 0);
    not_too_hot =
        temperature-high (get_or bytes 0 0) (get_or bytes 1 0) (get_or-IsByte bytes 0 h)
          (get_or-IsByte bytes 1 h);
    not_too_wet = omega (arith, get_or-IsByte bytes 2 h, get_or-IsByte bytes 3 h);
  };
}

-- A poll ends with the code of the bus. If the measurement cannot be started, it leaves both values
-- and a command link that is not deleted; if it is started and cannot be read, it leaves both values
-- and no link; if it is read, both values are those of the four bytes, and no link is left. Of bytes,
-- the values are from -40 to 125 degrees and from 0 to 100 percent, without the upper ends.
pub hdc1080_poll-Polled : (i2c : Bus) (r : Reading i2c) → Polled r (hdc1080_poll i2c r)
unfolding hdc1080_poll read_out
hdc1080_poll-Polled i2c r =
    let b = i2c.begin measurement r.state in
    let d = i2c.begin reading_out b.2 in
    elim (Bool-cases (is_ok b.0)) [
      | inr e ↦ rw e (unstarted e refl refl refl refl)
      | inl e ↦ elim (Bool-cases (is_ok d.0)) [
        | inl k ↦ rw (e, k) (measured e k k (Says-values d.1) refl)
        | inr k ↦ rw (e, k) (unread e k refl refl refl refl)
      ]
    ]
