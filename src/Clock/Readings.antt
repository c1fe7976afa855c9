-- ===== src/Clock/Readings.antt =====
-- main/time_if.c: `time_gmtime` between two waits for SNTP.
use airu_v2_fw.Base.{ℕ, ◌+◌, ◌-◌, ◌/◌, ◌≤◌, ◌≡◌, false, some, ltb, arith, refl}
use airu_v2_fw.Clock.{Clock, sec_jan1_2018, ms_between_ntp_update, time_gmtime}

-- A time of 2018 or later is kept for ten minutes: a read in that time asks no server, however many
-- polls it may make, gives the time with the seconds since then, and changes nothing.
pub time_gmtime-kept :
    (fuel current_ms later_ms : ℕ) (clock : ℕ → ℕ) (c : Clock)
    → sec_jan1_2018 ≤ c.utc_time
    → current_ms - c.ms_active ≤ ms_between_ntp_update
    → time_gmtime fuel current_ms later_ms clock c
      ≡ some (c.utc_time + (current_ms - c.ms_active) / 1000, c)
unfolding time_gmtime
time_gmtime-kept fuel current_ms later_ms clock c s m = rw (fresh, set) refl
  where
    fresh : ltb ms_between_ntp_update (current_ms - c.ms_active) ≡ false
    fresh = ground arith

    set : ltb c.utc_time sec_jan1_2018 ≡ false
    set = ground arith
