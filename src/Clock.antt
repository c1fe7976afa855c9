-- ===== src/Clock.antt =====
-- main/time_if.c: the wait for the time from SNTP, and the clock that the firmware reads. The system
-- clock is a function from the poll's number to the seconds that `time` then returns.
pub mod Polls
pub mod Readings
use airu_v2_fw.Base.{
  ℕ, zero, suc, ◌+◌, ◌-◌, ◌/◌, ◌*◌, Bool, true, false, ◌||◌, Option, none, some, ltb, if◌then◌else◌,
}
use airu_v2_fw.Base.Memory.{◌>>=◌}

abbrev pub sec_jan1_2018 : ℕ
sec_jan1_2018 = 1514764800

abbrev pub retry_count : ℕ
retry_count = 25

-- The loop of `_sntp_obtain_time`: the time, and `retry`; `none` if it takes more rounds than `fuel`.
pub wait_for_time : ℕ → (ℕ → ℕ) → (retry now : ℕ) → Option (ℕ × ℕ)
wait_for_time zero clock retry now = none
wait_for_time (suc fuel) clock retry now =
    let rest = wait_for_time fuel clock (retry + 1) (clock (retry + 1)) in
    if ltb now sec_jan1_2018
    then (if ltb (retry + 1) retry_count then rest else some (now, retry + 1))
    else some (now, retry)

-- `_sntp_obtain_time`: the time, and whether `GOT_TS_BIT` is set.
unfoldable pub sntp_obtain_time : ℕ → (ℕ → ℕ) → Option (ℕ × Bool)
unfolding wait_for_time
sntp_obtain_time fuel clock =
    wait_for_time fuel clock 0 0 >>= λ r. some (r.0, ltb sec_jan1_2018 r.0)

-- `utc_time` and `ms_active`
pub record Clock : Type 0 where
  pub utc_time : ℕ
  pub ms_active : ℕ

-- `MS_BETWEEN_NTP_UPDATE`
abbrev pub ms_between_ntp_update : ℕ
ms_between_ntp_update = 600000

-- `time_gmtime`, with what `clock` returns before and after the wait for SNTP, and the system clock
-- that is polled meanwhile. The unsigned difference of the times does not wrap, since `clock`
-- does not go back.
unfoldable pub time_gmtime : (fuel current_ms later_ms : ℕ) → (ℕ → ℕ) → Clock → Option (ℕ × Clock)
unfolding sntp_obtain_time
time_gmtime fuel current_ms later_ms clock c =
    if ltb ms_between_ntp_update (current_ms - c.ms_active) || ltb c.utc_time sec_jan1_2018
    then (sntp_obtain_time fuel clock >>= λ r.
        some (r.0, record { utc_time = r.0; ms_active = later_ms }))
    else some (c.utc_time + (current_ms - c.ms_active) / 1000, c)
