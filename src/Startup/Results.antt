-- ===== src/Startup/Results.antt =====
-- What the starts of main/pm_if.c and main/time_if.c report and leave.
use airu_v2_fw.Base.{
  ℕ, ◌<◌, ◌≤◌, ◌≡◌, ◌↔◌, ◌⊎◌, inl, inr, Bool, true, false, Option, some, arith, refl, ltb,
  if◌then◌else◌, Bool-cases,
}
use airu_v2_fw.Base.Float.{Floats}
use airu_v2_fw.Base.Int.{ℤ, pos, negsuc}
use airu_v2_fw.Nvs.{is_ok}
use airu_v2_fw.Pm.{Sensor, pms_poll}
use airu_v2_fw.Clock.{sec_jan1_2018, sntp_obtain_time}
use airu_v2_fw.Clock.Polls.{Obtained, sntp_obtain_time-Obtained}
use airu_v2_fw.Startup.{
  NtpBits, sntp_time_is_set, sntp_bits, Uart, uart_setup, PmPins, pms_initialize, sntp_initialize,
}

-- Some of the polls that a wait may make finds a time that is set.
abbrev pub IsSetInTime : (ℕ → ℕ) → Type 0
IsSetInTime clock = (i : ℕ) × (0 < i) × (i ≤ 24) × (sec_jan1_2018 ≤ clock i)

abbrev pub sntp_result : ℕ → ℤ
sntp_result now = if ltb now sec_jan1_2018 then negsuc 0 else pos 0

sntp_result_iff : (now : ℕ) → (sntp_result now ≡ pos 0) ↔ (sec_jan1_2018 ≤ now)
sntp_result_iff now = ground arith

last_poll : (i n : ℕ) → i ≤ 24 → n ≡ 24 → ltb i n ≡ false → i ≡ n
last_poll i n q d after = ground arith

found :
    (clock : ℕ → ℕ) (o : Option (ℕ × Bool)) (b : Obtained clock o)
    → IsSetInTime clock
    → sec_jan1_2018 ≤ clock b.polls
found clock o b (i, p, q, s) = elim b.done [
  | inl d ↦ d
  | inr d ↦ elim (Bool-cases (ltb i b.polls)) [
    | inl before ↦ absurd (omega (arith, b.earlier i p (ground arith)))
    | inr after ↦ rw (← last_poll i b.polls q d after) s
  ]
]

-- The start of SNTP always ends, and its result is 0 exactly if one of the first 24 polls finds a
-- time of 2018 or later, and -1 otherwise.
pub sntp_initialize_iff :
    (fuel : ℕ) (clock : ℕ → ℕ)
    → 25 ≤ fuel
    → (r : ℤ) × (bit : Bool) × (sntp_initialize fuel clock ≡ some (r, bit))
      × ((r ≡ pos 0) ↔ IsSetInTime clock)
unfolding sntp_initialize
sntp_initialize_iff fuel clock h =
    let b = sntp_obtain_time-Obtained fuel clock h in
    (
      sntp_result (clock b.polls),
      ltb sec_jan1_2018 (clock b.polls),
      rw b.returns refl,
      (
        λ e. (b.polls, b.some_poll, b.few, (sntp_result_iff (clock b.polls)).0 e),
        λ s. (sntp_result_iff (clock b.polls)).1 (found clock (sntp_obtain_time fuel clock) b s),
      ),
    )

-- Once the sensor is set up its accumulator is empty, so that a poll before the first sample fails;
-- where the UART refuses a call, its task is not made, and the state is as it was.
pub pms_initialize-pms_poll :
    (fl : Floats) (u : Uart) (s : Sensor fl) (p : PmPins) (old_count : ℕ)
    → ((pms_initialize fl u s p).1 ≡ is_ok (uart_setup u))
      × ((is_ok (uart_setup u) ≡ false) × ((pms_initialize fl u s p).2 ≡ s)
          ⊎ (is_ok (pms_poll fl (pms_initialize fl u s p).2 old_count).0.0 ≡ false))
unfolding pms_initialize pms_poll
pms_initialize-pms_poll fl u s p old_count = elim (Bool-cases (is_ok (uart_setup u))) [
  | inl e ↦ rw e (refl, inr refl)
  | inr e ↦ rw e (refl, inl (refl, refl))
]

-- The task that waits for the time goes on only if some poll found a time of 2018 or later.
pub sntp_bits-sntp_time_is_set :
    (fuel : ℕ) (clock : ℕ → ℕ)
    → 25 ≤ fuel
    → (b : NtpBits) × (sntp_bits fuel clock ≡ some b)
      × (sntp_time_is_set b ≡ true → IsSetInTime clock)
unfolding sntp_bits sntp_time_is_set sntp_initialize
sntp_bits-sntp_time_is_set fuel clock h =
    let b = sntp_obtain_time-Obtained fuel clock h in
    (
      record { wifi_connected = false; got_ts = ltb sec_jan1_2018 (clock b.polls) },
      rw b.returns refl,
      λ e. (b.polls, b.some_poll, b.few, later (clock b.polls) e),
    )
  where
    later : (now : ℕ) → ltb sec_jan1_2018 now ≡ true → sec_jan1_2018 ≤ now
    later now e = ground arith
