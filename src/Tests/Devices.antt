-- ===== src/Tests/Devices.antt =====
-- Runs of main/led_if.c and main/time_if.c.
use airu_v2_fw.Base.{ℕ, ◌*◌, true, [], ◌∷◌, some, ◌≡◌, refl, arith}
use airu_v2_fw.Led.{
  wifi_connected, wifi_disconnected, gps_rtc_not_set, led_initialize, no_events, led_set_all,
  led_round,
}
use airu_v2_fw.Led.Events.{has_event, led_round-led_set_all}
use airu_v2_fw.Clock.{sntp_obtain_time}
use airu_v2_fw.Clock.Polls.{Obtained, sntp_obtain_time-Obtained}

led_round-led_set_all_example :
    led_round
      (led_set_all (wifi_connected ∷ gps_rtc_not_set ∷ wifi_disconnected ∷ []) led_initialize)
    ≡ record { pending = no_events; stat1 = 0; stat3 = 64 }
unfolding has_event
led_round-led_set_all_example =
    led_round-led_set_all (wifi_connected ∷ gps_rtc_not_set ∷ wifi_disconnected ∷ []) led_initialize

-- The time is set at the third poll.
abbrev slow_clock : ℕ → ℕ
slow_clock n = n * 600000000

third_poll : sntp_obtain_time 25 slow_clock ≡ some (1800000000, true)
unfolding sntp_obtain_time
third_poll = refl

sntp_obtain_time-Obtained_example : Obtained slow_clock (sntp_obtain_time 25 slow_clock)
sntp_obtain_time-Obtained_example = sntp_obtain_time-Obtained 25 slow_clock (omega arith)
