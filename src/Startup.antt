-- ===== src/Startup.antt =====
-- main/pm_if.c, main/gps_if.c, main/sd_if.c and main/time_if.c: how the modules start, from what the
-- drivers answer. `app_main` of main/main.c ignores the results.
pub mod Results
use airu_v2_fw.Base.{ℕ, Bool, true, false, List, [], ◌∷◌, Option, none, some, if◌then◌else◌, ltb}
use airu_v2_fw.Base.Float.{Floats}
use airu_v2_fw.Base.Int.{ℤ, pos, negsuc}
use airu_v2_fw.Base.Memory.{◌>>=◌}
use airu_v2_fw.Nvs.{is_ok}
use airu_v2_fw.Pm.{Sensor, cleared}
use airu_v2_fw.Clock.{sec_jan1_2018, sntp_obtain_time}
use airu_v2_fw.Sd.{FileSystem}
use airu_v2_fw.Sd.Logging.{Log, periodic_timer_callback}

-- What the UART driver answers to its three calls.
pub record Uart : Type 0 where
  pub param_config : ℤ
  pub set_pin : ℤ
  pub driver_install : ℤ

-- The three calls, up to the first error.
unfoldable pub uart_setup : Uart → ℤ
uart_setup u =
    if is_ok u.param_config
    then (if is_ok u.set_pin then u.driver_install else u.set_pin)
    else u.param_config

-- The levels of the sensor's two pins.
pub record PmPins : Type 0 where
  pub pm_set : ℕ
  pub pm_reset : ℕ

-- `PMS_SET` and `PMS_RESET`
unfoldable pub pms_set : (level : ℕ) → PmPins → PmPins
pms_set level p = record p { pm_set = level }

unfoldable pub pms_reset : (level : ℕ) → PmPins → PmPins
pms_reset level p = record p { pm_reset = level }

-- `PMS_Initialize`: the code, whether the task for events runs, the sensor's state and its pins.
unfoldable pub pms_initialize :
    (fl : Floats) → Uart → Sensor fl → PmPins → ℤ × Bool × Sensor fl × PmPins
unfolding uart_setup pms_set pms_reset
pms_initialize fl u s p =
    let err = uart_setup u in
    if is_ok err
    then (err, true, record s { accum = cleared fl; timer_runs = true }, pms_reset 1 (pms_set 1 p))
    else (err, false, s, p)

-- What `GPS_Initialize` does once the UART is set up.
pub data GpsStart : Type 0 where
  pattern_detection pattern_queue_reset flush event_task : GpsStart
  led_gps_rtc_not_set : GpsStart

-- `GPS_Initialize`
unfoldable pub gps_initialize : Uart → ℤ × List GpsStart
unfolding uart_setup
gps_initialize u =
    let err = uart_setup u in
    if is_ok err
    then (
      err,
      pattern_detection ∷ pattern_queue_reset ∷ flush ∷ event_task ∷ led_gps_rtc_not_set ∷ [],
    )
    else (err, [])

-- `SD_Initialize`, from the result of the mount and with the size that the log file then has: the
-- code, `fs_mounted`, and the log.
unfoldable pub sd_initialize :
    (fs : FileSystem) (has_card_debug : Bool) (mounted : ℤ) (size : ℕ) (fs_mounted : Bool)
    → Log fs
    → Option (ℤ × Bool × Log fs)
sd_initialize fs has_card_debug mounted size fs_mounted l =
    if is_ok mounted
    then ((if has_card_debug then periodic_timer_callback fs size l else some l) >>= λ m.
        some (mounted, true, m))
    else some (mounted, fs_mounted, l)

-- `SNTP_Initialize`, behind its wait for internet: the result, and whether `GOT_TS_BIT` is set.
unfoldable pub sntp_initialize : (fuel : ℕ) → (ℕ → ℕ) → Option (ℤ × Bool)
sntp_initialize fuel clock = sntp_obtain_time fuel clock >>= λ r.
    some (if ltb r.0 sec_jan1_2018 then negsuc 0 else pos 0, r.1)

-- `sd_deinit`, from the result of the unmount: the code, and `fs_mounted`, which it leaves.
unfoldable pub sd_deinit : (unmounted : ℤ) (fs_mounted : Bool) → ℤ × Bool
sd_deinit unmounted fs_mounted = (unmounted, fs_mounted)

-- The bits of `ntp_event_group`.
pub record NtpBits : Type 0 where
  pub wifi_connected : Bool
  pub got_ts : Bool

-- `sntp_wifi_connected`
unfoldable pub sntp_wifi_connected : NtpBits → NtpBits
sntp_wifi_connected b = record b { wifi_connected = true }

-- `SNTP_time_is_set`: whether its wait is over.
unfoldable pub sntp_time_is_set : NtpBits → Bool
sntp_time_is_set b = b.got_ts

-- The bits that `SNTP_Initialize` leaves: both are cleared first.
unfoldable pub sntp_bits : (fuel : ℕ) → (ℕ → ℕ) → Option NtpBits
unfolding sntp_initialize
sntp_bits fuel clock =
    sntp_initialize fuel clock >>= λ r. some (record { wifi_connected = false; got_ts = r.1 })
