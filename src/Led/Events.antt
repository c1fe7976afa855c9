-- ===== src/Led/Events.antt =====
-- main/led_if.c: what the LEDs show after any events, when they come together and when they do not.
use airu_v2_fw.Base.{ℕ, Bool, true, false, ◌||◌, List, [], ◌∷◌, ◌≡◌, arith, if◌then◌else◌}
use airu_v2_fw.Led.{
  LedEvent, wifi_connected, wifi_disconnected, gps_rtc_set, gps_rtc_not_set, Led, ledc_duty,
  no_events, led_set_event_bit, led_set_all, led_round,
}

abbrev pub is_event : LedEvent → LedEvent → Bool
is_event wifi_connected wifi_connected = true
is_event wifi_disconnected wifi_disconnected = true
is_event gps_rtc_set gps_rtc_set = true
is_event gps_rtc_not_set gps_rtc_not_set = true
is_event _ _ = false

unfoldable pub has_event : LedEvent → List LedEvent → Bool
has_event e [] = false
has_event e (a ∷ es) = is_event a e || has_event e es

-- What a channel shows: its event for "off" wins over its event for "on".
abbrev pub shows : (off on : Bool) → ℕ → ℕ
shows off on old = if off then 0 else if on then ledc_duty else old

-- Events that come in one round: for each LED the event that switches it off wins, in whatever order
-- they came, and with none of its events it stays; the bits are taken back.
pub led_round-led_set_all :
    (es : List LedEvent) (l : Led)
    → led_round (led_set_all es l) ≡ record {
      pending = no_events;
      stat1 =
          shows
            (l.pending.has_wifi_connected || has_event wifi_connected es)
            (l.pending.has_wifi_disconnected || has_event wifi_disconnected es)
            l.stat1;
      stat3 =
          shows
            (l.pending.has_gps_rtc_set || has_event gps_rtc_set es)
            (l.pending.has_gps_rtc_not_set || has_event gps_rtc_not_set es)
            l.stat3;
    }
unfolding led_set_all led_round has_event
led_round-led_set_all [] l = ground arith
led_round-led_set_all (wifi_connected ∷ es) l =
    ground (arith, led_round-led_set_all es (led_set_event_bit wifi_connected l))
led_round-led_set_all (wifi_disconnected ∷ es) l =
    ground (arith, led_round-led_set_all es (led_set_event_bit wifi_disconnected l))
led_round-led_set_all (gps_rtc_set ∷ es) l =
    ground (arith, led_round-led_set_all es (led_set_event_bit gps_rtc_set l))
led_round-led_set_all (gps_rtc_not_set ∷ es) l =
    ground (arith, led_round-led_set_all es (led_set_event_bit gps_rtc_not_set l))
