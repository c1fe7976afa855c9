-- ===== src/Led.antt =====
-- main/led_if.c: the LED task shows the events that other tasks set as bits of an event group.
pub mod Events
use airu_v2_fw.Base.{ℕ, ◌^◌, Bool, true, false, ◌||◌, List, [], ◌∷◌, if◌then◌else◌}

-- `led_events_t`
pub data LedEvent : Type 0 where
  wifi_connected wifi_disconnected gps_rtc_set gps_rtc_not_set : LedEvent

-- `led_event_group`
pub record Pending : Type 0 where
  pub has_wifi_connected : Bool
  pub has_wifi_disconnected : Bool
  pub has_gps_rtc_set : Bool
  pub has_gps_rtc_not_set : Bool

-- The duties of the channels STAT1 and STAT3; STAT2 is never changed.
pub record Led : Type 0 where
  pub pending : Pending
  pub stat1 : ℕ
  pub stat3 : ℕ

abbrev pub ledc_duty : ℕ
ledc_duty = 2 ^ 6

abbrev pub no_events : Pending
no_events = record {
  has_wifi_connected = false;
  has_wifi_disconnected = false;
  has_gps_rtc_set = false;
  has_gps_rtc_not_set = false;
}

-- `LED_Initialize`, with the duties of `ledc_channel`.
abbrev pub led_initialize : Led
led_initialize = record { pending = no_events; stat1 = ledc_duty; stat3 = 0 }

-- `LED_SetEventBit`
unfoldable pub led_set_event_bit : LedEvent → Led → Led
led_set_event_bit wifi_connected l = record l {
  pending = record l.pending { has_wifi_connected = true };
}
led_set_event_bit wifi_disconnected l = record l {
  pending = record l.pending { has_wifi_disconnected = true };
}
led_set_event_bit gps_rtc_set l = record l { pending = record l.pending { has_gps_rtc_set = true } }
led_set_event_bit gps_rtc_not_set l = record l {
  pending = record l.pending { has_gps_rtc_not_set = true };
}

abbrev when : Bool → (Led → Led) → Led → Led
when b f l = if b then f l else l

-- A round of `led_task`; the wait takes the bits back. Without a bit the task waits.
unfoldable pub led_round : Led → Led
led_round l =
    when l.pending.has_gps_rtc_set (λ l. record l { stat3 = 0 })
      (when l.pending.has_gps_rtc_not_set (λ l. record l { stat3 = ledc_duty })
        (when l.pending.has_wifi_connected (λ l. record l { stat1 = 0 })
          (when l.pending.has_wifi_disconnected (λ l. record l { stat1 = ledc_duty })
            (record l { pending = no_events }))))

-- The events of other tasks, one after the other.
unfoldable pub led_set_all : List LedEvent → Led → Led
unfolding led_set_event_bit
led_set_all [] l = l
led_set_all (e ∷ es) l = led_set_all es (led_set_event_bit e l)
