-- ===== src/App.antt =====
-- main/main.c: the data task, which polls the sensors, publishes a packet and stores a line. The
-- values of the temperature and gas sensors are arguments; `sprintf` of the two packets is a
-- parameter, since it prints floats.
pub mod Reports
use airu_v2_fw.Base.{
  ℕ, ◌+◌, ◌/◌, ◌%◌, ◌<◌, ◌≤◌, ◌≡◌, Bool, true, false, ◌||◌, List, [], ◌∷◌, ◌++◌, length, ltb, leb,
  if◌then◌else◌, Option, none, some,
}
use airu_v2_fw.Base.Float.{Floats}
use airu_v2_fw.Base.Int.{ℤ, pos, negsuc}
use airu_v2_fw.Base.Memory.{◌>>=◌}
use airu_v2_fw.Nvs.{Nvs}
use airu_v2_fw.Pm.{PmData, Sensor, pms_poll}
use airu_v2_fw.Gps.{EspGps}
use airu_v2_fw.Nmea.{GpsFloats}
use airu_v2_fw.Mqtt.{Mqtt, Setup, mqtt_publish_data}
use airu_v2_fw.Sd.{FileSystem, Date, two_digits, sd_write_data}
use airu_v2_fw.Sd.Logging.{Log, periodic_timer_callback}
use airu_v2_fw.Wifi.Documents.{decimal}
use airu_v2_fw.Wifi.Handlers.{check_connection_async}

-- `MQTT_PKT_LEN`
abbrev pub mqtt_pkt_len : ℕ
mqtt_pkt_len = 256

-- The time of a line: hours, minutes and seconds.
abbrev pub clock_text : (hours minutes seconds : List ℕ) → List ℕ
clock_text hours minutes seconds = hours ++ (b':' ∷ (minutes ++ (b':' ∷ seconds)))

-- `err >= ESP_OK`
abbrev pub is_sent : ℤ → Bool
is_sent (pos _) = true
is_sent (negsuc _) = false

module _ (nvs : Nvs) (fl : Floats) (gfl : GpsFloats) (fs : FileSystem) where
  -- What one round reads.
  pub record Measured : Type 0 where
    pub pm : PmData fl
    pub gps : EspGps gfl
    pub uptime : ℕ
    pub temp : fl.Float
    pub hum : fl.Float
    pub co : ℕ
    pub nox : ℕ

  -- The build: topics, the formats `MQTT_PKT` and `SD_PKT`, and `CONFIG_SD_CARD_DEBUG`.
  pub record Build : Type 0 where
    pub setup : Setup
    pub mqtt_pkt : Measured → List ℕ
    pub sd_pkt : (time : List ℕ) → Measured → List ℕ
    pub has_card_debug : Bool

  -- The state of the modules that the task calls, and `last_publish`.
  pub record Device : Type 0 where
    pub pm : Sensor fl
    pub gps : EspGps gfl
    pub mqtt : Mqtt nvs
    pub log : Log fs
    pub last_publish : ℕ

  -- What the rest of the world does in one round.
  pub record Round : Type 0 where
    pub uptime : ℕ
    pub temp : fl.Float
    pub hum : fl.Float
    pub co : ℕ
    pub nox : ℕ
    pub old_count : ℕ  -- what stands in `pm_dat.sample_count`
    pub msg_id : ℤ
    pub log_size : ℕ

  abbrev pub measured : Round → Device → Measured
  measured r d = record {
    pm = (pms_poll fl d.pm r.old_count).0.1;
    gps = d.gps;
    uptime = r.uptime;
    temp = r.temp;
    hum = r.hum;
    co = r.co;
    nox = r.nox;
  }

  -- The system's time for a year of the GPS that cannot be, and the time of the GPS otherwise. The
  -- device restarts after an hour, so there are less than 1000 hours.
  unfoldable pub time_text : Measured → List ℕ
  time_text x =
      let rm = x.uptime % 3600 in
      if leb x.gps.year 18 || leb 80 x.gps.year
      then clock_text (decimal (x.uptime / 3600)) (two_digits (rm / 60)) (two_digits (rm % 60))
      else clock_text (two_digits x.gps.hour) (two_digits x.gps.min) (two_digits x.gps.sec)

  -- The publication; where it fails, a ping test is requested.
  unfoldable pub publish_packet : Build → Round → List ℕ → Device → Device
  publish_packet b r pkt d =
      let p = mqtt_publish_data b.setup r.msg_id pkt d.mqtt in
      if is_sent p.0
      then record d { mqtt = p.1; last_publish = r.uptime }
      else record d { mqtt = record p.1 { wifi = check_connection_async p.1.wifi } }

  abbrev pub gps_date : EspGps gfl → Date
  gps_date g = record { year = g.year; month = g.month; day = g.day }

  -- The line for the card, and the callback for the log file.
  unfoldable pub store_line : Build → Round → List ℕ → Device → Option Device
  store_line b r pkt d =
      let l = record d.log { card = (sd_write_data fs pkt (gps_date d.gps) d.log.card).1 } in
      (if b.has_card_debug then periodic_timer_callback fs r.log_size l else some l) >>= λ m.
      some (record d { log = m })

  -- What is done with the readings. A text that does not fit the packet's memory is undefined
  -- behaviour.
  unfoldable pub report : Build → Round → Measured → Device → Option Device
  unfolding time_text publish_packet store_line
  report b r x d =
      let line = b.sd_pkt (time_text x) x in
      if ltb (length (b.mqtt_pkt x)) mqtt_pkt_len
      then (if ltb (length line) mqtt_pkt_len
          then store_line b r line (publish_packet b r (b.mqtt_pkt x) d)
          else none)
      else none

  -- A round of `data_task`.
  unfoldable pub data_round : Build → Round → Device → Option Device
  unfolding report
  data_round b r d = report b r (measured r d) (record d { pm = (pms_poll fl d.pm r.old_count).1 })
