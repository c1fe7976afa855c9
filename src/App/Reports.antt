-- ===== src/App/Reports.antt =====
-- What a round of the data task in main/main.c reports: the averages of the frames since the last
-- round, published and stored.
use airu_v2_fw.Base.{
  ℕ, ◌<◌, ◌≡◌, ◌≢◌, true, false, List, [], ◌∷◌, length, Option, some, All, refl, ap, ◌∙◌, arith,
}
use airu_v2_fw.Base.Float.{Floats}
use airu_v2_fw.Base.Int.{pos}
use airu_v2_fw.Nvs.{Nvs, is_ok}
use airu_v2_fw.Pm.{PmData, UartEvent, cleared, pms_poll, run_events}
use airu_v2_fw.Pm.Average.{readings, total, Fits, FillsBuffer, pms_poll_average}
use airu_v2_fw.Nmea.{GpsFloats}
use airu_v2_fw.Mqtt.{publish, below, mqtt_publish_general, mqtt_publish_data}
use airu_v2_fw.Sd.{FileSystem, file_name, sd_write_data}
use airu_v2_fw.Sd.Packets.{appended, sd_write_data-same}
use airu_v2_fw.App.{
  Measured, Build, Device, Round, measured, time_text, publish_packet, gps_date, store_line, report,
  data_round,
}

module _ (nvs : Nvs) (fl : Floats) (gfl : GpsFloats) (fs : FileSystem)
    (prints : (n b : List ℕ) (c : fs.Card) → (fs.print n b c).0 ≡ length b) where
  open fl use {of_ℕ, div_count}

  -- The average of each measurement over these frames.
  abbrev pub averages : List UartEvent → ℕ → PmData fl
  averages es n = record {
    sample_count = n;
    pm1 = div_count (of_ℕ (total (λ r. r.pm1) (readings es))) (length (readings es));
    pm2_5 = div_count (of_ℕ (total (λ r. r.pm2_5) (readings es))) (length (readings es));
    pm10 = div_count (of_ℕ (total (λ r. r.pm10) (readings es))) (length (readings es));
  }

  -- The readings of a round that polls after these events.
  abbrev pub reported :
      List UartEvent → Round nvs fl gfl fs → Device nvs fl gfl fs → Measured nvs fl gfl fs
  reported es r d = record {
    pm = averages es r.old_count;
    gps = d.gps;
    uptime = r.uptime;
    temp = r.temp;
    hum = r.hum;
    co = r.co;
    nox = r.nox;
  }

  -- A round that returns, with what it published and stored.
  pub record Reported (b : Build nvs fl gfl fs) (r : Round nvs fl gfl fs)
      (x : Measured nvs fl gfl fs) (d : Device nvs fl gfl fs) (o : Option (Device nvs fl gfl fs))
      : Type 0 where
    pub after : Device nvs fl gfl fs
    pub returns : o ≡ some after
    pub published :
        after.mqtt.calls
        ≡ publish d.mqtt.client (below b.setup b.setup.data_topic) (b.mqtt_pkt x) ∷ d.mqtt.calls
    pub published_at : after.last_publish ≡ r.uptime
    pub reset : after.pm.accum ≡ cleared fl
    pub stored :
        fs.contents after.log.card (file_name (gps_date nvs fl gfl fs d.gps))
        ≡ appended
            (fs.contents d.log.card (file_name (gps_date nvs fl gfl fs d.gps)))
            (b.sd_pkt (time_text nvs fl gfl fs x) x)

  polled_lem :
      (es : List UartEvent) (r : Round nvs fl gfl fs) (d : Device nvs fl gfl fs)
      → All FillsBuffer es
      → d.pm.accum ≡ cleared fl
      → readings es ≢ []
      → Fits fl 0 0 0 0 (readings es)
      → (measured nvs fl gfl fs r (record d { pm = run_events fl es d.pm }) ≡ reported es r d)
        × ((pms_poll fl (run_events fl es d.pm) r.old_count).1.accum ≡ cleared fl)
  polled_lem es r d w c n f =
      let e = pms_poll_average fl es d.pm r.old_count w c n f in
      (
        ap
            (λ t. record {
              pm = t.0.1;
              gps = d.gps;
              uptime = r.uptime;
              temp = r.temp;
              hum = r.hum;
              co = r.co;
              nox = r.nox;
            })
            e,
        ap (λ t. t.1.accum) e,
      )

  -- The device after a report that goes well.
  abbrev after_report :
      Build nvs fl gfl fs
      → Round nvs fl gfl fs
      → Measured nvs fl gfl fs
      → Device nvs fl gfl fs
      → Device nvs fl gfl fs
  after_report b r x d = record d {
    mqtt = record d.mqtt {
      calls =
          publish d.mqtt.client (below b.setup b.setup.data_topic) (b.mqtt_pkt x) ∷ d.mqtt.calls;
    };
    last_publish = r.uptime;
    log = record d.log {
      card =
          (sd_write_data fs (b.sd_pkt (time_text nvs fl gfl fs x) x) (gps_date nvs fl gfl fs d.gps)
            d.log.card).1;
    };
  }

  report_lem :
      (b : Build nvs fl gfl fs) (r : Round nvs fl gfl fs) (k : ℕ) (x : Measured nvs fl gfl fs)
      (d : Device nvs fl gfl fs)
      → d.mqtt.client_connected ≡ true
      → r.msg_id ≡ pos k
      → length (b.mqtt_pkt x) < 256
      → length (b.sd_pkt (time_text nvs fl gfl fs x) x) < 256
      → b.has_card_debug ≡ false
      → report nvs fl gfl fs b r x d ≡ some (after_report b r x d)
  unfolding report publish_packet store_line mqtt_publish_data mqtt_publish_general
  report_lem b r k x d on sent l1 l2 nd = ground arith

  -- From a cleared accumulator, after any UART events with an accepted frame and sums that `float`
  -- holds, a round of the data task with a connected client, a message that is accepted, texts
  -- of less than 256 bytes, no debug log on the card and a card that takes the line, returns. It publishes
  -- the packet of the averages over the accepted frames, notes the time, clears the accumulator, and
  -- puts the line of the averages behind what the file of the GPS date held, or behind the header
  -- in a new file.
  pub data_round-Reported :
      (b : Build nvs fl gfl fs) (r : Round nvs fl gfl fs) (k : ℕ) (es : List UartEvent)
      (d : Device nvs fl gfl fs)
      → All FillsBuffer es
      → d.pm.accum ≡ cleared fl
      → readings es ≢ []
      → Fits fl 0 0 0 0 (readings es)
      → d.mqtt.client_connected ≡ true
      → r.msg_id ≡ pos k
      → length (b.mqtt_pkt (reported es r d)) < 256
      → length (b.sd_pkt (time_text nvs fl gfl fs (reported es r d)) (reported es r d)) < 256
      → b.has_card_debug ≡ false
      → is_ok
          (sd_write_data fs
            (b.sd_pkt (time_text nvs fl gfl fs (reported es r d)) (reported es r d))
            (gps_date nvs fl gfl fs d.gps)
            d.log.card).0
        ≡ true
      → Reported b r
          (reported es r d)
          d
          (data_round nvs fl gfl fs b r (record d { pm = run_events fl es d.pm }))
  unfolding data_round
  data_round-Reported b r k es d w c n f on sent l1 l2 nd st =
      let (m, z) = polled_lem es r d w c n f in
      record {
        after =
            after_report b r (reported es r d)
              (record d { pm = (pms_poll fl (run_events fl es d.pm) r.old_count).1 });
        returns =
            ap
              (λ x.
                report nvs fl gfl fs b r x
                  (record d { pm = (pms_poll fl (run_events fl es d.pm) r.old_count).1 }))
              m
            ∙ report_lem b r k (reported es r d)
                (record d { pm = (pms_poll fl (run_events fl es d.pm) r.old_count).1 }) on sent l1
                l2 nd;
        published = refl;
        published_at = refl;
        reset = z;
        stored = sd_write_data-same fs prints _ (gps_date nvs fl gfl fs d.gps) d.log.card st;
      }
