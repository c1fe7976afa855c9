-- ===== src/Tests/Reporting.antt =====
-- A round of main/main.c over the states of the other runs.
use airu_v2_fw.Base.{◌<◌, ◌≡◌, true, false, ◌++◌, length, codes, refl, arith}
use airu_v2_fw.Base.Int.{pos}
use airu_v2_fw.Nvs.{is_ok}
use airu_v2_fw.Pm.{run_events}
use airu_v2_fw.Sd.{two_digits, sd_write_data}
use airu_v2_fw.Wifi.Documents.{decimal}
use airu_v2_fw.App.{Build, Device, Round, time_text, data_round}
use airu_v2_fw.App.Reports.{Reported, reported, data_round-Reported}
use airu_v2_fw.Tests.Network.{flash}
use airu_v2_fw.Tests.Sensors.{fractions, queue, quiet, queue_fills, queue-Fits, two_readings}
use airu_v2_fw.Tests.Positions.{whole, cold}
use airu_v2_fw.Tests.Card.{ram_card, quiet_log}
use airu_v2_fw.Tests.Messages.{online, setup}

abbrev build : Build flash fractions whole ram_card
build = record {
  setup = setup;
  mqtt_pkt = λ x. codes "airu PM1=5";
  sd_pkt = λ t x. t ++ codes ",5\n";
  has_card_debug = false;
}

abbrev device : Device flash fractions whole ram_card
device = record { pm = quiet; gps = cold.esp_gps; mqtt = online; log = quiet_log; last_publish = 0 }

abbrev first_round : Round flash fractions whole ram_card
first_round = record {
  uptime = 61;
  temp = (pos 20, 1);
  hum = (pos 40, 1);
  co = 300;
  nox = 200;
  old_count = 0;
  msg_id = pos 1;
  log_size = 0;
}

short_line :
    length (
      build.sd_pkt
        (time_text flash fractions whole ram_card
          (reported flash fractions whole ram_card (λ n b c. refl) queue first_round device))
        (reported flash fractions whole ram_card (λ n b c. refl) queue first_round device))
    < 256
unfolding time_text decimal two_digits
short_line = omega arith

data_round-Reported_example :
    Reported flash fractions whole ram_card
      (λ n b c. refl)
      build
      first_round
      (reported flash fractions whole ram_card (λ n b c. refl) queue first_round device)
      device
      (data_round flash fractions whole ram_card build first_round
        (record device { pm = run_events fractions queue device.pm }))
unfolding sd_write_data
data_round-Reported_example =
    data_round-Reported flash fractions whole ram_card (λ n b c. refl) build first_round 1 queue
      device queue_fills refl two_readings queue-Fits refl refl (omega arith) short_line refl
      written
  where
    written :
        is_ok
          (sd_write_data ram_card
            (build.sd_pkt
              (time_text flash fractions whole ram_card
                (reported flash fractions whole ram_card (λ n b c. refl) queue first_round device))
              (reported flash fractions whole ram_card (λ n b c. refl) queue first_round device))
            (record { year = 0; month = 0; day = 0 })
            quiet_log.card).0
        ≡ true
    written = refl
