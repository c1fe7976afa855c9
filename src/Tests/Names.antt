-- ===== src/Tests/Names.antt =====
-- The texts that main/ota_if.c, main/mqtt_if.c and main/sd_if.c make of their names, and two runs of
-- arithmetic of main/pm_if.c and main/gps_if.c.
use airu_v2_fw.Base.{◌+◌, ◌≡◌, length, replicate, codes, refl}
use airu_v2_fw.Base.Int.{pos}
use airu_v2_fw.Ota.{update_url}
use airu_v2_fw.Mqtt.{ack_topic}
use airu_v2_fw.Sd.{sd_hdr, two_digits}
use airu_v2_fw.Sd.Logging.{log_file_name, most_recent_name, numbered_name}
use airu_v2_fw.Pm.{get_data_from_packet}
use airu_v2_fw.Gps.{to_degrees}
use airu_v2_fw.Tests.Messages.{setup}
use airu_v2_fw.Tests.Sensors.{fractions, quiet}
use airu_v2_fw.Tests.Positions.{whole}

update_url_text :
    update_url (codes "a.bin") ≡ codes "http://air.eng.utah.edu:80/files/updates/a.bin"
unfolding update_url
update_url_text = refl

ack_topic_text : ack_topic setup ≡ codes "airu/ack/A1B2C3D4E5F6"
unfolding ack_topic
ack_topic_text = refl

length-sd_hdr : length sd_hdr ≡ 94
unfolding sd_hdr
length-sd_hdr = refl

first_number : numbered_name 0 ≡ codes "/sdcard/LOGGING-00.log"
unfolding numbered_name two_digits
first_number = refl

log_lengths : length most_recent_name ≡ length log_file_name + 1
unfolding most_recent_name log_file_name
log_lengths = refl

-- The high byte 1 counts as 2, not as 256.
packet_data : (get_data_from_packet fractions quiet (replicate 10 1)).1.accum.pm1 ≡ (pos 3, 1)
unfolding get_data_from_packet
packet_data = refl

forty_degrees : to_degrees whole (pos 40) (pos 30) ≡ 4000
unfolding to_degrees
forty_degrees = refl
