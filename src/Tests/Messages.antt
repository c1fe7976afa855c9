-- ===== src/Tests/Messages.antt =====
-- Runs of main/mqtt_if.c.
use airu_v2_fw.Base.{
  ◌⊎◌, length, none, some, ℕ, ◌≡◌, true, false, List, [], ◌∷◌, codes, if◌then◌else◌, refl, arith,
  ltb,
}
use airu_v2_fw.Server.{contains, strstr}
use airu_v2_fw.Mqtt.{
  subscribe, publish, destroy, destroyed, mqtt_publish_data, below, mqtt_connect, Setup, Mqtt, null,
  live, internet, disconnect, MqttEvent, connected, disconnected, data_arrived, mqtt_event_handler,
  mqtt_task_step, mqtt_publish_general, answer, ack_topic,
}
use airu_v2_fw.Mqtt.Commands.{
  mqtt_event_handler-ota_payload, Asked, update_asked, mqtt_event_handler-ota_payload,
  mqtt_event_handler-Asked,
}
use airu_v2_fw.Mqtt.Tokens.{IsWord, ota_payload}
use airu_v2_fw.Mqtt.Clients.{
  AllSafe, event, task, caller, Reachable, start, next, Reachable-AllSafe,
}
use airu_v2_fw.Ota.Install.{Smooth}
use airu_v2_fw.Mqtt.Updates.{ota_round-ota_payload}
use airu_v2_fw.Wifi.Handlers.{check_connection_async}
use airu_v2_fw.Tests.Network.{flash}
use airu_v2_fw.Tests.Rounds.{idle}
use airu_v2_fw.Tests.Updates.{two_slots, factory, image_server, one_name}
use airu_v2_fw.Base.Int.{pos}
use airu_v2_fw.Ota.{ota_round}
use airu_v2_fw.Ota.Install.{boots}
use airu_v2_fw.Ota.Writing.{received}

abbrev pub setup : Setup
setup = record {
  root_topic = codes "airu";
  all_topic = codes "all";
  data_topic = codes "data";
  device_mac = codes "A1B2C3D4E5F6";
  buffer_size = 1024;
}

-- The module before the first connection, with a WiFi manager that has internet.
abbrev pub fresh : Mqtt flash
fresh = record {
  client_connected = false;
  client = null;
  clients = 0;
  waiting = internet;
  calls = [];
  ota = record { triggered = false; ota_file_basename = [] };
  wifi = record idle { bits = record idle.bits { have_internet = true } };
}

one_name-IsWord : IsWord one_name
unfolding one_name
one_name-IsWord = record { some_byte = omega arith; bytes = omega arith }

one_name-contains : contains one_name (codes ".bin") ≡ true
unfolding one_name strstr
one_name-contains = refl

one_name-length : length one_name ≡ 5
unfolding one_name
one_name-length = refl

topic : List ℕ
topic = codes "airu/all"

topic-length : length topic ≡ 8
unfolding topic
topic-length = refl

abbrev update_message : MqttEvent
update_message = data_arrived topic (ota_payload one_name)

update_message-answered :
    mqtt_event_handler setup [] update_message fresh
    ≡ (if ltb (length one_name) 64 then some (update_asked setup one_name fresh) else none)
update_message-answered =
    mqtt_event_handler-ota_payload setup [] topic one_name fresh one_name-IsWord one_name-contains
      (omega (arith, topic-length)) (omega (arith, one_name-length))

update_message-handled :
    mqtt_event_handler setup [] update_message fresh ≡ some (update_asked setup one_name fresh)
update_message-handled = ground (arith, update_message-answered, one_name-length)

mqtt_event_handler-Asked_example :
    ((update_asked setup one_name fresh).ota ≡ fresh.ota)
    ⊎ Asked update_message (update_asked setup one_name fresh).ota
mqtt_event_handler-Asked_example =
    mqtt_event_handler-Asked setup [] update_message fresh (update_asked setup one_name fresh)
      update_message-handled

downloaded : received image_server.body ≡ some (5 ∷ 6 ∷ 7 ∷ [])
unfolding received
downloaded = refl

two_slots-Smooth : Smooth two_slots image_server.body factory
two_slots-Smooth = record {
  begins = refl;
  writes = (refl, (refl, tt));
  ends = refl;
  differs = refl;
  sets = refl;
}

ota_round-ota_payload_example :
    boots two_slots
      (ota_round two_slots (λ _. image_server) ((update_asked setup one_name fresh).ota, factory)).1
    ≡ 5 ∷ 6 ∷ 7 ∷ []
ota_round-ota_payload_example =
    ota_round-ota_payload two_slots setup [] topic one_name (5 ∷ 6 ∷ 7 ∷ []) fresh
      (update_asked setup one_name fresh) (λ _. image_server) factory one_name-IsWord
      one_name-contains (omega (arith, one_name-length)) (omega (arith, topic-length))
      (omega (arith, one_name-length)) (omega arith) two_slots-Smooth refl refl downloaded
      update_message-handled

-- The task connects, the broker answers, a caller publishes, the connection is lost.
abbrev pub connecting : Mqtt flash
connecting = record fresh { waiting = disconnect; client = live 0; clients = 1 }

abbrev pub online : Mqtt flash
online = record connecting {
  client_connected = true;
  calls =
      publish (live 0) (ack_topic setup) []
      ∷ subscribe (below setup setup.device_mac)
      ∷ subscribe (below setup setup.all_topic)
      ∷ [];
}

abbrev reported : Mqtt flash
reported = (mqtt_publish_data setup (pos 7) (codes "pm=3") online).1

abbrev after_loss : Mqtt flash
after_loss = record reported {
  client_connected = false;
  wifi = check_connection_async reported.wifi;
  client = destroyed 0;
  calls = destroy (live 0) ∷ reported.calls;
}

run : Reachable setup fresh after_loss
unfolding mqtt_task_step mqtt_connect mqtt_event_handler mqtt_publish_data mqtt_publish_general
    answer
run =
    next reported after_loss
      (next online reported
        (next connecting online (next fresh connecting start task)
          (event [] connected online refl refl))
        (caller (pos 7) (codes "pm=3")))
      (event [] disconnected after_loss refl refl)

Reachable-AllSafe_example : AllSafe after_loss.calls
Reachable-AllSafe_example = Reachable-AllSafe setup fresh after_loss refl refl run
