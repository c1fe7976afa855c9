-- ===== src/Mqtt.antt =====
-- main/mqtt_if.c: the handler of the MQTT client's events, the task that connects the client, and
-- the functions that publish. The MQTT library is not part of the repository: its clients are
-- numbers, and its calls are logged. The texts of the build's configuration are parameters.
pub mod Tokens
pub mod Commands
pub mod Clients
pub mod Provider
pub mod Updates
use airu_v2_fw.Base.{
  ℕ, ◌+◌, Bool, true, false, List, [], ◌∷◌, ◌++◌, length, codes, ltb, ◌==◌, if◌then◌else◌, Option,
  none, some,
}
use airu_v2_fw.Base.Bytes.{c_string, equal}
use airu_v2_fw.Base.Int.{ℤ, pos, negsuc}
use airu_v2_fw.Nvs.{Nvs}
use airu_v2_fw.Wifi.{World}
use airu_v2_fw.Wifi.Handlers.{check_connection_async}
use airu_v2_fw.Ota.{Ota, ota_trigger, ota_set_filename}
use airu_v2_fw.Server.{contains}

-- `client`: `NULL`, a client, or a client that was destroyed and is still pointed to.
pub data Client : Type 0 where
  null : Client
  live : ℕ → Client
  destroyed : ℕ → Client

-- Calls of the MQTT library.
pub data MqttCall : Type 0 where
  subscribe : (topic : List ℕ) → MqttCall
  publish : Client → (topic message : List ℕ) → MqttCall
  destroy : Client → MqttCall

-- What `mqtt_task` waits for.
pub data Waiting : Type 0 where
  internet disconnect : Waiting

-- `esp_mqtt_event_t`, with the events that the handler only logs as `logged`.
pub data MqttEvent : Type 0 where
  connected disconnected logged error : MqttEvent
  data_arrived : (topic payload : List ℕ) → MqttEvent

-- `CONFIG_MQTT_ROOT_TOPIC`, the two topics below it, `DEVICE_MAC` and `MQTT_BUFFER_SIZE_BYTE`
pub record Setup : Type 0 where
  pub root_topic : List ℕ
  pub all_topic : List ℕ
  pub data_topic : List ℕ
  pub device_mac : List ℕ
  pub buffer_size : ℕ

-- `strtok` with the delimiter " ": the next token and what follows it.
pub skip_spaces : List ℕ → List ℕ
skip_spaces [] = []
skip_spaces (c ∷ cs) = let rest = skip_spaces cs in if c == b' ' then rest else c ∷ cs

pub split_space : List ℕ → List ℕ × List ℕ
split_space [] = ([], [])
split_space (c ∷ cs) = let r = split_space cs in if c == b' ' then ([], cs) else (c ∷ r.0, r.1)

unfoldable pub strtok : List ℕ → Option (List ℕ × List ℕ)
unfolding skip_spaces split_space
strtok text =
    let rest = skip_spaces text in if length rest == 0 then none else some (split_space rest)

-- `MQTT_ACK_TOPIC_TMPLT`, `CONFIG_MQTT_ROOT_TOPIC "/…"`
abbrev pub below : Setup → List ℕ → List ℕ
below setup name = setup.root_topic ++ (b'/' ∷ name)

unfoldable pub ack_topic : Setup → List ℕ
ack_topic setup = setup.root_topic ++ (codes "/ack/" ++ setup.device_mac)

abbrev pub esp_fail : ℤ
esp_fail = negsuc 0

-- `esp_mqtt_client_destroy(client)` leaves the pointer as it is.
abbrev pub destroyed_client : Client → Client
destroyed_client null = null
destroyed_client (live n) = destroyed n
destroyed_client (destroyed n) = destroyed n

module _ (nvs : Nvs) where
  -- The module's variables, and what its functions reach in other modules.
  pub record Mqtt : Type 0 where
    pub client_connected : Bool
    pub client : Client
    pub clients : ℕ  -- how many were made
    pub waiting : Waiting
    pub calls : List MqttCall  -- newest first
    pub ota : Ota
    pub wifi : World nvs

module _ {nvs : Nvs} where
  abbrev pub log_call : MqttCall → Mqtt nvs → Mqtt nvs
  log_call c m = record m { calls = c ∷ m.calls }

  -- `MQTT_Publish_General`, at the quality of service 2, with the message id that the library gives
  unfoldable pub mqtt_publish_general :
      (msg_id : ℤ) (topic message : List ℕ) → Mqtt nvs → ℤ × Mqtt nvs
  mqtt_publish_general msg_id topic message m =
      if m.client_connected
      then (msg_id, log_call (publish m.client topic message) m)
      else (esp_fail, m)

  -- `MQTT_Publish_Data`
  unfoldable pub mqtt_publish_data : Setup → (msg_id : ℤ) → List ℕ → Mqtt nvs → ℤ × Mqtt nvs
  unfolding mqtt_publish_general
  mqtt_publish_data setup msg_id message m =
      mqtt_publish_general msg_id (below setup setup.data_topic) message m

  -- A publication of the handler, which ignores the message id.
  unfoldable pub answer : Setup → List ℕ → Mqtt nvs → Mqtt nvs
  unfolding mqtt_publish_general
  answer setup message m = (mqtt_publish_general (pos 0) (ack_topic setup) message m).1

  -- A command "ota", with the rest of the payload.
  unfoldable pub command_ota : Setup → List ℕ → Mqtt nvs → Option (Mqtt nvs)
  unfolding strtok answer
  command_ota setup rest m = elim (strtok rest) [
    | none ↦ some m
    | some (name, _) ↦
        if contains name (codes ".bin")
        then (let told = answer setup (codes "ota") m in
            elim (ota_set_filename name told.ota) [
              | none ↦ none
              | some o ↦ some (record told { ota = ota_trigger o })
            ])
        else some m
  ]

  -- What is done with a payload.
  unfoldable pub command : Setup → List ℕ → Mqtt nvs → Option (Mqtt nvs)
  unfolding strtok answer command_ota
  command setup payload m = elim (strtok payload) [
    | none ↦ some m
    | some (tok, rest) ↦
        if equal tok (codes "ota")
        then command_ota setup rest m
        else if equal tok (codes "ping")
        then some (answer setup (codes "pong") m)
        else some m
  ]

  -- `mqtt_event_handler`, with the text that `http_get_isp_info` leaves in its buffer. `none` is
  -- undefined behaviour: a topic, a payload or a file name that is longer than its array.
  unfoldable pub mqtt_event_handler :
      Setup → (isp_info : List ℕ) → MqttEvent → Mqtt nvs → Option (Mqtt nvs)
  unfolding answer command
  mqtt_event_handler setup isp_info connected m = some (
      answer setup isp_info (
        log_call (subscribe (below setup setup.device_mac)) (
          log_call (subscribe (below setup setup.all_topic))
            (record m { client_connected = true }))))
  mqtt_event_handler setup isp_info disconnected m =
      some
        (record (log_call (destroy m.client)
          (record m { client_connected = false; wifi = check_connection_async m.wifi })) {
            client = destroyed_client m.client;
          })
  mqtt_event_handler setup isp_info logged m = some m
  mqtt_event_handler setup isp_info error m =
      some (record m { wifi = check_connection_async m.wifi })
  mqtt_event_handler setup isp_info (data_arrived topic payload) m =
      if ltb 64 (length topic)
      then none
      else if ltb (length payload) setup.buffer_size
      then command setup (c_string payload) m
      else none

  -- `MQTT_Connect`
  unfoldable pub mqtt_connect : Mqtt nvs → Mqtt nvs
  mqtt_connect m = record m {
    client = live m.clients;
    clients = m.clients + 1;
    client_connected = false;
  }

  -- `mqtt_task`, from one wait to the next; it stays where it is while the bit is not set.
  unfoldable pub mqtt_task_step : Mqtt nvs → Mqtt nvs
  unfolding mqtt_connect
  mqtt_task_step m = elim m.waiting [
    | internet ↦
        if m.wifi.bits.have_internet then mqtt_connect (record m { waiting = disconnect }) else m
    | disconnect ↦ if m.wifi.bits.sta_disconnect then record m { waiting = internet } else m
  ]
