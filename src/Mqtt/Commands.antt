-- ===== src/Mqtt/Commands.antt =====
-- The commands that main/mqtt_if.c takes from a payload.
use airu_v2_fw.Base.{
  ℕ, ◌+◌, ◌<◌, ◌≤◌, ◌≡◌, true, List, length, codes, ltb, if◌then◌else◌, none, some, arith, refl, ap,
  ◌∙◌, Bool-cases, Option-cases, inl, inr, ◌⊎◌,
}
use airu_v2_fw.Base.Bytes.{c_string, equal, equal_refl, equal_iff}
use airu_v2_fw.Nvs.{Nvs}
use airu_v2_fw.Ota.{Ota, ota_set_filename, ota_trigger}
use airu_v2_fw.Server.{contains}
use airu_v2_fw.Mqtt.{
  strtok, Setup, MqttEvent, connected, disconnected, logged, error, data_arrived, Mqtt, answer,
  command, command_ota, mqtt_event_handler, mqtt_publish_general,
}
use airu_v2_fw.Mqtt.Tokens.{
  IsWord, length-c_string, ota-IsWord, ota_payload, ota_payload-c_string, strtok-Within,
  strtok-append, strtok-word,
}

-- A message that asks for an update, and what is left in the OTA task's variables.
pub record Asked (e : MqttEvent) (o : Ota) : Type 0 where
  pub topic : List ℕ
  pub payload : List ℕ
  pub rest : List ℕ
  pub name : List ℕ
  pub unread : List ℕ
  pub is_data : e ≡ data_arrived topic payload
  pub first_token : strtok (c_string payload) ≡ some (codes "ota", rest)
  pub second_token : strtok rest ≡ some (name, unread)
  pub is_image : contains name (codes ".bin") ≡ true
  pub sets : o ≡ record { triggered = true; ota_file_basename = name }

module _ {nvs : Nvs} where
  -- What the command "ota" does with a name that has room.
  abbrev pub update_asked : Setup → List ℕ → Mqtt nvs → Mqtt nvs
  update_asked setup name m = record (answer setup (codes "ota") m) {
    ota = record { triggered = true; ota_file_basename = name };
  }

  command-ota_payload :
      (setup : Setup) (name : List ℕ) (m : Mqtt nvs)
      → IsWord name
      → contains name (codes ".bin") ≡ true
      → command setup (ota_payload name) m
        ≡ (if ltb (length name) 64 then some (update_asked setup name m) else none)
  unfolding command command_ota ota_set_filename ota_trigger answer mqtt_publish_general
  command-ota_payload setup name m h b = ground (
    arith,
    strtok-append (codes "ota") name ota-IsWord,
    equal_refl (codes "ota"),
    strtok-word name h,
    b,
  )

  -- A message "ota <name>", where the name is a word that contains ".bin", tells so on the
  -- acknowledgement topic, sets the file name and triggers the update, if the name is shorter than
  -- 64 bytes; a longer one is undefined behaviour.
  pub mqtt_event_handler-ota_payload :
      (setup : Setup) (isp_info topic name : List ℕ) (m : Mqtt nvs)
      → IsWord name
      → contains name (codes ".bin") ≡ true
      → length topic ≤ 64
      → length name + 4 < setup.buffer_size
      → mqtt_event_handler setup isp_info (data_arrived topic (ota_payload name)) m
        ≡ (if ltb (length name) 64 then some (update_asked setup name m) else none)
  unfolding mqtt_event_handler
  mqtt_event_handler-ota_payload setup isp_info topic name m h b t l = ground (
    arith,
    ap (λ x. command setup x m) (ota_payload-c_string name h),
    command-ota_payload setup name m h b,
  )

  answer-ota : (setup : Setup) (t : List ℕ) (m : Mqtt nvs) → (answer setup t m).ota ≡ m.ota
  unfolding answer mqtt_publish_general
  answer-ota setup t m = ground arith

  command_ota-Asked :
      (setup : Setup) (topic payload rest : List ℕ) (m n : Mqtt nvs)
      → strtok (c_string payload) ≡ some (codes "ota", rest)
      → command_ota setup rest m ≡ some n
      → (n.ota ≡ m.ota) ⊎ Asked (data_arrived topic payload) n.ota
  unfolding command_ota ota_set_filename ota_trigger
  command_ota-Asked setup topic payload rest m n f h = elim (Option-cases (strtok rest)) [
    | inl e ↦ inl (ground arith)
    | inr (t, e) ↦ elim (Bool-cases (contains t.0 (codes ".bin"))) [
      | inr b ↦ inl (ground arith)
      | inl b ↦ elim (Bool-cases (ltb (length t.0) 64)) [
        | inr l ↦ absurd (ground (arith))
        | inl l ↦ inr (record {
          topic = topic;
          payload = payload;
          rest = rest;
          name = t.0;
          unread = t.1;
          is_data = refl;
          first_token = f;
          second_token = e;
          is_image = b;
          sets = ground arith;
        })
      ]
    ]
  ]

  command-Asked :
      (setup : Setup) (topic payload : List ℕ) (m n : Mqtt nvs)
      → command setup (c_string payload) m ≡ some n
      → (n.ota ≡ m.ota) ⊎ Asked (data_arrived topic payload) n.ota
  unfolding command
  command-Asked setup topic payload m n h = elim (Option-cases (strtok (c_string payload))) [
    | inl e ↦ inl (ground arith)
    | inr (t, e) ↦ elim (Bool-cases (equal t.0 (codes "ota"))) [
      | inl o ↦
          command_ota-Asked setup topic payload t.1 m n
            (e ∙ ap (λ (x : List ℕ). some (x, t.1)) ((equal_iff t.0 (codes "ota")).0 o))
            (ground arith)
      | inr o ↦ elim (Bool-cases (equal t.0 (codes "ping"))) [
        | inl p ↦ inl (ground (arith, answer-ota setup (codes "pong") m))
        | inr p ↦ inl (ground arith)
      ]
    ]
  ]

  -- Where the handler stays in its arrays, it changes what the OTA task reads only for a message whose
  -- first word is "ota" and whose second word contains ".bin", and then the file name is that word and
  -- the update is triggered.
  pub mqtt_event_handler-Asked :
      (setup : Setup) (isp_info : List ℕ) (e : MqttEvent) (m n : Mqtt nvs)
      → mqtt_event_handler setup isp_info e m ≡ some n
      → (n.ota ≡ m.ota) ⊎ Asked e n.ota
  unfolding mqtt_event_handler
  mqtt_event_handler-Asked setup isp_info connected m n h =
      inl (ground (arith, answer-ota setup isp_info))
  mqtt_event_handler-Asked setup isp_info disconnected m n h = inl (ground arith)
  mqtt_event_handler-Asked setup isp_info logged m n h = inl (ground arith)
  mqtt_event_handler-Asked setup isp_info error m n h = inl (ground arith)
  mqtt_event_handler-Asked setup isp_info (data_arrived topic payload) m n h =
      command-Asked setup topic payload m n (ground arith)

  command_ota-defined :
      (setup : Setup) (rest : List ℕ) (m : Mqtt nvs)
      → length rest < 64
      → (n : Mqtt nvs) × (command_ota setup rest m ≡ some n)
  unfolding command_ota ota_set_filename ota_trigger
  command_ota-defined setup rest m h = elim (Option-cases (strtok rest)) [
    | inl e ↦ (m, ground arith)
    | inr (t, e) ↦ elim (Bool-cases (contains t.0 (codes ".bin"))) [
      | inr b ↦ (m, ground arith)
      | inl b ↦ (
        record (answer setup (codes "ota") m) {
          ota = record { triggered = true; ota_file_basename = t.0 };
        },
        ground (arith, strtok-Within rest, answer-ota setup (codes "ota") m),
      )
    ]
  ]

  command-defined :
      (setup : Setup) (text : List ℕ) (m : Mqtt nvs)
      → length text < 68
      → (n : Mqtt nvs) × (command setup text m ≡ some n)
  unfolding command
  command-defined setup text m h = elim (Option-cases (strtok text)) [
    | inl e ↦ (m, ground arith)
    | inr (t, e) ↦ elim (Bool-cases (equal t.0 (codes "ota"))) [
      | inl o ↦
          let (n, d) = command_ota-defined setup t.1 m (
            ground (
              arith,
              strtok-Within text,
              ap (length {A = ℕ}) ((equal_iff t.0 (codes "ota")).0 o),
            )) in
          (n, ground (arith, d))
      | inr o ↦ elim (Bool-cases (equal t.0 (codes "ping"))) [
        | inl p ↦ (answer setup (codes "pong") m, ground arith)
        | inr p ↦ (m, ground arith)
      ]
    ]
  ]

  -- No message of at most 67 bytes, on a topic of at most 64 bytes, takes the handler out of its
  -- arrays, if the payload has room.
  pub mqtt_event_handler-defined :
      (setup : Setup) (isp_info topic payload : List ℕ) (m : Mqtt nvs)
      → length topic ≤ 64
      → length payload < 68
      → length payload < setup.buffer_size
      → (n : Mqtt nvs) × (mqtt_event_handler setup isp_info (data_arrived topic payload) m ≡ some n)
  unfolding mqtt_event_handler
  mqtt_event_handler-defined setup isp_info topic payload m t l b =
      let (n, d) =
        command-defined setup (c_string payload) m (omega (arith, length-c_string payload)) in
      (n, ground (arith, d))
