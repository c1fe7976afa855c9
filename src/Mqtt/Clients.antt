-- ===== src/Mqtt/Clients.antt =====
-- The clients that main/mqtt_if.c uses, over the runs of its handler, its task and its callers.
use airu_v2_fw.Base.{
  ℕ, ◌≡◌, Bool, true, false, List, [], All, codes, arith, Option-cases, subst, sym, inl, inr, some,
}
use airu_v2_fw.Base.Int.{ℤ, pos}
use airu_v2_fw.Base.Bytes.{c_string}
use airu_v2_fw.Nvs.{Nvs}
use airu_v2_fw.Ota.{Ota}
use airu_v2_fw.Wifi.{World}
use airu_v2_fw.Mqtt.{
  ack_topic, strtok, Client, null, live, destroyed, MqttCall, subscribe, publish, destroy, Setup,
  MqttEvent, connected, disconnected, logged, error, data_arrived, Mqtt, answer, command,
  command_ota, mqtt_event_handler, mqtt_publish_general, mqtt_publish_data, mqtt_connect,
  mqtt_task_step,
}

abbrev pub is_live : Client → Bool
is_live (live _) = true
is_live null = false
is_live (destroyed _) = false

-- A call of the library on a client that there is.
abbrev pub is_safe : MqttCall → Bool
is_safe (subscribe _) = true
is_safe (publish c _ _) = is_live c
is_safe (destroy c) = is_live c

abbrev pub AllSafe : List MqttCall → Type 0
AllSafe cs = All (λ c. is_safe c ≡ true) cs

module _ {nvs : Nvs} where
  -- One step: an event of the client in use; the task; a caller that publishes; and what other
  -- modules do to the WiFi manager and the OTA task.
  pub data Step (setup : Setup) (m : Mqtt nvs) : Mqtt nvs → Type 0 where
    event :
        (isp_info : List ℕ) (e : MqttEvent) (n : Mqtt nvs)
        → is_live m.client ≡ true
        → mqtt_event_handler setup isp_info e m ≡ some n
        → Step setup m n
    task : Step setup m (mqtt_task_step m)
    caller : (msg_id : ℤ) (text : List ℕ) → Step setup m (mqtt_publish_data setup msg_id text m).1
    others : (w : World nvs) (o : Ota) → Step setup m (record m { wifi = w; ota = o })

  pub data Reachable (setup : Setup) (m : Mqtt nvs) : Mqtt nvs → Type 0 where
    start : Reachable setup m m
    next : (n k : Mqtt nvs) → Reachable setup m n → Step setup n k → Reachable setup m k

  -- While publications are let through, there is a client; every call had one.
  pub record Connects (m : Mqtt nvs) : Type 0 where
    pub has_client : m.client_connected ≡ true → is_live m.client ≡ true
    pub safe : AllSafe m.calls

  publish-Connects :
      (msg_id : ℤ) (topic text : List ℕ) (m : Mqtt nvs)
      → Connects m
      → Connects (mqtt_publish_general msg_id topic text m).1
  unfolding mqtt_publish_general
  publish-Connects msg_id topic text m h = ground (arith, h.has_client, h.safe)

  command_ota-Connects :
      (setup : Setup) (rest : List ℕ) (m n : Mqtt nvs)
      → Connects m
      → command_ota setup rest m ≡ some n
      → Connects n
  unfolding command_ota answer
  command_ota-Connects setup rest m n h e =
      ground (arith, publish-Connects (pos 0) (ack_topic setup) (codes "ota") m h)

  command-Connects :
      (setup : Setup) (text : List ℕ) (m n : Mqtt nvs)
      → Connects m
      → command setup text m ≡ some n
      → Connects n
  unfolding command answer
  command-Connects setup text m n h e = elim (Option-cases (strtok text)) [
    | inl t ↦ ground arith
    | inr (t, q) ↦ ground (
      arith,
      publish-Connects (pos 0) (ack_topic setup) (codes "pong") m h,
      command_ota-Connects setup t.1 m n h,
    )
  ]

  event-Connects :
      (setup : Setup) (isp_info : List ℕ) (e : MqttEvent) (m n : Mqtt nvs)
      → Connects m
      → is_live m.client ≡ true
      → mqtt_event_handler setup isp_info e m ≡ some n
      → Connects n
  unfolding mqtt_event_handler answer mqtt_publish_general
  event-Connects setup isp_info connected m n h l e = ground (arith, l, h.safe)
  event-Connects setup isp_info disconnected m n h l e = ground (arith, h.safe)
  event-Connects setup isp_info logged m n h l e = ground arith
  event-Connects setup isp_info error m n h l e = ground (arith, h.safe, h.has_client)
  event-Connects setup isp_info (data_arrived topic payload) m n h l e =
      command-Connects setup (c_string payload) m n h (ground arith)

  Step-Connects : (setup : Setup) (m n : Mqtt nvs) → Connects m → Step setup m n → Connects n
  unfolding mqtt_publish_data mqtt_task_step mqtt_connect
  Step-Connects setup m n h (event isp_info e _ l q) = event-Connects setup isp_info e m n h l q
  Step-Connects setup m _ h task = ground (arith, h.safe, h.has_client)
  Step-Connects setup m _ h (caller msg_id text) = publish-Connects msg_id _ text m h
  Step-Connects setup m _ h (others w o) = record { has_client = h.has_client; safe = h.safe }

  -- From a state with no client and no calls, no run publishes to, or destroys, a client that is
  -- not there, if every event comes from the client that is in use.
  pub Reachable-AllSafe :
      (setup : Setup) (m n : Mqtt nvs)
      → m.client_connected ≡ false
      → m.calls ≡ []
      → Reachable setup m n
      → AllSafe n.calls
  Reachable-AllSafe setup m n c k r = (go r).safe
    where
      go : {x : Mqtt nvs} → Reachable setup m x → Connects x
      go start = record { has_client = λ e. cc; safe = subst AllSafe (sym k) tt }
      go (next x y r s) = Step-Connects setup x y (go r) s
