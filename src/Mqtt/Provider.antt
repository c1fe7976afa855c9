-- ===== src/Mqtt/Provider.antt =====
-- main/mqtt_if.c and main/http_server_if.c: the message about the internet provider that the handler
-- publishes when the client is connected.
use airu_v2_fw.Base.{ℕ, ◌≤◌, ◌≡◌, true, List, [], ◌∷◌, ◌++◌, Option, some, length, All, arith, refl}
use airu_v2_fw.Base.Bytes.{c_string}
use airu_v2_fw.Base.Memory.{◌>>=◌, store}
use airu_v2_fw.Json.Buffer.{NoNul}
use airu_v2_fw.Nvs.{Nvs}
use airu_v2_fw.Server.Isp.{Session, answered, http_get_isp_info}
use airu_v2_fw.Server.Reads.{joined, IsRead, NoBrace}
use airu_v2_fw.Server.Stamps.{provider_text}
use airu_v2_fw.Server.Provider.{whole, http_get_isp_info-Provides}
use airu_v2_fw.Mqtt.{
  Mqtt, Setup, connected, publish, subscribe, below, ack_topic, mqtt_publish_general, answer,
  mqtt_event_handler,
}

-- The event of a connection, over the 512 bytes that `malloc` gives.
unfoldable pub connected_event :
    {nvs : Nvs} → Setup → (now : ℕ) → Session → (array : List ℕ) → Mqtt nvs → Option (Mqtt nvs)
connected_event setup now session array m = store array 0 0 >>= λ b.
    http_get_isp_info now 512 session b >>= λ r.
    mqtt_event_handler setup (c_string r.json_buf) connected m

store_first :
    (m : List ℕ) → length m ≡ 512 → (b : List ℕ) × (store m 0 0 ≡ some b) × (length b ≡ 512)
unfolding store
store_first [] e = absurd (omega arith)
store_first (x ∷ m) e = (0 ∷ m, refl, e)

connected-publish :
    {nvs : Nvs} (setup : Setup) (text : List ℕ) (m : Mqtt nvs)
    → mqtt_event_handler setup text connected m
      ≡ some (record m {
        client_connected = true;
        calls =
            publish m.client (ack_topic setup) text
            ∷ subscribe (below setup setup.device_mac)
            ∷ subscribe (below setup setup.all_topic)
            ∷ m.calls;
      })
unfolding mqtt_event_handler answer mqtt_publish_general
connected-publish setup text m = refl

-- When the client is connected, `malloc` gives an array of 512 bytes, and the provider answers in
-- reads that are not empty, with a document without NUL from the first brace on, which stands behind
-- 99 bytes or more: the handler subscribes to both topics and then publishes on the acknowledgement
-- topic the document with the time in place of its last byte, or as much of it as fits in 512 bytes.
pub connected_event-provider_text :
    {nvs : Nvs} (setup : Setup) (now : ℕ) (reads : List (List ℕ)) (head d : List ℕ) (z : ℕ)
    (array : List ℕ) (m : Mqtt nvs)
    → All IsRead reads
    → joined reads ≡ head ++ whole d z
    → 99 ≤ length head
    → NoBrace head
    → NoNul (whole d z)
    → length array ≡ 512
    → connected_event setup now (answered reads) array m
      ≡ some (record m {
        client_connected = true;
        calls =
            publish m.client (ack_topic setup) (provider_text now 512 (b'{' ∷ d) z)
            ∷ subscribe (below setup setup.device_mac)
            ∷ subscribe (below setup setup.all_topic)
            ∷ m.calls;
      })
unfolding connected_event
connected_event-provider_text setup now reads head d z array m r e l b h k =
    let (start, s, n) = store_first array k in
    let p = http_get_isp_info-Provides now 512 reads head d z start r e l b h (omega arith) n in
    rw (s, ◌>>=◌, p.returns, p.same_text)
      (connected-publish setup (provider_text now 512 (b'{' ∷ d) z) m)
