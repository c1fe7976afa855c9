-- ===== src/Mqtt/Updates.antt =====
-- From a message of main/mqtt_if.c to the image that main/ota_if.c installs.
use airu_v2_fw.Base.{
  ℕ, ◌+◌, ◌<◌, ◌≤◌, ◌≡◌, ◌≢◌, true, List, length, codes, some, arith, sym, ap, ◌∙◌,
}
use airu_v2_fw.Nvs.{Nvs}
use airu_v2_fw.Server.{contains}
use airu_v2_fw.Ota.{OtaOps, HttpAnswers, Ota, esp_ok, ota_commence, update_url, ota_round}
use airu_v2_fw.Ota.Install.{Smooth, is_some, boots, ota_commence-Installs, ota_commence-restarted}
use airu_v2_fw.Ota.Writing.{received}
use airu_v2_fw.Mqtt.{Setup, Mqtt, data_arrived, mqtt_event_handler}
use airu_v2_fw.Mqtt.Commands.{mqtt_event_handler-ota_payload}
use airu_v2_fw.Mqtt.Tokens.{IsWord, ota_payload}

abbrev awaiting : List ℕ → Ota
awaiting name = record { triggered = true; ota_file_basename = name }

module _ (ops : OtaOps) where
  commence-boots :
      (name b : List ℕ) (server : List ℕ → HttpAnswers) (f : ops.Flash)
      → ops.next_update_partition f ≢ ops.boot_partition f
      → Smooth ops (server (update_url name)).body f
      → (server (update_url name)).initialised ≡ true
      → (server (update_url name)).opened ≡ esp_ok
      → 0 < length name
      → received (server (update_url name)).body ≡ some b
      → boots ops (ota_commence ops name server f).flash ≡ b
  commence-boots name b server f n s i o l r = some-inj _ _ (
      sym (
        (ota_commence-Installs ops name server f n).installed
          (ota_commence-restarted ops name server f s l i o ∙ ap is_some r))
      ∙ r)
    where
      some-inj : (x y : List ℕ) → some x ≡ some y → x ≡ y
      some-inj x y e = ground arith

  -- A message "ota <name>", where the name is a word of less than 64 bytes that contains ".bin",
  -- makes the next round of the OTA task install the whole image that the server sends: if the handler
  -- has room for the message and its topic, the server answers and sends to the end, no operation of
  -- the flash fails in this update, the partition that is written is not the one that boots, and the
  -- image that was written is not the one that runs.
  pub ota_round-ota_payload :
      {nvs : Nvs} (setup : Setup) (isp_info topic name b : List ℕ) (m n : Mqtt nvs)
      (server : List ℕ → HttpAnswers) (f : ops.Flash)
      → IsWord name
      → contains name (codes ".bin") ≡ true
      → length name < 64
      → length topic ≤ 64
      → length name + 4 < setup.buffer_size
      → ops.next_update_partition f ≢ ops.boot_partition f
      → Smooth ops (server (update_url name)).body f
      → (server (update_url name)).initialised ≡ true
      → (server (update_url name)).opened ≡ esp_ok
      → received (server (update_url name)).body ≡ some b
      → mqtt_event_handler setup isp_info (data_arrived topic (ota_payload name)) m ≡ some n
      → boots ops (ota_round ops server (n.ota, f)).1 ≡ b
  unfolding ota_round
  ota_round-ota_payload setup isp_info topic name b m n server f w i l t k d s a o r h =
      let asked : n.ota ≡ awaiting name =
        ground (arith, mqtt_event_handler-ota_payload setup isp_info topic name m w i t k) in
      rw asked (commence-boots name b server f d s a o w.some_byte r)
