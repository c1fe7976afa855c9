-- ===== src/Wifi/Flash.antt =====
-- main/wifi_manager.c: when the WiFi manager writes to flash, and what the next start finds there.
use airu_v2_fw.Base.{ℕ, true, false, List, some, ◌≡◌, ◌⊎◌, refl, ap, ◌∙◌, inl, inr, arith, length}
use airu_v2_fw.Base.Int.{ℤ, pos}
use airu_v2_fw.Nvs.{Nvs}
use airu_v2_fw.Wifi.{
  led_disconnected, Bits, StaConfig, World, Place, Caller, connect_branch, ping_branch, top,
  leaving, dropping, connecting, pinging,
}
use airu_v2_fw.Wifi.Config.{erased, save_sta_config, fetch-save}
use airu_v2_fw.Wifi.Handlers.{call, connect_async, status_update}
use airu_v2_fw.Wifi.Manager.{
  offline, save_connection, err_wifi_disconected, ret_of, start_timer, Env, stepped, main_step,
  started, dispatch, finish_round, leave_network, start_connection, scan, check_connection,
  check_waited, check_finished, connect_finished, ping_finished, reconnect, ping_test,
  connection_made, connection_failed, connect_waited, forget_network, start_round, erase, has_name,
}
use airu_v2_fw.Wifi.Registration.{RegInfo}
use airu_v2_fw.Wifi.Steps.{Step, task_or_Outside, Reachable, saved_registration}
use airu_v2_fw.Wifi.Safety.{is_serving, Reachable-serving}

module _ {nvs : Nvs} (settings_size : ℕ) (e : Env) where
  check_finished-store :
      (c : Caller) (ret : ℤ) (w w' : World nvs)
      → check_finished settings_size e c ret w ≡ stepped w'
      → w'.store ≡ w.store
  unfolding check_finished connect_finished ping_finished reconnect finish_round connect_async
  check_finished-store connect_branch ret w w' h = ground arith
  check_finished-store ping_branch ret w w' h = ground arith

  check_connection-store :
      (c : Caller) (w w' : World nvs)
      → check_connection settings_size e c w ≡ stepped w'
      → w'.store ≡ w.store
  unfolding check_connection ping_test
  check_connection-store c w w' h = ground (arith, check_finished-store c err_wifi_disconected w w')

  dispatch-store :
      (ux : Bits) (w w' : World nvs)
      → dispatch settings_size e ux w ≡ stepped w'
      → w'.store ≡ w.store
  unfolding dispatch scan start_connection leave_network finish_round
  dispatch-store ux w w' h = ground (arith, check_connection-store ping_branch w w')

  connection_made-store :
      (w w' : World nvs)
      → connection_made settings_size e w ≡ stepped w'
      → w'.store ≡ (save_sta_config nvs settings_size w.config w.settings w.store).1
  unfolding connection_made save_connection status_update
  connection_made-store w w' h =
      check_connection-store connect_branch (save_connection settings_size e w) w' h

  -- A step of the task writes nothing, or a connection that was made, or a cleared configuration.
  main_step-store :
      (p : Place) (w w' : World nvs)
      → w.place ≡ p
      → is_serving p w.bits ≡ true
      → main_step settings_size e w ≡ stepped w'
      → (w'.store ≡ w.store)
        ⊎ ((w.place ≡ connecting)
            × (w.bits.wifi_connected ≡ true)
            × (w'.store ≡ (save_sta_config nvs settings_size w.config w.settings w.store).1))
        ⊎ ((w.bits.request_wifi_disconnect ≡ true)
            × (w'.store
                ≡ (save_sta_config nvs settings_size (erase w.config) w.settings w.store).1))
  unfolding main_step is_serving start_round start_connection forget_network status_update
      leave_network connect_waited connection_failed check_waited finish_round
  main_step-store top w w' pl s h = ground (
    arith,
    dispatch-store w.bits w w',
    dispatch-store w.bits (forget_network settings_size e (offline w)) w',
  )
  main_step-store (leaving ux) w w' pl s h =
      ground (arith, dispatch-store ux (forget_network settings_size e w) w')
  main_step-store dropping w w' pl s h = ground arith
  main_step-store connecting w w' pl s h = ground (arith, connection_made-store w w')
  main_step-store (pinging c) w w' pl s h = ground (
    arith,
    check_finished-store c (ret_of true) w w',
    check_finished-store c (ret_of false) (start_timer (call led_disconnected w)) w',
  )

-- In every reachable state a step leaves flash unchanged; or it is the web server's, which saves a
-- registration and changes nothing else; or it is the manager's, which saves the configuration of a
-- connection that was made, or, with a disconnection requested, a cleared configuration.
pub flash-changes :
    (nvs : Nvs) (settings_size : ℕ) (w w' : World nvs)
    → Reachable settings_size w
    → Step settings_size w w'
    → (w'.store ≡ w.store)
      ⊎ ((info : RegInfo) × (w' ≡ saved_registration info w))
      ⊎ ((e : Env) × (main_step settings_size e w ≡ stepped w')
          × (((w.place ≡ connecting)
                × (w.bits.wifi_connected ≡ true)
                × (w'.store ≡ (save_sta_config nvs settings_size w.config w.settings w.store).1))
              ⊎ ((w.bits.request_wifi_disconnect ≡ true)
                  × (w'.store
                      ≡ (save_sta_config nvs settings_size
                          (erase w.config)
                          w.settings
                          w.store).1))))
flash-changes nvs settings_size w w' r st = elim (task_or_Outside settings_size w w' st) [
  | inl (e, h) ↦
      elim (main_step-store settings_size e w.place w w' refl
        (Reachable-serving nvs settings_size w r) h) [
          | inl same ↦ inl same
          | inr saved ↦ inr (inr (e, h, saved))
        ]
  | inr o ↦ elim o.registers [ inl same ↦ inl same | inr saved ↦ inr (inl saved) ]
]

-- After a user's disconnection whose save succeeded, the next start finds no network: it requests
-- no connection.
pub forgotten_at_start :
    (nvs : Nvs) (settings_size : ℕ) (e : Env) (w : World nvs) (c : StaConfig) (t : nvs.Store)
    (wifi_settings : List ℕ)
    → w.config ≡ some c
    → length w.settings ≡ settings_size
    → save_sta_config nvs settings_size (some erased) w.settings w.store ≡ (pos 0, t)
    → nvs.open_for false t ≡ pos 0
    → ((forget_network settings_size e w).store ≡ t)
      × ((forget_network settings_size e w).config ≡ some erased)
      × ((started nvs settings_size wifi_settings t).bits.request_sta_connect ≡ false)
unfolding forget_network started status_update
forgotten_at_start nvs settings_size e w c t wifi_settings hc hs saved opens = (
  ap (λ o. (save_sta_config nvs settings_size (erase o) w.settings w.store).1) hc
      ∙ ap (λ r. r.1) saved,
  ap erase hc,
  ap (λ f. f.found)
      (fetch-save nvs settings_size erased w.settings wifi_settings (some erased) w.store t refl
        refl hs saved opens),
)

-- After a connection that was made and saved, the next start fetches its configuration and the
-- settings; it requests a connection exactly if the SSID is not empty.
pub restored_at_start :
    (nvs : Nvs) (settings_size : ℕ) (e : Env) (w : World nvs) (c : StaConfig) (t : nvs.Store)
    (wifi_settings : List ℕ)
    → w.config ≡ some c
    → length c.ssid ≡ 32
    → length c.password ≡ 64
    → length w.settings ≡ settings_size
    → save_sta_config nvs settings_size (some c) w.settings w.store ≡ (pos 0, t)
    → nvs.open_for false t ≡ pos 0
    → ((save_connection settings_size e w).store ≡ t)
      × ((started nvs settings_size wifi_settings t).config ≡ some c)
      × ((started nvs settings_size wifi_settings t).settings ≡ w.settings)
      × ((started nvs settings_size wifi_settings t).bits.request_sta_connect ≡ has_name c)
unfolding save_connection started status_update
restored_at_start nvs settings_size e w c t wifi_settings hc hn hp hs saved opens =
    let f =
      fetch-save nvs settings_size c w.settings wifi_settings (some erased) w.store t hn hp hs saved
        opens in
    (
      ap (λ o. (save_sta_config nvs settings_size o w.settings w.store).1) hc ∙ ap (λ r. r.1) saved,
      ap (λ f. f.config) f,
      ap (λ f. f.settings) f,
      ap (λ f. f.found) f,
    )
