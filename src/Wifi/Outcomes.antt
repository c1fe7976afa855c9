-- ===== src/Wifi/Outcomes.antt =====
-- main/wifi_manager.c: what the WiFi manager does about an event, from the handler to the loop.
use airu_v2_fw.Base.{ℕ, true, false, ◌||◌, List, ◌∷◌, none, some, ◌≡◌, arith}
use airu_v2_fw.Nvs.{Nvs}
use airu_v2_fw.Wifi.{
  StaConfig, World, Caller, connect_branch, ping_branch, top, dropping, connecting, pinging, status,
  failed_attempt, connection_ok, wifi_connect, set_config, led_disconnected,
}
use airu_v2_fw.Wifi.Config.{erased, save_sta_config}
use airu_v2_fw.Wifi.Handlers.{
  kicked_off, status_update, event_handler, sta_disconnected, sta_got_ip, timer_callback,
}
use airu_v2_fw.Wifi.Manager.{
  save_connection, Env, blocked, stepped, main_step, dispatch, finish_round, leave_network,
  start_connection, check_connection, check_waited, check_finished, connect_finished, ping_finished,
  ping_test, connection_made, connection_failed, connect_waited, forget_network, start_round,
  is_requested,
}

-- The state after an attempt that failed.
pub record FailedAttempt {nvs : Nvs} (ssid : List ℕ) (w w' : World nvs) : Type 0 where
  pub at_top : w'.place ≡ top
  pub reported : w'.ip_info ≡ status ssid none failed_attempt
  pub cleared : w'.config ≡ some erased
  pub same_store : w'.store ≡ w.store
  pub same_settings : w'.settings ≡ w.settings
  pub taken_back : w'.bits.request_sta_connect ≡ false
  pub offline_bits : (w'.bits.wifi_connected || w'.bits.have_internet) ≡ false

-- A disconnection while the task waits for its connection: the attempt is reported as failed under
-- the SSID that was tried, the configuration is cleared, flash and settings stay, and the round ends
-- with the request taken back.
pub refused-FailedAttempt :
    (nvs : Nvs) (settings_size reason : ℕ) (e : Env) (w w' : World nvs) (c : StaConfig)
    → w.place ≡ connecting
    → w.config ≡ some c
    → main_step settings_size e (event_handler (sta_disconnected reason) w) ≡ stepped w'
    → FailedAttempt c.ssid w w'
unfolding main_step event_handler connect_waited connection_failed finish_round status_update
refused-FailedAttempt nvs settings_size reason e w w' c p hc h = ground arith

-- An address while the task waits for its connection: the success is reported with the addresses and
-- the configuration is saved, both before the ping test starts, for which the task waits next.
pub accepted-saved :
    (nvs : Nvs) (settings_size : ℕ) (e : Env) (w w' : World nvs) (c : StaConfig)
    → w.place ≡ connecting
    → w.config ≡ some c
    → main_step settings_size e (event_handler sta_got_ip w) ≡ stepped w'
    → (w'.place ≡ pinging connect_branch)
      × (w'.ip_info ≡ status c.ssid (some e.addresses) connection_ok)
      × (w'.store ≡ (save_sta_config nvs settings_size (some c) w.settings w.store).1)
      × (w'.config ≡ some c)
      × (w'.bits.have_internet ≡ false)
unfolding main_step event_handler connect_waited connection_made save_connection status_update
    check_connection ping_test
accepted-saved nvs settings_size e w w' c p hc h = ground arith

-- A round that connects ends with the reconnect timer running, whatever the ping test found: the
-- test's success is a bit of value 256, and the code compares it with 1.
pub connect_round-timer :
    (nvs : Nvs) (settings_size : ℕ) (e : Env) (w w' : World nvs)
    → w.place ≡ pinging connect_branch
    → main_step settings_size e w ≡ stepped w'
    → (w'.timer_active ≡ true)
      × (w'.place ≡ top)
      × (w'.bits.request_reconnect ≡ w.bits.request_reconnect)
unfolding main_step check_waited check_finished connect_finished finish_round
connect_round-timer nvs settings_size e w w' p h = ground arith

-- A ping test that finds no internet in its time leaves the reconnect timer running; when it fires,
-- the next round tests again: the watchdog goes on.
pub failed_ping-watchdog :
    (nvs : Nvs) (settings_size : ℕ) (caller : Caller) (e : Env) (w w' : World nvs)
    → w.place ≡ pinging caller
    → w.bits.have_internet ≡ false
    → main_step settings_size e w ≡ stepped w'
    → (w'.timer_active ≡ true) × (w'.place ≡ top) × (is_requested (timer_callback w').bits ≡ true)
unfolding main_step check_waited check_finished connect_finished ping_finished finish_round
    timer_callback
failed_ping-watchdog nvs settings_size connect_branch e w w' p i h = ground arith
failed_ping-watchdog nvs settings_size ping_branch e w w' p i h = ground arith

-- A station that is kicked off, with no disconnection requested, connects again in the next round, to
-- the configuration in memory.
pub kicked_off-reconnects :
    (nvs : Nvs) (settings_size reason : ℕ) (e : Env) (w w' : World nvs)
    → w.place ≡ top
    → w.bits.request_wifi_disconnect ≡ false
    → kicked_off reason ≡ true
    → main_step settings_size e (event_handler (sta_disconnected reason) w) ≡ stepped w'
    → (w'.place ≡ connecting)
      × (w'.calls ≡ wifi_connect ∷ set_config w.config ∷ led_disconnected ∷ w.calls)
unfolding main_step event_handler start_round dispatch start_connection
kicked_off-reconnects nvs settings_size reason e w w' p d k h = ground arith

-- With a disconnection and a connection requested in one round, while connected, the task asks the
-- driver twice to disconnect: after the first disconnection it waits for a second one, although the
-- station is no longer connected.
pub twice_disconnected :
    (nvs : Nvs) (settings_size reason : ℕ) (e e' : Env) (w w1 w2 : World nvs)
    → w.place ≡ top
    → w.bits.wifi_connected ≡ true
    → w.bits.request_wifi_disconnect ≡ true
    → w.bits.request_sta_connect ≡ true
    → main_step settings_size e w ≡ stepped w1
    → main_step settings_size e' (event_handler (sta_disconnected reason) w1) ≡ stepped w2
    → (w2.place ≡ dropping)
      × ((w2.bits.wifi_connected || w2.bits.sta_disconnect) ≡ false)
      × (main_step settings_size e w2 ≡ blocked)
unfolding main_step event_handler start_round dispatch leave_network forget_network status_update
twice_disconnected nvs settings_size reason e e' w w1 w2 p c d s h h' = ground arith
