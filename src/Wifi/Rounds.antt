-- ===== src/Wifi/Rounds.antt =====
-- main/wifi_manager.c: a round of the WiFi manager's loop ends. Each wait leads to a later one or to
-- the top, and what the task waits for lets it go on.
use airu_v2_fw.Base.{
  ℕ, Bool, true, false, ◌||◌, ◌<◌, Option, none, some, ◌≡◌, ◌≢◌, refl, arith, if◌then◌else◌,
}
use airu_v2_fw.Base.Int.{ℤ}
use airu_v2_fw.Nvs.{Nvs}
use airu_v2_fw.Wifi.{
  Bits, World, Place, Caller, connect_branch, ping_branch, top, leaving, dropping, connecting,
  pinging, led_disconnected,
}
use airu_v2_fw.Wifi.Config.{fetch_wifi_sta_config}
use airu_v2_fw.Wifi.Handlers.{call, connect_async, status_update}
use airu_v2_fw.Wifi.Manager.{
  offline, err_wifi_disconected, ret_of, start_timer, save_connection, Env, Outcome, blocked,
  stopped, stepped, main_step, dispatch, finish_round, leave_network, start_connection, scan,
  check_connection, check_waited, check_finished, connect_finished, ping_finished, reconnect,
  ping_test, connection_made, connection_failed, connect_waited, forget_network, start_round,
  is_requested,
}

-- How many waits the round can still have.
unfoldable pub rank : Place → ℕ
rank top = 0
rank (pinging _) = 1
rank connecting = 2
rank dropping = 3
rank (leaving _) = 4

-- The configuration is there.
abbrev pub has_config : {nvs : Nvs} → World nvs → Bool
has_config w = elim w.config [ none ↦ false | some _ ↦ true ]

module _ {nvs : Nvs} (settings_size : ℕ) (e : Env) where
  check_finished-rank :
      (c : Caller) (ret : ℤ) (w w' : World nvs)
      → check_finished settings_size e c ret w ≡ stepped w'
      → rank w'.place ≡ 0
  unfolding rank check_finished connect_finished ping_finished finish_round
  check_finished-rank connect_branch ret w w' h = ground arith
  check_finished-rank ping_branch ret w w' h = ground arith

  check_connection-rank :
      (c : Caller) (w w' : World nvs)
      → check_connection settings_size e c w ≡ stepped w'
      → rank w'.place < 2
  unfolding rank check_connection
  check_connection-rank c w w' h = ground (arith, check_finished-rank c err_wifi_disconected w w')

  dispatch-rank :
      (ux : Bits) (w w' : World nvs)
      → dispatch settings_size e ux w ≡ stepped w'
      → rank w'.place < 4
  unfolding rank dispatch scan start_connection leave_network finish_round
  dispatch-rank ux w w' h = ground (arith, check_connection-rank ping_branch w w')

  rank_at :
      (p : Place) (w w' : World nvs)
      → w.place ≡ p
      → p ≢ top
      → main_step settings_size e w ≡ stepped w'
      → rank w'.place < rank p
  unfolding rank main_step start_connection connect_waited connection_made connection_failed
      check_waited finish_round
  rank_at top w w' pl n h = ground arith
  rank_at (leaving ux) w w' pl n h =
      ground (arith, dispatch-rank ux (forget_network settings_size e w) w')
  rank_at dropping w w' pl n h = ground arith
  rank_at connecting w w' pl n h =
      ground (arith, check_connection-rank connect_branch (save_connection settings_size e w) w')
  rank_at (pinging c) w w' pl n h = ground (
    arith,
    check_finished-rank c (ret_of true) w w',
    check_finished-rank c (ret_of false) (start_timer (call led_disconnected w)) w',
  )

-- A step of the task from a wait inside its loop leads to a wait with fewer waits behind it: a round
-- has at most four, and then is at the top again.
pub main_step-rank :
    (nvs : Nvs) (settings_size : ℕ) (e : Env) (w w' : World nvs)
    → w.place ≢ top
    → main_step settings_size e w ≡ stepped w'
    → rank w'.place < rank w.place
main_step-rank nvs settings_size e w w' n h = rank_at settings_size e w.place w w' refl n h

-- The outcome with the configuration forgotten: `none` is a wait, `some false` an abort or a missing
-- configuration.
unfoldable pub progress : {nvs : Nvs} → Outcome (World nvs) → Option Bool
progress blocked = none
progress stopped = some false
progress (stepped w) = some (has_config w)

-- What the task waits for at its place has come.
unfoldable pub is_answered : {nvs : Nvs} → Env → World nvs → Bool
is_answered e w = elim w.place [
  | top ↦ is_requested w.bits
  | leaving _ ↦ w.bits.sta_disconnect
  | dropping ↦ w.bits.sta_disconnect
  | connecting ↦ w.bits.wifi_connected || w.bits.sta_disconnect
  | pinging _ ↦ w.bits.have_internet || e.timed_out
]

module _ {nvs : Nvs} (settings_size : ℕ) (e : Env) where
  check_finished-progress :
      (c : Caller) (ret : ℤ) (w : World nvs)
      → has_config w ≡ true
      → progress (check_finished settings_size e c ret w) ≡ some true
  unfolding progress check_finished connect_finished ping_finished reconnect finish_round
      connect_async fetch_wifi_sta_config
  check_finished-progress connect_branch ret w h = ground arith
  check_finished-progress ping_branch ret w h = ground arith

  check_connection-progress :
      (c : Caller) (w : World nvs)
      → has_config w ≡ true
      → progress (check_connection settings_size e c w) ≡ some true
  unfolding progress check_connection ping_test
  check_connection-progress c w h = ground (arith, check_finished-progress c err_wifi_disconected w)

  dispatch-progress :
      (ux : Bits) (w : World nvs)
      → e.driver_ok ≡ true
      → has_config w ≡ true
      → progress (dispatch settings_size e ux w) ≡ some true
  unfolding progress dispatch scan start_connection leave_network finish_round
  dispatch-progress ux w ok h = ground (arith, check_connection-progress ping_branch w)

  forget_network-config :
      (w : World nvs) → has_config w ≡ true → has_config (forget_network settings_size e w) ≡ true
  unfolding forget_network status_update
  forget_network-config w h = ground arith

  progress_at :
      (p : Place) (w : World nvs)
      → w.place ≡ p
      → e.driver_ok ≡ true
      → has_config w ≡ true
      → progress (main_step settings_size e w) ≡ (if is_answered e w then some true else none)
  unfolding progress is_answered main_step start_connection start_round leave_network connect_waited
      connection_made save_connection status_update connection_failed check_waited finish_round
  progress_at top w pl ok h = ground (
    arith,
    dispatch-progress w.bits w,
    dispatch-progress w.bits (forget_network settings_size e (offline w)),
    forget_network-config (offline w),
  )
  progress_at (leaving ux) w pl ok h =
      ground
        (arith, dispatch-progress ux (forget_network settings_size e w), forget_network-config w)
  progress_at dropping w pl ok h = ground arith
  progress_at connecting w pl ok h =
      ground (arith, check_connection-progress connect_branch (save_connection settings_size e w))
  progress_at (pinging c) w pl ok h = ground (
    arith,
    check_finished-progress c (ret_of true) w,
    check_finished-progress c (ret_of false) (start_timer (call led_disconnected w)),
  )

-- While the driver's calls succeed, the task never aborts and never reads a missing configuration;
-- it goes on exactly if what it waits for has come, and the configuration is there afterwards.
pub main_step-progress :
    (nvs : Nvs) (settings_size : ℕ) (e : Env) (w : World nvs)
    → e.driver_ok ≡ true
    → has_config w ≡ true
    → progress (main_step settings_size e w) ≡ (if is_answered e w then some true else none)
main_step-progress nvs settings_size e w ok h = progress_at settings_size e w.place w refl ok h
