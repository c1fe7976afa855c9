-- ===== src/Wifi/Manager.antt =====
-- main/wifi_manager.c: the loop of the WiFi manager's task. The task blocks in five places; a step of
-- the model runs it from one of them to the next, and other tasks' steps come between. What the
-- driver, the scan and the clock do in a step is an argument.
use airu_v2_fw.Base.{
  ℕ, Bool, true, false, not, ◌||◌, List, [], Option, none, some, ◌==◌, if◌then◌else◌, get_or, take,
}
use airu_v2_fw.Base.Int.{ℤ, pos, negsuc}
use airu_v2_fw.Nvs.{Nvs}
use airu_v2_fw.ApList.{Ap, filter_unique}
use airu_v2_fw.Wifi.{
  nothing, Bits, StaConfig, connection_ok, failed_attempt, user_disconnect, Addresses,
  wifi_disconnect, wifi_connect, wifi_scan, ping_init, set_config, led_connected, led_disconnected,
  Caller, connect_branch, ping_branch, Place, top, leaving, dropping, connecting, pinging, World,
}
use airu_v2_fw.Wifi.Config.{erased, save_sta_config, fetch_wifi_sta_config}
use airu_v2_fw.Wifi.Handlers.{on_bits, call, connect_async, status_update}

-- What happens in a step: whether the driver's calls succeed (`ESP_ERROR_CHECK`), what a scan
-- finds, whether the JSON mutex is free, the addresses, whether the wait for ping is over.
pub record Env : Type 0 where
  pub driver_ok : Bool
  pub found : List Ap
  pub locked : Bool
  pub addresses : Addresses
  pub timed_out : Bool

-- The wait goes on, the program aborts, or the task goes on to its next wait.
pub data Outcome (A : Type 0) : Type 0 where
  blocked stopped : Outcome A
  stepped : A → Outcome A

-- `wifi_manager_check_connection` returns the bit BIT8 or 0, or `ERR_WIFI_DISCONECTED`.
abbrev pub ret_of : Bool → ℤ
ret_of b = pos (if b then 256 else 0)

abbrev pub err_wifi_disconected : ℤ
err_wifi_disconected = negsuc 1

abbrev pub equal_ℤ : ℤ → ℤ → Bool
equal_ℤ (pos a) (pos b) = a == b
equal_ℤ (negsuc a) (negsuc b) = a == b
equal_ℤ _ _ = false

-- `strlen(ssid) > 0`
abbrev pub has_name : StaConfig → Bool
has_name c = not (get_or c.ssid 0 0 == 0)

-- `memset`, where there is a configuration.
abbrev pub erase : Option StaConfig → Option StaConfig
erase none = none
erase (some _) = some erased

-- What the wait at the top of the loop waits for.
abbrev pub is_requested : Bits → Bool
is_requested b =
    b.request_sta_connect || b.request_wifi_scan || b.request_wifi_disconnect || b.request_ping_test

abbrev no_bits : Bits
no_bits = record {
  wifi_connected = false;
  ap_sta_connected = false;
  ap_started = true;
  request_sta_connect = false;
  sta_disconnect = false;
  request_wifi_scan = false;
  request_wifi_disconnect = false;
  request_reconnect = false;
  have_internet = false;
  request_ping_test = false;
}

-- The task's state when it enters its loop, with the access point started: the network in flash is
-- fetched, and a connection is requested if there is one; a scan is requested.
unfoldable pub started : (nvs : Nvs) → ℕ → List ℕ → nvs.Store → World nvs
started nvs settings_size wifi_settings s =
    let fetched = fetch_wifi_sta_config nvs settings_size (some erased) wifi_settings s in
    record {
      bits = record no_bits { request_sta_connect = fetched.found; request_wifi_scan = true };
      place = top;
      config = fetched.config;
      settings = fetched.settings;
      store = s;
      ip_info = nothing;
      networks = [];
      timer_active = false;
      calls = [];
    }

-- `HAVE_INTERNET` is cleared, and the LED told.
abbrev pub offline : {nvs : Nvs} → World nvs → World nvs
offline w = call led_disconnected (on_bits (λ b. record b { have_internet = false }) w)

abbrev pub start_timer : {nvs : Nvs} → World nvs → World nvs
start_timer w = record w { timer_active = true }

module _ {nvs : Nvs} (settings_size : ℕ) (e : Env) where
  -- The end of the loop's body.
  unfoldable pub finish_round : World nvs → World nvs
  finish_round w =
      let back : World nvs = record w { place = top } in
      if w.bits.have_internet then back else call led_disconnected back

  -- The wait of the disconnection comes next, if the driver takes the call.
  unfoldable pub leave_network : Place → World nvs → Outcome (World nvs)
  leave_network p w =
      if e.driver_ok
      then stepped
          (record (call wifi_disconnect (on_bits (λ b. record b { sta_disconnect = false }) w)) {
            place = p;
          })
      else stopped

  -- The part of the connect branch behind `wifi_manager_check_connection`.
  unfoldable pub connect_finished : ℤ → World nvs → World nvs
  unfolding finish_round
  connect_finished ret w =
      let checked =
        if equal_ℤ ret (pos 1)
        then on_bits (λ b. record b { request_reconnect = false }) w
        else start_timer w in
      finish_round (on_bits (λ b. record b { request_sta_connect = false }) checked)

  -- The ping branch without an access point: connect to the network in flash, if one is there.
  unfoldable pub reconnect : World nvs → Outcome (World nvs)
  unfolding connect_async
  reconnect w =
      let fetched = fetch_wifi_sta_config nvs settings_size w.config w.settings w.store in
      let w1 : World nvs = record w { config = fetched.config; settings = fetched.settings } in
      elim fetched.config [
        | none ↦ stopped
        | some c ↦ stepped (if has_name c then connect_async w1 else w1)
      ]

  unfoldable pub ping_finished : ℤ → World nvs → Outcome (World nvs)
  unfolding finish_round
  ping_finished ret w =
      let done : World nvs → Outcome (World nvs) =
        λ w. stepped (finish_round (on_bits (λ b. record b { request_ping_test = false }) w)) in
      if equal_ℤ ret err_wifi_disconected
      then elim (reconnect w) [ blocked ↦ blocked | stopped ↦ stopped | stepped w1 ↦ done w1 ]
      else done w

  unfoldable pub check_finished : Caller → ℤ → World nvs → Outcome (World nvs)
  unfolding connect_finished ping_finished
  check_finished connect_branch ret w = stepped (connect_finished ret w)
  check_finished ping_branch ret w = ping_finished ret w

  -- `wifi_manager_ping_test`
  unfoldable pub ping_test : World nvs → World nvs
  ping_test w = call ping_init (offline w)

  -- `wifi_manager_check_connection`, up to its wait and behind it.
  unfoldable pub check_connection : Caller → World nvs → Outcome (World nvs)
  unfolding check_finished ping_test
  check_connection caller w =
      if w.bits.wifi_connected
      then stepped (record (ping_test w) { place = pinging caller })
      else check_finished caller err_wifi_disconected w

  unfoldable pub check_waited : Caller → World nvs → Outcome (World nvs)
  unfolding check_finished
  check_waited caller w =
      if w.bits.have_internet
      then check_finished caller (ret_of true) w
      else if e.timed_out
      then check_finished caller (ret_of false) (start_timer (call led_disconnected w))
      else blocked

  -- The connect branch from the wait for its result: the connection is reported and saved, and
  -- then tried; or its failure is reported and the configuration cleared.
  unfoldable pub save_connection : World nvs → World nvs
  unfolding status_update
  save_connection w =
      let w1 = call led_connected (status_update e.addresses connection_ok w) in
      record w1 { store = (save_sta_config nvs settings_size w1.config w1.settings w1.store).1 }

  unfoldable pub connection_made : World nvs → Outcome (World nvs)
  unfolding check_connection
  connection_made w = check_connection connect_branch (save_connection w)

  unfoldable pub connection_failed : World nvs → Outcome (World nvs)
  unfolding finish_round status_update
  connection_failed w =
      let w1 = call led_disconnected (status_update e.addresses failed_attempt w) in
      elim w.config [
        | none ↦ stopped
        | some _ ↦ stepped (
            finish_round (
              on_bits (λ b. record b { sta_disconnect = true; request_sta_connect = false })
                (record w1 { config = some erased })))
      ]

  unfoldable pub connect_waited : World nvs → Outcome (World nvs)
  unfolding connection_made connection_failed
  connect_waited w =
      if w.bits.wifi_connected
      then connection_made w
      else if w.bits.sta_disconnect
      then connection_failed w
      else blocked

  -- The connect branch up to that wait.
  unfoldable pub start_connection : World nvs → World nvs
  start_connection w =
      record (call wifi_connect
        (call (set_config w.config) (on_bits (λ b. record b { sta_disconnect = false }) w))) {
          place = connecting;
        }

  -- The scan branch; `ux` are the bits that the wait at the top returned.
  unfoldable pub scan : Bits → World nvs → Outcome (World nvs)
  unfolding finish_round
  scan ux w =
      let done : World nvs → Outcome (World nvs) =
        λ w. stepped (finish_round (on_bits (λ b. record b { request_wifi_scan = false }) w)) in
      let (aps, n) = filter_unique e.found in
      if ux.request_sta_connect
      then done (on_bits (λ b. record b { request_wifi_disconnect = true }) w)
      else if not e.driver_ok
      then stopped
      else if e.locked
      then done (call wifi_scan (record w { networks = take n aps }))
      else done (call wifi_scan w)

  -- The second `if` of the loop's body, with its `else` branches.
  unfoldable pub dispatch : Bits → World nvs → Outcome (World nvs)
  unfolding leave_network start_connection scan check_connection finish_round
  dispatch ux w =
      if ux.request_sta_connect
      then (if ux.wifi_connected then leave_network dropping w else stepped (start_connection w))
      else if ux.request_wifi_scan
      then scan ux w
      else if ux.request_ping_test
      then check_connection ping_branch w
      else stepped (finish_round w)

  -- The disconnect branch behind its wait.
  unfoldable pub forget_network : World nvs → World nvs
  unfolding status_update
  forget_network w =
      let c = erase w.config in
      let w1 : World nvs = record (on_bits (λ b. record b { sta_disconnect = false }) w) {
        config = c;
        store = (save_sta_config nvs settings_size c w.settings w.store).1;
      } in
      on_bits (λ b. record b { request_wifi_disconnect = false })
        (status_update e.addresses user_disconnect w1)

  -- The loop's body from its wait, with the bits that the wait returned.
  unfoldable pub start_round : Bits → World nvs → Outcome (World nvs)
  unfolding leave_network forget_network dispatch
  start_round ux w =
      let w1 = offline w in
      if ux.request_wifi_disconnect
      then (if ux.wifi_connected
          then leave_network (leaving ux) w1
          else dispatch ux (forget_network w1))
      else dispatch ux w

  unfoldable pub main_step : World nvs → Outcome (World nvs)
  unfolding start_round forget_network dispatch start_connection connect_waited check_waited
  main_step w = elim w.place [
    | top ↦ if is_requested w.bits then start_round w.bits w else blocked
    | leaving ux ↦ if w.bits.sta_disconnect then dispatch ux (forget_network w) else blocked
    | dropping ↦ if w.bits.sta_disconnect then stepped (start_connection w) else blocked
    | connecting ↦ connect_waited w
    | pinging caller ↦ check_waited caller w
  ]
