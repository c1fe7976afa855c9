-- ===== src/Wifi/Handlers.antt =====
-- main/wifi_manager.c: the functions of the WiFi manager that other tasks call: the driver's event
-- handler, the requests of the web server, the reconnect timer's callback and the callback of ping.
use airu_v2_fw.Base.{ℕ, Bool, true, false, not, ◌&&◌, ◌∷◌, none, some, ◌==◌, ltb, if◌then◌else◌}
use airu_v2_fw.Nvs.{Nvs}
use airu_v2_fw.Wifi.{
  Bits, StaConfig, UpdateReason, connection_ok, Addresses, nothing, status, Call, led_connected,
  led_disconnected, World,
}

-- The reasons of a disconnection that the handler tests, with the values of the driver's header.
abbrev pub wifi_reason_assoc_leave : ℕ
wifi_reason_assoc_leave = 8

abbrev pub wifi_reason_4way_handshake_timeout : ℕ
wifi_reason_4way_handshake_timeout = 15

abbrev pub wifi_reason_auth_fail : ℕ
wifi_reason_auth_fail = 202

-- `system_event_t`, with the events that are not named as `other`.
pub data Event : Type 0 where
  ap_start ap_sta_connected ap_sta_disconnected sta_start sta_got_ip other : Event
  sta_disconnected : (reason : ℕ) → Event

-- The station left the access point for another reason than its own wish or a wrong password.
abbrev pub kicked_off : ℕ → Bool
kicked_off reason =
    not (reason == wifi_reason_assoc_leave)
    && not (reason == wifi_reason_4way_handshake_timeout)
    && not (reason == wifi_reason_auth_fail)

module _ {nvs : Nvs} where
  -- A change of the event group, and a call that is logged.
  abbrev pub on_bits : (Bits → Bits) → World nvs → World nvs
  on_bits f w = record w { bits = f w.bits }

  abbrev pub call : Call → World nvs → World nvs
  call c w = record w { calls = c ∷ w.calls }

  unfoldable pub scan_async : World nvs → World nvs
  scan_async w = on_bits (λ b. record b { request_wifi_scan = true }) w

  unfoldable pub disconnect_async : World nvs → World nvs
  disconnect_async w = on_bits (λ b. record b { request_wifi_disconnect = true }) w

  unfoldable pub check_connection_async : World nvs → World nvs
  check_connection_async w = on_bits (λ b. record b { request_ping_test = true }) w

  unfoldable pub connect_async : World nvs → World nvs
  connect_async w =
      on_bits (λ b. record b { request_sta_connect = true }) (record w { ip_info = nothing })

  -- `POST /connect.json` of the web server: the configuration that it asks for, and the request.
  unfoldable pub connect_json : StaConfig → World nvs → World nvs
  unfolding connect_async
  connect_json c w = connect_async (record w { config = some c })

  -- `vTimerCallback`; the timer is not reloaded.
  unfoldable pub timer_callback : World nvs → World nvs
  timer_callback w =
      on_bits (λ b. record b { request_ping_test = true }) (record w { timer_active = false })

  -- `pingResults`
  unfoldable pub ping_results : (recv_count : ℕ) → World nvs → World nvs
  unfolding connect_async
  ping_results recv_count w =
      if ltb 0 recv_count
      then record (call led_connected (on_bits (λ b. record b { have_internet = true }) w)) {
        timer_active = false;
      }
      else connect_async w

  -- `wifi_manager_event_handler`
  unfoldable pub event_handler : Event → World nvs → World nvs
  event_handler ap_start w = on_bits (λ b. record b { ap_started = true }) w
  event_handler ap_sta_connected w = on_bits (λ b. record b { ap_sta_connected = true }) w
  event_handler ap_sta_disconnected w = on_bits (λ b. record b { ap_sta_connected = false }) w
  event_handler sta_start w = w
  event_handler other w = w
  event_handler sta_got_ip w = call led_connected (
      on_bits (λ b. record b { request_reconnect = false })
        (on_bits (λ b. record b { wifi_connected = true }) w))
  event_handler (sta_disconnected reason) w =
      let asked =
        if kicked_off reason then on_bits (λ b. record b { request_sta_connect = true }) w else w in
      call led_disconnected (
        on_bits
          (λ b. record b { sta_disconnect = true; wifi_connected = false; have_internet = false })
          asked)

  -- `wifi_manager_json_status_update`, with the addresses that the TCP/IP adapter would report.
  unfoldable pub status_update : Addresses → UpdateReason → World nvs → World nvs
  status_update addresses urc w = record w {
    ip_info = elim w.config [
      | none ↦ nothing
      | some c ↦ status c.ssid (elim urc [ connection_ok ↦ some addresses | _ ↦ none ]) urc
    ];
  }
