-- ===== src/Wifi.antt =====
-- main/wifi_manager.c: the state that the WiFi manager shares with the driver's event task, the web
-- server and the timers, and the handlers that run outside its own task. The FreeRTOS event group is
-- a record of its bits; driver calls are logged. The manager's task is in Wifi/Manager.
pub mod Config
pub mod Handlers
pub mod Documents
pub mod Manager
pub mod Steps
pub mod Outcomes
pub mod Safety
pub mod Flash
pub mod Rounds
pub mod Scans
pub mod Registration
pub mod Start
use airu_v2_fw.Base.{ℕ, Bool, true, false, List, Option}
use airu_v2_fw.Nvs.{Nvs}
use airu_v2_fw.ApList.{Ap}

-- The bits of `wifi_manager_event_group`, BIT0 to BIT9.
pub record Bits : Type 0 where
  pub wifi_connected : Bool
  pub ap_sta_connected : Bool
  pub ap_started : Bool
  pub request_sta_connect : Bool
  pub sta_disconnect : Bool
  pub request_wifi_scan : Bool
  pub request_wifi_disconnect : Bool
  pub request_reconnect : Bool
  pub have_internet : Bool
  pub request_ping_test : Bool

-- `wifi_config_t`, the station's arrays of 32 and 64 bytes.
pub record StaConfig : Type 0 where
  pub ssid : List ℕ
  pub password : List ℕ

-- `update_reason_code_t`
pub data UpdateReason : Type 0 where
  connection_ok failed_attempt user_disconnect lost_connection : UpdateReason

-- The addresses that the TCP/IP adapter reports, as text.
pub record Addresses : Type 0 where
  pub ip : List ℕ
  pub netmask : List ℕ
  pub gw : List ℕ

-- What `ip_info_json` says: `{}`, or the network with its addresses (`"0"` without) and a reason.
pub data IpInfo : Type 0 where
  nothing : IpInfo
  status : (ssid : List ℕ) (addresses : Option Addresses) (urc : UpdateReason) → IpInfo

-- Calls of the WiFi driver, of the LED task and of ping, newest first.
pub data Call : Type 0 where
  wifi_disconnect wifi_connect wifi_scan ping_init : Call
  set_config : Option StaConfig → Call
  led_connected led_disconnected : Call

-- Where the ping test returns to: the connect branch, or the ping branch.
pub data Caller : Type 0 where
  connect_branch ping_branch : Caller

-- Where the task waits: at the top of its loop, for the disconnection that a user or a new
-- connection needs, for the result of a connection, for the result of a ping.
pub data Place : Type 0 where
  top : Place
  leaving : Bits → Place
  dropping : Place
  connecting : Place
  pinging : Caller → Place

module _ (nvs : Nvs) where
  pub record World : Type 0 where
    pub bits : Bits
    pub place : Place
    pub config : Option StaConfig
    pub settings : List ℕ
    pub store : nvs.Store
    pub ip_info : IpInfo
    pub networks : List Ap  -- what `accessp_json` lists
    pub timer_active : Bool
    pub calls : List Call
