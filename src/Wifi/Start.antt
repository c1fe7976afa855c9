-- ===== src/Wifi/Start.antt =====
-- main/wifi_manager.c: what the task does before its loop, `wifi_manager` to its `for(;;)`.
-- The driver's calls that are under ESP_ERROR_CHECK are logged in order; the first one that fails
-- restarts the device.
pub mod Begins
pub mod Runs
use airu_v2_fw.Base.{
  ℕ, Bool, true, false, List, [], ◌∷◌, ◌++◌, Option, none, some, if◌then◌else◌, get_or, codes, ◌≡◌,
}
use airu_v2_fw.Base.Memory.{◌>>=◌, copy}
use airu_v2_fw.Nvs.{Nvs}
use airu_v2_fw.Wifi.{World}
use airu_v2_fw.Wifi.Config.{erased, fetch_wifi_sta_config}
use airu_v2_fw.Wifi.Documents.{
  hex_byte, clear_access_points_json, clear_ip_info_json, clear_reg_info_json,
}
use airu_v2_fw.Wifi.Manager.{started}

-- What `malloc` gives for each buffer.
pub record Heap : Type 0 where
  pub accessp_records : Option (List ℕ)
  pub accessp_json : Option (List ℕ)
  pub ip_info_json : Option (List ℕ)
  pub reg_info_json : Option (List ℕ)
  pub config_sta : Option (List ℕ)

-- The documents that the task allocates.
pub record Texts : Type 0 where
  pub accessp_json : List ℕ
  pub ip_info_json : List ℕ
  pub reg_info_json : List ℕ

-- The allocations. A buffer that is not there, or too small, is undefined behaviour where it is
-- written; the records are written by a scan.
unfoldable pub allocate : Heap → Option Texts
allocate h = h.accessp_json >>= λ m. clear_access_points_json m >>= λ a. h.ip_info_json >>= λ m.
    h.reg_info_json >>= λ n. clear_ip_info_json m >>= λ i. clear_reg_info_json n >>= λ r.
    h.config_sta >>= λ _. some (record { accessp_json = a; ip_info_json = i; reg_info_json = r })

-- `tcpip_adapter_ip_info_t`
pub record IpConfig : Type 0 where
  pub ip : List ℕ
  pub gw : List ℕ
  pub netmask : List ℕ

-- `struct wifi_settings_t`
pub record WifiSettings : Type 0 where
  pub ap_ssid : List ℕ
  pub ap_pwd : List ℕ
  pub ap_channel : ℕ
  pub ap_ssid_hidden : ℕ
  pub ap_bandwidth : ℕ
  pub sta_only : Bool
  pub sta_power_save : ℕ
  pub sta_static_ip : Bool
  pub sta_static_ip_config : IpConfig

-- How the compiler lays the structure out.
pub record Layout : Type 0 where
  pub size : ℕ
  pub bytes_of : WifiSettings → List ℕ
  pub settings_of : List ℕ → WifiSettings

-- The interfaces of the TCP/IP adapter.
pub data Interface : Type 0 where
  access_point station : Interface

-- `wifi_auth_mode_t`, as far as it is used: `WIFI_AUTH_WPA2_PSK`
pub data AuthMode : Type 0 where
  wpa2_psk : AuthMode

-- The configuration of the access point; with the length 0 its name ends at a NUL.
pub record ApConfig : Type 0 where
  pub ssid : List ℕ
  pub ssid_len : ℕ
  pub authmode : AuthMode
  pub password : List ℕ
  pub channel : ℕ
  pub ssid_hidden : ℕ
  pub max_connection : ℕ
  pub beacon_interval : ℕ

-- The calls under ESP_ERROR_CHECK.
pub data DriverCall : Type 0 where
  event_loop_init dhcps_stop dhcps_start dhcpc_stop dhcpc_get_status dhcpc_start : DriverCall
  set_ip_info : Interface → IpConfig → DriverCall
  wifi_init set_storage_ram set_mode_apsta wifi_start : DriverCall
  set_bandwidth set_ps : ℕ → DriverCall
  set_ap_config : ApConfig → DriverCall

abbrev static_config : IpConfig
static_config = record {
  ip = 192 ∷ 168 ∷ 0 ∷ 10 ∷ [];
  gw = 192 ∷ 168 ∷ 0 ∷ 1 ∷ [];
  netmask = 255 ∷ 255 ∷ 255 ∷ 0 ∷ [];
}

abbrev pub ap_address : IpConfig
ap_address = record {
  ip = 192 ∷ 168 ∷ 4 ∷ 1 ∷ [];
  gw = 192 ∷ 168 ∷ 4 ∷ 1 ∷ [];
  netmask = 255 ∷ 255 ∷ 255 ∷ 0 ∷ [];
}

-- `"%s-%02X%02X"`, with `DEFAULT_AP_SSID` and the last two bytes of the address
abbrev pub ap_name : (mac : List ℕ) → List ℕ
ap_name mac = codes "AirU-" ++ (hex_byte (get_or mac 4 0) ++ hex_byte (get_or mac 5 0))

-- The settings before flash is read.
unfoldable pub prepare : (mac : List ℕ) → WifiSettings → Option WifiSettings
prepare mac s = copy s.ap_ssid 0 (ap_name mac ++ (0 ∷ [])) >>= λ m.
    some (record s { ap_ssid = m; sta_static_ip_config = static_config })

-- The calls for the station's address.
unfoldable pub station_calls : (dhcp_started : Bool) → WifiSettings → List DriverCall
station_calls dhcp_started s =
    if s.sta_static_ip
    then dhcpc_stop ∷ set_ip_info station s.sta_static_ip_config ∷ []
    else if dhcp_started
    then dhcpc_get_status ∷ []
    else dhcpc_get_status ∷ dhcpc_start ∷ []

-- `ap_config`; `AP_MAX_CONNECTIONS` is 4, `AP_BEACON_INTERVAL` is 100.
unfoldable pub ap_config : WifiSettings → ApConfig
ap_config s = record {
  ssid = s.ap_ssid;
  ssid_len = 0;
  authmode = wpa2_psk;
  password = s.ap_pwd;
  channel = s.ap_channel;
  ssid_hidden = s.ap_ssid_hidden;
  max_connection = 4;
  beacon_interval = 100;
}

-- The calls for the radio.
unfoldable pub radio_calls : WifiSettings → List DriverCall
unfolding ap_config
radio_calls s =
    wifi_init
    ∷ set_storage_ram
    ∷ set_mode_apsta
    ∷ set_bandwidth s.ap_bandwidth
    ∷ set_ps s.sta_power_save
    ∷ set_ap_config (ap_config s)
    ∷ wifi_start
    ∷ []

-- All calls, with the settings that flash gave.
unfoldable pub start_calls : (dhcp_started : Bool) → WifiSettings → List DriverCall
unfolding station_calls radio_calls
start_calls dhcp_started s =
    event_loop_init
    ∷ dhcps_stop
    ∷ set_ip_info access_point ap_address
    ∷ dhcps_start
    ∷ (station_calls dhcp_started s ++ radio_calls s)

-- The calls that are made, and whether none failed.
unfoldable pub run_calls : (DriverCall → Bool) → List DriverCall → List DriverCall × Bool
run_calls succeeds [] = ([], true)
run_calls succeeds (c ∷ cs) =
    let rest = run_calls succeeds cs in if succeeds c then (c ∷ rest.0, rest.1) else (c ∷ [], false)

-- The calls, the documents, the settings that the calls are made with once flash is read, and the
-- state in which the task enters its loop when the access point has started, or a restart.
pub record Start (nvs : Nvs) : Type 0 where
  pub calls : List DriverCall
  pub texts : Texts
  pub settings : WifiSettings
  pub enters : Option (World nvs)

unfoldable pub start :
    (nvs : Nvs)
    → Layout
    → (DriverCall → Bool)
    → Heap
    → (mac : List ℕ) → (dhcp_started : Bool) → WifiSettings
    → nvs.Store
    → Option (Start nvs)
unfolding allocate prepare start_calls run_calls
start nvs layout succeeds heap mac dhcp_started wifi_settings s = allocate heap >>= λ texts.
    prepare mac wifi_settings >>= λ p.
    let fetched = fetch_wifi_sta_config nvs layout.size (some erased) (layout.bytes_of p) s in
    let known = layout.settings_of fetched.settings in
    let made = run_calls succeeds (start_calls dhcp_started known) in
    some (record {
      calls = made.0;
      texts = texts;
      settings = known;
      enters = if made.1 then some (started nvs layout.size (layout.bytes_of p) s) else none;
    })
