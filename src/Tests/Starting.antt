-- ===== src/Tests/Starting.antt =====
-- Runs of the start of main/wifi_manager.c, over a flash that knows which keys were set, and of
-- main/app_utils.c.
use airu_v2_fw.Base.{
  ℕ, ◌≤◌, ◌≡◌, ◌≢◌, ◌==◌, Bool, true, false, not, List, [], ◌∷◌, ◌++◌, Option, none, some, All,
  length, take, drop, get_or, replicate, codes, leb, if◌then◌else◌, Bool-cases, inl, inr, ==_iff,
  arith, refl, sym, ap, ◌∙◌,
}
use airu_v2_fw.Base.Int.{ℤ, pos, negsuc}
use airu_v2_fw.Base.Bytes.{c_string}
use airu_v2_fw.Base.Memory.{copy, store}
use airu_v2_fw.Nvs.{Nvs, Key}
use airu_v2_fw.Wifi.{World}
use airu_v2_fw.Wifi.Config.{erased, fetch_wifi_sta_config}
use airu_v2_fw.Wifi.Registration.{RegInfo}
use airu_v2_fw.Wifi.Start.{
  Heap, WifiSettings, Layout, DriverCall, event_loop_init, dhcps_stop, ap_name, prepare,
  start_calls, Start, start, set_ap_config,
}
use airu_v2_fw.Wifi.Start.Begins.{Gives, Blank, known, zeroed}
use airu_v2_fw.Wifi.Start.Runs.{start-new_device}
use airu_v2_fw.AppUtils.Hexadecimal.{IsByte}
use airu_v2_fw.Tests.Network.{index, key_at, key_at-index}

-- What was set, newest first.
abbrev Entries : Type 0
Entries = List (Key × List ℕ)

abbrev lookup : Entries → Key → Option (List ℕ)
lookup [] k = none
lookup ((j, v) ∷ s) k = if index j == index k then some v else lookup s k

abbrev get : Entries → Key → ℕ → ℤ × List ℕ
get s k n = elim (lookup s k) [
  | none ↦ (pos 0x1102, [])
  | some v ↦ if leb (length v) n then (pos 0, v) else (negsuc 0, [])
]

-- There is a namespace once a key was set.
abbrev open_entries : Bool → Entries → ℤ
open_entries true s = pos 0
open_entries false [] = pos 0x1102
open_entries false (_ ∷ _) = pos 0

get-cons :
    (s : Entries) (k : Key) (v : List ℕ) (n : ℕ) → length v ≤ n → get ((k, v) ∷ s) k n ≡ (pos 0, v)
get-cons s k v n h = ground arith

get-cons_ne :
    (s : Entries) (k j : Key) (v : List ℕ) (n : ℕ) → k ≢ j → get ((k, v) ∷ s) j n ≡ get s j n
get-cons_ne s k j v n d = elim (Bool-cases (index k == index j)) [
  | inl same ↦ absurd (d (sym (key_at-index k) ∙ ap key_at ((==_iff _ _).0 same) ∙ key_at-index j))
  | inr other ↦ rw (get, other) refl
]

abbrev entries : Nvs
entries = record {
  Store = Entries;
  open_for = open_entries;
  set_blob = λ s k v. (pos 0, (k, v) ∷ s);
  commit = λ s. (pos 0, s);
  get_blob = get;
  get_blob-set_blob = λ s k v n ok l. get-cons s k v n l;
  get_blob-set_blob_ne = get-cons_ne;
  get_blob-commit = λ s j n. refl;
}

abbrev of_bool : Bool → ℕ
of_bool true = 1
of_bool false = 0

-- One byte for each number, behind the two arrays.
abbrev bytes_of : WifiSettings → List ℕ
bytes_of s =
    s.ap_ssid
    ++ (s.ap_pwd
        ++ (s.ap_channel
            ∷ s.ap_ssid_hidden
            ∷ s.ap_bandwidth
            ∷ of_bool s.sta_only
            ∷ s.sta_power_save
            ∷ of_bool s.sta_static_ip
            ∷ (s.sta_static_ip_config.ip
                ++ (s.sta_static_ip_config.gw ++ s.sta_static_ip_config.netmask))))

abbrev settings_of : List ℕ → WifiSettings
settings_of b = record {
  ap_ssid = take 32 b;
  ap_pwd = take 64 (drop 32 b);
  ap_channel = get_or b 96 0;
  ap_ssid_hidden = get_or b 97 0;
  ap_bandwidth = get_or b 98 0;
  sta_only = not (get_or b 99 0 == 0);
  sta_power_save = get_or b 100 0;
  sta_static_ip = not (get_or b 101 0 == 0);
  sta_static_ip_config = record {
    ip = take 4 (drop 102 b);
    gw = take 4 (drop 106 b);
    netmask = take 4 (drop 110 b);
  };
}

abbrev packed : Layout
packed = record { size = 114; bytes_of = bytes_of; settings_of = settings_of }

abbrev defaults : WifiSettings
defaults = record zeroed {
  ap_ssid = codes "AirU" ++ replicate 28 0;
  ap_pwd = codes "cleantheair" ++ replicate 53 0;
  ap_channel = 5;
  ap_bandwidth = 1;
  sta_only = true;
  sta_power_save = 1;
}

abbrev mac : List ℕ
mac = 0xa4 ∷ 0xcf ∷ 0x12 ∷ 0x05 ∷ 0xbe ∷ 0x07 ∷ []

abbrev prepared : WifiSettings
prepared = record defaults {
  ap_ssid = codes "AirU-BE07" ++ replicate 23 0;
  sta_static_ip_config = record {
    ip = 192 ∷ 168 ∷ 0 ∷ 10 ∷ [];
    gw = 192 ∷ 168 ∷ 0 ∷ 1 ∷ [];
    netmask = 255 ∷ 255 ∷ 255 ∷ 0 ∷ [];
  };
}

prepares : prepare mac defaults ≡ some prepared
unfolding prepare copy store
prepares = refl

abbrev heap : Heap
heap = record {
  accessp_records = none;
  accessp_json = some (replicate 8 1);
  ip_info_json = some (replicate 6 1);
  reg_info_json = some (replicate 5 1);
  config_sta = some [];
}

heap-Gives : Gives heap
heap-Gives = record {
  access_points = omega arith;
  addresses = omega arith;
  registration = omega arith;
  config = ([], refl);
}

abbrev willing : DriverCall → Bool
willing _ = true

start-new_device_example :
    (r : Start entries) × (start entries packed willing heap mac false defaults [] ≡ some r)
    × Blank r.texts
    × (c_string r.settings.ap_ssid ≡ ap_name mac)
    × (r.calls ≡ start_calls false r.settings)
    × (w : World entries) × (r.enters ≡ some w)
    × (w.config ≡ some erased)
    × (w.bits.request_sta_connect ≡ false)
start-new_device_example =
    start-new_device entries packed willing heap mac false defaults [] prepared heap-Gives
      (omega arith) prepares refl refl (λ _. refl)

abbrev user : RegInfo
user = record { name = codes "Ada" ++ replicate 61 0; email = codes "a@b" ++ replicate 251 0 }

-- A driver that refuses a password that is too short.
abbrev strict : DriverCall → Bool
strict (set_ap_config c) = leb 8 (length (c_string c.password))
strict _ = true

-- A driver whose DHCP server cannot be stopped.
abbrev stuck : DriverCall → Bool
stuck dhcps_stop = false
stuck _ = true

abbrev behind : List DriverCall
behind = drop 2 (start_calls false prepared)

stuck_calls :
    start_calls false (known entries packed prepared [])
    ≡ (event_loop_init ∷ []) ++ (dhcps_stop ∷ behind)
unfolding start_calls fetch_wifi_sta_config
stuck_calls = refl

mac-IsByte : All IsByte mac
mac-IsByte = ground arith

abbrev digest : List ℕ
digest = 0x0f ∷ 0xe3 ∷ replicate 30 0xa5

digest-IsByte : All IsByte digest
digest-IsByte = ground arith
