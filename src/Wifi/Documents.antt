-- ===== src/Wifi/Documents.antt =====
-- main/wifi_manager.c: the three JSON documents of the web server, written into their buffers. A
-- write behind the end of a buffer is undefined behaviour, and is `none`.
pub mod Contents
pub mod Connection
pub mod Registered
pub mod Bounds
use airu_v2_fw.Base.{
  ℕ, zero, suc, ◌+◌, ◌-◌, ◌*◌, ◌/◌, ◌%◌, Bool, true, false, List, [], ◌∷◌, ◌++◌, length, take,
  codes, ltb, ◌==◌, if◌then◌else◌, replicate, Option, none, some,
}
use airu_v2_fw.Base.Bytes.{c_string}
use airu_v2_fw.Base.Int.{ℤ, pos, negsuc}
use airu_v2_fw.Base.Memory.{◌>>=◌}
use airu_v2_fw.ApList.{Ap}
use airu_v2_fw.Json.Buffer.{strcat, strcpy, print_json}
use airu_v2_fw.Wifi.{
  StaConfig, Addresses, UpdateReason, connection_ok, failed_attempt, user_disconnect,
  lost_connection,
}

-- `JSON_ONE_APP_SIZE`, `JSON_IP_INFO_SIZE`, `JSON_REG_INFO_SIZE`, and the size of `accessp_json`
abbrev pub json_one_app_size : ℕ
json_one_app_size = 99

abbrev pub json_ip_info_size : ℕ
json_ip_info_size = 150

abbrev pub json_reg_info_size : ℕ
json_reg_info_size = 64 + 254 + 22 + 29

abbrev pub accessp_json_size : ℕ
accessp_json_size = 15 * json_one_app_size + 4

-- `%d` of a number below 1000, which a `uint8_t`, the size of an `int8_t` and an enumeration are.
unfoldable pub decimal : ℕ → List ℕ
decimal n =
    if ltb n 10
    then (b'0' + n) ∷ []
    else if ltb n 100
    then (b'0' + n / 10) ∷ (b'0' + n % 10) ∷ []
    else (b'0' + n / 100) ∷ (b'0' + n / 10 % 10) ∷ (b'0' + n % 10) ∷ []

unfoldable pub signed_decimal : ℤ → List ℕ
unfolding decimal
signed_decimal (pos n) = decimal n
signed_decimal (negsuc n) = b'-' ∷ decimal (suc n)

-- `%02X` of a byte
abbrev pub upper_digit : ℕ → ℕ
upper_digit d = if ltb d 10 then b'0' + d else b'A' + (d - 10)

abbrev pub hex_byte : ℕ → List ℕ
hex_byte n = upper_digit (n / 16) ∷ upper_digit (n % 16) ∷ []

-- The bytes of an address, with colons between them.
pub colons_behind : List ℕ → List ℕ
colons_behind [] = []
colons_behind (b ∷ bs) = b':' ∷ (hex_byte b ++ colons_behind bs)

pub colons : List ℕ → List ℕ
colons [] = []
colons (b ∷ bs) = hex_byte b ++ colons_behind bs

-- `oneap_str` of a record, with the character at its end.
unfoldable pub oneap_str : Ap → ℕ → List ℕ
unfolding decimal signed_decimal
oneap_str ap last =
    codes ",\"chan\":"
    ++ (decimal ap.primary
        ++ (codes ",\"rssi\":"
            ++ (signed_decimal ap.rssi
                ++ (codes ",\"auth\":" ++ (decimal ap.authmode ++ (b'}' ∷ last ∷ b'\n' ∷ []))))))

-- It is printed into `one_ap` by `snprintf`, which leaves at most 98 bytes.
unfoldable pub one_ap : Ap → ℕ → List ℕ
unfolding oneap_str
one_ap ap last = take 98 (oneap_str ap last)

-- The rounds of the loop for these records.
unfoldable pub add_access_points : List Ap → List ℕ → Option (List ℕ)
unfolding one_ap
add_access_points [] m = some m
add_access_points (ap ∷ aps) m = strcat (codes "{\"ssid\":") m >>= λ m1.
    print_json ap.ssid m1 >>= λ m2.
    strcat (one_ap ap (if length aps == 0 then b']' else b',')) m2 >>= add_access_points aps

-- `wifi_manager_generate_acess_points_json`, of the first `ap_num` records
unfoldable pub generate_access_points_json : List Ap → List ℕ → Option (List ℕ)
unfolding add_access_points
generate_access_points_json aps m = strcpy (codes "[") m >>= add_access_points aps

-- `wifi_manager_clear_access_points_json`, `wifi_manager_clear_ip_info_json`,
-- `wifi_manager_clear_reg_info_json`
unfoldable pub clear_access_points_json : List ℕ → Option (List ℕ)
clear_access_points_json m = strcpy (codes "[]\n") m

unfoldable pub clear_ip_info_json : List ℕ → Option (List ℕ)
clear_ip_info_json m = strcpy (codes "{}\n") m

unfoldable pub clear_reg_info_json : List ℕ → Option (List ℕ)
clear_reg_info_json m = strcpy (codes "{}\n") m

-- The values of `update_reason_code_t`
abbrev pub urc : UpdateReason → ℕ
urc connection_ok = 0
urc failed_attempt = 1
urc user_disconnect = 2
urc lost_connection = 3

-- `ip_info_json_format`
unfoldable pub ip_info_json_format : (ip netmask gw : List ℕ) → UpdateReason → List ℕ
unfolding decimal
ip_info_json_format ip netmask gw reason =
    codes ",\"ip\":\""
    ++ (ip
        ++ (codes "\",\"netmask\":\""
            ++ (netmask
                ++ (codes "\",\"gw\":\""
                    ++ (gw ++ (codes "\",\"urc\":" ++ (decimal (urc reason) ++ codes "}\n")))))))

-- The addresses of the interface, where the connection was made.
abbrev pub zero_addresses : Addresses
zero_addresses = record { ip = codes "0"; netmask = codes "0"; gw = codes "0" }

abbrev pub shown : Addresses → UpdateReason → Addresses
shown a connection_ok = a
shown a failed_attempt = zero_addresses
shown a user_disconnect = zero_addresses
shown a lost_connection = zero_addresses

-- What `snprintf` prints of it.
unfoldable pub ip_info_tail : Addresses → UpdateReason → List ℕ
unfolding ip_info_json_format
ip_info_tail a reason =
    take 149
      (ip_info_json_format (shown a reason).ip (shown a reason).netmask (shown a reason).gw reason)

-- `wifi_manager_generate_ip_info_json`; `memset` leaves zeros. In `wifi_sta_config_t` the array of
-- the password stands right behind that of the SSID, and the JSON printer reads up to a NUL.
unfoldable pub generate_ip_info_json :
    Option StaConfig → Addresses → UpdateReason → List ℕ → Option (List ℕ)
unfolding ip_info_tail clear_ip_info_json
generate_ip_info_json none addresses reason m = clear_ip_info_json m
generate_ip_info_json (some config) addresses reason m =
    strcpy (codes "{\"ssid\":") (replicate {A = ℕ} (length m) 0) >>= λ m1.
    print_json (c_string (config.ssid ++ config.password)) m1
    >>= strcat (ip_info_tail addresses reason)

-- The end of the registration's document, of the flag and the bytes of the address.
unfoldable pub reg_info_tail : (hidden : Bool) → (mac : List ℕ) → List ℕ
reg_info_tail hidden mac =
    codes ",\"mapVisibility\":"
    ++ ((if hidden then b'0' else b'1')
        ∷ (codes ",\"macAddress\":\"" ++ (colons mac ++ codes "\"}")))

-- `wifi_manager_generate_reg_info_json`
unfoldable pub generate_reg_info_json :
    (name email : List ℕ) (hidden : Bool) (mac : List ℕ) → List ℕ → Option (List ℕ)
unfolding reg_info_tail
generate_reg_info_json name email hidden mac m =
    strcat (codes "{\"name\":") (replicate {A = ℕ} (length m) 0) >>= λ m1.
    print_json name m1 >>= λ m2. strcat (codes ",\"email\":") m2 >>= λ m3.
    print_json email m3 >>= strcat (reg_info_tail hidden mac)
