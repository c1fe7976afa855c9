-- ===== src/Tests/Documents.antt =====
-- Runs of the JSON documents of main/wifi_manager.c.
use airu_v2_fw.Base.{
  ℕ, ◌+◌, ◌<◌, ◌≤◌, ◌≡◌, false, List, [], ◌∷◌, length, replicate, codes, none, All, ◌⊎◌, refl,
  arith,
}
use airu_v2_fw.Base.Int.{negsuc}
use airu_v2_fw.ApList.{Ap}
use airu_v2_fw.Json.Escape.{escaped, escape_byte}
use airu_v2_fw.Json.Buffer.{Holds, literal}
use airu_v2_fw.Json.Building.{length-replicate}
use airu_v2_fw.Wifi.Documents.{
  json_reg_info_size, generate_access_points_json, generate_reg_info_json, decimal, signed_decimal,
}
use airu_v2_fw.Wifi.Documents.Contents.{
  IsRecord, access_points_text, generate_access_points_json-Builds, entry, entries,
}
use airu_v2_fw.Wifi.Documents.Bounds.{IsShort}
use airu_v2_fw.Wifi.Documents.Registered.{reg_info_text, generate_reg_info_json-result}

abbrev cafe : Ap
cafe = record { ssid = codes "Caf\"e"; primary = 11; rssi = negsuc 69; authmode = 0 }

abbrev office : Ap
office = record { ssid = codes "office"; primary = 6; rssi = negsuc 99; authmode = 4 }

cafe-IsRecord : IsRecord cafe
cafe-IsRecord = record { channel = omega arith; signal = omega arith; mode = omega arith }

office-IsRecord : IsRecord office
office-IsRecord = record { channel = omega arith; signal = omega arith; mode = omega arith }

two_networks :
    access_points_text (cafe ∷ office ∷ [])
    ≡ codes
        "[{\"ssid\":\"Caf\\\"e\",\"chan\":11,\"rssi\":-70,\"auth\":0},\n{\"ssid\":\"office\",\"chan\":6,\"rssi\":-100,\"auth\":4}]\n"
unfolding access_points_text entries entry literal escaped escape_byte decimal signed_decimal
two_networks = refl

-- The document of an empty scan is not closed.
no_network : access_points_text [] ≡ codes "["
unfolding access_points_text entries
no_network = refl

generate_access_points_json-Builds_example :
    ((length (access_points_text (cafe ∷ office ∷ [])) < 40)
      × Holds 40
          (access_points_text (cafe ∷ office ∷ []))
          (generate_access_points_json (cafe ∷ office ∷ []) (replicate {A = ℕ} 40 0)))
    ⊎ ((40 ≤ length (access_points_text (cafe ∷ office ∷ [])))
        × (generate_access_points_json (cafe ∷ office ∷ []) (replicate {A = ℕ} 40 0) ≡ none))
generate_access_points_json-Builds_example =
    generate_access_points_json-Builds 40 (cafe ∷ office ∷ []) (replicate {A = ℕ} 40 0)
      (cafe-IsRecord, (office-IsRecord, tt)) (length-replicate 40) (omega arith)

IsShort-names : All IsShort (cafe ∷ office ∷ [])
unfolding escaped escape_byte
IsShort-names = omega arith

-- A name of 63 bytes and an address of 240 bytes, which the web server takes, do not fit.
abbrev long_name : List ℕ
long_name = replicate {A = ℕ} 63 b'n'

abbrev long_email : List ℕ
long_email = replicate {A = ℕ} 240 b'e'

abbrev mac : List ℕ
mac = 36 ∷ 10 ∷ 196 ∷ 1 ∷ 2 ∷ 255 ∷ []

generate_reg_info_json-result_example :
    ((length (escaped long_name) + length (escaped long_email) ≤ 295)
      × Holds json_reg_info_size (reg_info_text long_name long_email false mac) (
          generate_reg_info_json long_name long_email false mac
            (replicate {A = ℕ} json_reg_info_size 0)))
    ⊎ ((295 < length (escaped long_name) + length (escaped long_email))
        × (generate_reg_info_json long_name long_email false mac
              (replicate {A = ℕ} json_reg_info_size 0)
            ≡ none))
generate_reg_info_json-result_example =
    generate_reg_info_json-result long_name long_email false mac
      (replicate {A = ℕ} json_reg_info_size 0) (omega arith) (length-replicate json_reg_info_size)
