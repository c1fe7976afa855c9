-- ===== src/Wifi/Documents/Bounds.antt =====
-- When the access point list of main/wifi_manager.c fits the buffer that the task allocates.
use airu_v2_fw.Base.{
  ℕ, ◌+◌, ◌*◌, ◌<◌, ◌≤◌, ◌≡◌, List, [], ◌∷◌, ◌++◌, length, codes, All, inl, inr, length-append,
  arith,
}
use airu_v2_fw.ApList.{Ap}
use airu_v2_fw.Json.Escape.{escaped}
use airu_v2_fw.Json.Buffer.{Holds}
use airu_v2_fw.Json.Building.{length-literal}
use airu_v2_fw.Wifi.Documents.{generate_access_points_json, accessp_json_size}
use airu_v2_fw.Wifi.Documents.Contents.{
  IsRecord, length-decimal, length-signed_decimal, length-mode, entry, entries, access_points_text,
  generate_access_points_json-Builds,
}

length-entry : (x : Ap) → x.authmode < 10 → length (entry x) + 2 ≤ length (escaped x.ssid) + 45
unfolding entry
length-entry x h = omega (
  arith,
  length-append {A = ℕ},
  length-literal x.ssid,
  length-decimal x.primary,
  length-signed_decimal x.rssi,
  length-mode x.authmode h,
)

-- A name that takes at most 54 bytes between its quotes.
abbrev pub IsShort : Ap → Type 0
IsShort x = length (escaped x.ssid) ≤ 54

length-entries :
    (xs : List Ap) → All IsRecord xs → All IsShort xs → length (entries xs) ≤ 99 * length xs
unfolding entries
length-entries [] h k = omega arith
length-entries (x ∷ []) h k =
    omega (arith, length-entry x h.0.mode, k.0, length-append (entry x) (codes "]\n"))
length-entries (x ∷ y ∷ xs) h k = omega (
  arith,
  length-entry x h.0.mode,
  k.0,
  length-append (entry x) (codes ",\n" ++ entries (y ∷ xs)),
  length-entries (y ∷ xs) h.1 k.1,
)

-- The buffer that the task allocates has room for the list of at most 15 networks whose names
-- take at most 54 bytes between their quotes.
pub generate_access_points_json-fits :
    (xs : List Ap) (m : List ℕ)
    → All IsRecord xs
    → All IsShort xs
    → length xs ≤ 15
    → length m ≡ accessp_json_size
    → Holds accessp_json_size (access_points_text xs) (generate_access_points_json xs m)
unfolding access_points_text
generate_access_points_json-fits xs m h k l e =
    elim (generate_access_points_json-Builds accessp_json_size xs m h e (omega arith)) [
      | inl f ↦ f.1
      | inr o ↦ absurd (omega (arith, o.0, length-entries xs h k, l))
    ]
