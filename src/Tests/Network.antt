-- ===== src/Tests/Network.antt =====
-- Flash as a function, a network, a scan, and the first states of a run of main/wifi_manager.c.
use airu_v2_fw.Base.{
  ℕ, ◌≤◌, true, List, [], ◌∷◌, ◌++◌, ◌≡◌, sym, ap, ◌∙◌, Bool-cases, inl, inr, ==_iff, ◌==◌, zero,
  suc, ◌≢◌, refl, arith, leb, if◌then◌else◌, length, replicate, codes,
}
use airu_v2_fw.Base.Int.{ℤ, pos, negsuc}
use airu_v2_fw.Nvs.{Nvs, Key, name, email, ssid, password, settings}
use airu_v2_fw.ApList.{Ap}
use airu_v2_fw.Wifi.{StaConfig, World, Addresses}
use airu_v2_fw.Wifi.Handlers.{event_handler, connect_json, sta_got_ip}
use airu_v2_fw.Wifi.Manager.{Env, stepped, main_step, started}

abbrev pub index : Key → ℕ
index name = 0
index email = 1
index ssid = 2
index password = 3
index settings = 4

abbrev pub key_at : ℕ → Key
key_at zero = name
key_at (suc zero) = email
key_at (suc (suc zero)) = ssid
key_at (suc (suc (suc zero))) = password
key_at (suc (suc (suc (suc _)))) = settings

pub key_at-index : (k : Key) → key_at (index k) ≡ k
key_at-index name = refl
key_at-index email = refl
key_at-index ssid = refl
key_at-index password = refl
key_at-index settings = refl

-- Flash as a function from keys to blobs.
abbrev pub Blobs : Type 0
Blobs = Key → List ℕ

abbrev pub put : Blobs → Key → List ℕ → Blobs
put s k v j = if index k == index j then v else s j

abbrev pub fetch : Blobs → Key → ℕ → ℤ × List ℕ
fetch s k n = if leb (length (s k)) n then (pos 0, s k) else (negsuc 0, [])

pub fetch-put :
    (s : Blobs) (k : Key) (v : List ℕ) (n : ℕ) → length v ≤ n → fetch (put s k v) k n ≡ (pos 0, v)
fetch-put s k v n h = ground arith

pub fetch-put_ne :
    (s : Blobs) (k j : Key) (v : List ℕ) (n : ℕ) → k ≢ j → fetch (put s k v) j n ≡ fetch s j n
fetch-put_ne s k j v n d = elim (Bool-cases (index k == index j)) [
  | inl same ↦ absurd (d (sym (key_at-index k) ∙ ap key_at ((==_iff _ _).0 same) ∙ key_at-index j))
  | inr other ↦ rw other refl
]

abbrev pub flash : Nvs
flash = record {
  Store = Blobs;
  open_for = λ _ _. pos 0;
  set_blob = λ s k v. (pos 0, put s k v);
  commit = λ s. (pos 0, s);
  get_blob = fetch;
  get_blob-set_blob = λ s k v n ok l. fetch-put s k v n l;
  get_blob-set_blob_ne = fetch-put_ne;
  get_blob-commit = λ s j n. refl;
}

-- A network, and settings of three bytes.
abbrev pub home : StaConfig
home = record { ssid = codes "home" ++ replicate 28 0; password = codes "secret" ++ replicate 58 0 }

abbrev pub defaults : List ℕ
defaults = 6 ∷ 1 ∷ 0 ∷ []

abbrev pub blank : Blobs
blank _ = []

abbrev pub addresses : Addresses
addresses = record { ip = codes "10.0.0.2"; netmask = codes "255.0.0.0"; gw = codes "10.0.0.1" }

-- Two networks, one of them seen twice.
abbrev pub air : List Ap
air =
    record { ssid = codes "home"; primary = 1; rssi = negsuc 60; authmode = 3 }
    ∷ record { ssid = codes "cafe"; primary = 6; rssi = negsuc 70; authmode = 0 }
    ∷ record { ssid = codes "home"; primary = 11; rssi = negsuc 50; authmode = 3 }
    ∷ []

abbrev pub clear_air : Env
clear_air = record {
  driver_ok = true;
  found = air;
  locked = true;
  addresses = addresses;
  timed_out = true;
}

abbrev pub boot : World flash
boot = started flash 3 defaults blank

abbrev pub asked : World flash
asked = connect_json home boot

-- The world after a step of the task that does not block.
abbrev pub after : Env → World flash → World flash
after e w = elim (main_step 3 e w) [ stepped w' ↦ w' | _ ↦ w ]

abbrev pub trying : World flash
trying = after clear_air asked

abbrev pub online : World flash
online = event_handler sta_got_ip trying

abbrev pub testing : World flash
testing = after clear_air online
