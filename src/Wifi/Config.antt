-- ===== src/Wifi/Config.antt =====
-- main/wifi_manager.c: the station's configuration and the settings in flash. The settings are the
-- bytes of `struct wifi_settings_t`, and `settings_size` is their number.
use airu_v2_fw.Base.{
  zero, suc, ℕ, ◌≤◌, ◌≡◌, refl, sym, ap, ◌∙◌, arith, Bool, true, false, not, List, [], ◌∷◌, ◌++◌,
  Option, none, some, ◌==◌, if◌then◌else◌, length, get_or, drop, replicate, append-nil,
}
use airu_v2_fw.Base.Int.{ℤ, pos}
use airu_v2_fw.Nvs.{
  chained, get-set, get-set_ne, get-commit, Nvs, Key, ssid, password, settings, is_ok, ◌>>>◌,
}
use airu_v2_fw.Wifi.{StaConfig}

-- `memcpy` of a blob over a zeroed array.
abbrev pub over_zeros : ℕ → List ℕ → List ℕ
over_zeros n blob = blob ++ drop (length blob) (replicate n 0)

drop-nil : (n : ℕ) → drop {A = ℕ} n [] ≡ []
drop-nil zero = refl
drop-nil (suc n) = refl

drop-length : (xs : List ℕ) (n : ℕ) → n ≤ length xs → drop (length xs) (replicate {A = ℕ} n 0) ≡ []
drop-length xs zero h = drop-nil (length xs)
drop-length [] (suc n) h = ground arith
drop-length (x ∷ xs) (suc n) h = drop-length xs n (omega arith)

all_over_zeros : (n : ℕ) (blob : List ℕ) → length blob ≡ n → over_zeros n blob ≡ blob
all_over_zeros n blob h = ap (λ r. blob ++ r) (drop-length blob n (omega arith)) ∙ append-nil blob

-- What `memset(config, 0x00, sizeof(wifi_config_t))` leaves.
abbrev pub erased : StaConfig
erased = record { ssid = replicate 32 0; password = replicate 64 0 }

-- The variables that `wifi_manager_fetch_wifi_sta_config` sets, and what it returns.
pub record Fetched : Type 0 where
  pub found : Bool
  pub config : Option StaConfig
  pub settings : List ℕ

module _ (nvs : Nvs) (settings_size : ℕ) where
  open nvs use {Store, open_for, set_blob, commit, get_blob}

  -- `wifi_manager_save_sta_config`. The handle is not closed on an error.
  unfoldable pub save_sta_config : Option StaConfig → List ℕ → Store → ℤ × Store
  save_sta_config none wifi_settings s = (pos 0, s)
  save_sta_config (some config) wifi_settings s =
      (open_for true s, s)
      >>> (λ s. set_blob s ssid config.ssid)
      >>> (λ s. set_blob s password config.password)
      >>> (λ s. set_blob s settings wifi_settings)
      >>> commit
      >>> λ s. (pos 0, s)

  -- `wifi_manager_save_wifi_settings`
  unfoldable pub save_wifi_settings : List ℕ → Store → ℤ × Store
  save_wifi_settings wifi_settings s =
      (open_for true s, s) >>> (λ s. set_blob s settings wifi_settings) >>> commit >>> λ s.
      (pos 0, s)

  -- The part behind `nvs_open`, with the configuration and the settings zeroed.
  abbrev fetch_password : List ℕ → Store → Fetched
  fetch_password name s =
      let word = get_blob s password 64 in
      let blob = get_blob s settings settings_size in
      let named : StaConfig = record { ssid = name; password = replicate 64 0 } in
      if is_ok word.0
      then (let whole : StaConfig = record { ssid = name; password = over_zeros 64 word.1 } in
          if is_ok blob.0
          then record {
            found = not (get_or name 0 0 == 0);
            config = some whole;
            settings = over_zeros settings_size blob.1;
          }
          else record { found = false; config = some whole; settings = replicate settings_size 0 })
      else record { found = false; config = some named; settings = replicate settings_size 0 }

  -- `wifi_manager_fetch_wifi_sta_config`
  unfoldable pub fetch_wifi_sta_config : Option StaConfig → List ℕ → Store → Fetched
  fetch_wifi_sta_config config wifi_settings s =
      let name = get_blob s ssid 32 in
      if is_ok (open_for false s)
      then (if is_ok name.0
          then fetch_password (over_zeros 32 name.1) s
          else record { found = false; config = some erased; settings = replicate settings_size 0 })
      else record { found = false; config = config; settings = wifi_settings }

  -- What stands in flash after a successful save.
  record Saved (c : StaConfig) (wifi_settings : List ℕ) (t : Store) : Type 0 where
    names : get_blob t ssid 32 ≡ (pos 0, c.ssid)
    words : get_blob t password 64 ≡ (pos 0, c.password)
    sets : get_blob t settings settings_size ≡ (pos 0, wifi_settings)

  save-Saved :
      (c : StaConfig) (wifi_settings : List ℕ) (s t : Store)
      → length c.ssid ≡ 32
      → length c.password ≡ 64
      → length wifi_settings ≡ settings_size
      → save_sta_config (some c) wifi_settings s ≡ (pos 0, t)
      → Saved c wifi_settings t
  unfolding save_sta_config
  save-Saved c wifi_settings s t hs hp hw saved =
      let w1 : Store → ℤ × Store = λ s. set_blob s ssid c.ssid in
      let w2 : Store → ℤ × Store = λ s. set_blob s password c.password in
      let w3 : Store → ℤ × Store = λ s. set_blob s settings wifi_settings in
      let r1 : ℤ × Store = (open_for true s, s) >>> w1 in
      let r2 = r1 >>> w2 in
      let r3 = r2 >>> w3 in
      let c5 = chained (r3 >>> commit) (λ s. (pos 0, s)) t saved in
      let c4 = chained r3 commit c5.between c5.first in
      let c3 = chained r2 w3 c4.between c4.first in
      let c2 = chained r1 w2 c3.between c3.first in
      let c1 = chained (open_for true s, s) w1 c2.between c2.first in
      let back : (k : Key) (n : ℕ) → get_blob t k n ≡ get_blob c4.between k n = λ k n.
        ap (λ r. get_blob r.1 k n) (sym c5.second)
        ∙ get-commit nvs c4.between c5.between k n c4.second in
      record {
        names =
            back ssid 32
            ∙ get-set_ne nvs c3.between c4.between settings ssid wifi_settings 32 c3.second
                (ground arith)
            ∙ get-set_ne nvs c2.between c3.between password ssid c.password 32 c2.second
                (ground arith)
            ∙ get-set nvs c1.between c2.between ssid c.ssid 32 c1.second (omega arith);
        words =
            back password 64
            ∙ get-set_ne nvs c3.between c4.between settings password wifi_settings 64 c3.second
                (ground arith)
            ∙ get-set nvs c2.between c3.between password c.password 64 c2.second (omega arith);
        sets =
            back settings settings_size
            ∙ get-set nvs c3.between c4.between settings wifi_settings settings_size c3.second
                (omega arith);
      }

  -- What a successful save wrote is what a fetch finds; it reports a network exactly if the SSID is
  -- not empty.
  pub fetch-save :
      (c : StaConfig) (wifi_settings old_settings : List ℕ) (old : Option StaConfig) (s t : Store)
      → length c.ssid ≡ 32
      → length c.password ≡ 64
      → length wifi_settings ≡ settings_size
      → save_sta_config (some c) wifi_settings s ≡ (pos 0, t)
      → open_for false t ≡ pos 0
      → fetch_wifi_sta_config old old_settings t
        ≡ record { found = not (get_or c.ssid 0 0 == 0); config = some c; settings = wifi_settings }
  unfolding fetch_wifi_sta_config
  fetch-save c wifi_settings old_settings old s t hs hp hw saved opens =
      rw
        (
          opens,
          names,
          words,
          sets,
          all_over_zeros 32 c.ssid hs,
          all_over_zeros 64 c.password hp,
          all_over_zeros settings_size wifi_settings hw,
        )
        refl
    where
      open save-Saved c wifi_settings s t hs hp hw saved use {names, words, sets}
