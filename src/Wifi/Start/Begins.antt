-- ===== src/Wifi/Start/Begins.antt =====
-- main/wifi_manager.c: what the start of the task leaves, with flash as it is found.
use airu_v2_fw.Base.{
  ℕ, ◌≤◌, ◌≡◌, Bool, true, false, List, [], ◌∷◌, ◌++◌, Option, none, some, length, drop, replicate,
  codes, arith, refl, sym, ap, ◌∙◌, if◌then◌else◌,
}
use airu_v2_fw.Base.Int.{ℤ, pos}
use airu_v2_fw.Base.Bytes.{c_string}
use airu_v2_fw.Base.Memory.{copy, copy_append}
use airu_v2_fw.Nvs.{Nvs, chained, get-set_ne, get-commit, name, email, ssid, is_ok, ◌>>>◌}
use airu_v2_fw.Server.Stamps.{c_string-append}
use airu_v2_fw.Json.Buffer.{NoNul, strcpy}
use airu_v2_fw.Wifi.{World}
use airu_v2_fw.Wifi.Config.{erased, fetch_wifi_sta_config}
use airu_v2_fw.Wifi.Documents.{clear_access_points_json, clear_ip_info_json, clear_reg_info_json}
use airu_v2_fw.Wifi.Manager.{started}
use airu_v2_fw.Wifi.Registration.{RegInfo, save_reg_config}
use airu_v2_fw.Wifi.Start.{
  Heap, Texts, allocate, WifiSettings, Layout, DriverCall, ap_name, prepare, static_config,
  start_calls, run_calls, Start, start,
}

-- A buffer that is there, with room for four bytes.
abbrev pub IsGiven : Option (List ℕ) → Type 0
IsGiven none = ⊥
IsGiven (some m) = 4 ≤ length m

-- Every buffer that the start writes is given.
pub record Gives (h : Heap) : Type 0 where
  pub access_points : IsGiven h.accessp_json
  pub addresses : IsGiven h.ip_info_json
  pub registration : IsGiven h.reg_info_json
  pub config : (m : List ℕ) × (h.config_sta ≡ some m)

-- The empty documents.
pub record Blank (t : Texts) : Type 0 where
  pub access_points : c_string t.accessp_json ≡ codes "[]\n"
  pub addresses : c_string t.ip_info_json ≡ codes "{}\n"
  pub registration : c_string t.reg_info_json ≡ codes "{}\n"

put :
    (o : Option (List ℕ)) (a b c : ℕ)
    → IsGiven o
    → NoNul (a ∷ b ∷ c ∷ [])
    → (m : List ℕ) × (m' : List ℕ) × (o ≡ some m)
      × (copy m 0 ((a ∷ b ∷ c ∷ []) ++ (0 ∷ [])) ≡ some m')
      × (c_string m' ≡ a ∷ b ∷ c ∷ [])
put none a b c h k = absurd h
put (some m) a b c h k = (
  m,
  (a ∷ b ∷ c ∷ []) ++ (0 ∷ drop 4 m),
  refl,
  copy_append (a ∷ b ∷ c ∷ 0 ∷ []) [] m 0 refl h,
  c_string-append (a ∷ b ∷ c ∷ []) (drop 4 m) k,
)

pub allocate-Blank : (h : Heap) → Gives h → (t : Texts) × (allocate h ≡ some t) × Blank t
unfolding allocate clear_access_points_json clear_ip_info_json clear_reg_info_json strcpy
allocate-Blank h g =
    let (m, a, e, f, t) = put h.accessp_json b'[' b']' b'\n' g.access_points (ground arith) in
    let (n, b, i, j, u) = put h.ip_info_json b'{' b'}' b'\n' g.addresses (ground arith) in
    let (o, c, k, l, v) = put h.reg_info_json b'{' b'}' b'\n' g.registration (ground arith) in
    (
      record { accessp_json = a; ip_info_json = b; reg_info_json = c },
      rw (e, f, i, j, k, l, g.config.1) refl,
      record { access_points = t; addresses = u; registration = v },
    )

NoNul-ap_name : (mac : List ℕ) → NoNul (ap_name mac)
NoNul-ap_name mac = ground arith

-- The access point is named after the device.
pub prepare-ap_name :
    (mac : List ℕ) (s : WifiSettings)
    → 10 ≤ length s.ap_ssid
    → (p : WifiSettings) × (prepare mac s ≡ some p) × (c_string p.ap_ssid ≡ ap_name mac)
unfolding prepare
prepare-ap_name mac s h = (
  record s { ap_ssid = ap_name mac ++ (0 ∷ rest); sta_static_ip_config = static_config },
  rw (copy_append (ap_name mac ++ (0 ∷ [])) [] s.ap_ssid 0 refl h) refl,
  c_string-append (ap_name mac) rest (NoNul-ap_name mac),
)
  where
    rest : List ℕ
    rest = drop 10 s.ap_ssid

abbrev ssid_of : Option WifiSettings → List ℕ
ssid_of none = []
ssid_of (some p) = p.ap_ssid

pub prepare-c_string :
    (mac : List ℕ) (s p : WifiSettings)
    → 10 ≤ length s.ap_ssid
    → prepare mac s ≡ some p
    → c_string p.ap_ssid ≡ ap_name mac
prepare-c_string mac s p h e =
    let (q, f, c) = prepare-ap_name mac s h in ap (λ o. c_string (ssid_of o)) (sym e ∙ f) ∙ c

-- The settings that the start uses.
abbrev pub known : (nvs : Nvs) → Layout → WifiSettings → nvs.Store → WifiSettings
known nvs layout p s =
    layout.settings_of
      (fetch_wifi_sta_config nvs layout.size (some erased) (layout.bytes_of p) s).settings

abbrev pub entered : (nvs : Nvs) → Layout → Bool → WifiSettings → nvs.Store → Option (World nvs)
entered nvs layout b p s = if b then some (started nvs layout.size (layout.bytes_of p) s) else none

-- How a start goes, given enough memory.
pub record Begins (nvs : Nvs) (layout : Layout) (succeeds : DriverCall → Bool) (dhcp_started : Bool)
    (p : WifiSettings) (s : nvs.Store) (o : Option (Start nvs)) : Type 0 where
  pub result : Start nvs
  pub returns : o ≡ some result
  pub texts : Blank result.texts
  pub settings : result.settings ≡ known nvs layout p s
  pub calls :
      result.calls ≡ (run_calls succeeds (start_calls dhcp_started (known nvs layout p s))).0
  pub enters :
      result.enters
      ≡ entered nvs layout
          (run_calls succeeds (start_calls dhcp_started (known nvs layout p s))).1
          p
          s

pub start-Begins :
    (nvs : Nvs) (layout : Layout) (succeeds : DriverCall → Bool) (heap : Heap) (mac : List ℕ)
    (dhcp_started : Bool) (p ws : WifiSettings) (s : nvs.Store)
    → Gives heap
    → prepare mac ws ≡ some p
    → Begins nvs layout succeeds dhcp_started p s
        (start nvs layout succeeds heap mac dhcp_started ws s)
unfolding start
start-Begins nvs layout succeeds heap mac dhcp_started p ws s g e =
    let (t, a, b) = allocate-Blank heap g in
    record {
      result = record {
        calls = (run_calls succeeds (start_calls dhcp_started (known nvs layout p s))).0;
        texts = t;
        settings = known nvs layout p s;
        enters =
            entered nvs layout
              (run_calls succeeds (start_calls dhcp_started (known nvs layout p s))).1 p s;
      };
      returns = rw (a, e) refl;
      texts = b;
      settings = refl;
      calls = refl;
      enters = refl;
    }

-- Settings of zeros: an access point with no name, no password and channel 0.
abbrev pub zeroed : WifiSettings
zeroed = record {
  ap_ssid = replicate 32 0;
  ap_pwd = replicate 64 0;
  ap_channel = 0;
  ap_ssid_hidden = 0;
  ap_bandwidth = 0;
  sta_only = false;
  sta_power_save = 0;
  sta_static_ip = false;
  sta_static_ip_config = record { ip = replicate 4 0; gw = replicate 4 0; netmask = replicate 4 0 };
}

-- A fetch from a namespace with no network clears the settings.
pub fetch-no_name :
    (nvs : Nvs) (size : ℕ) (w : List ℕ) (t : nvs.Store)
    → nvs.open_for false t ≡ pos 0
    → is_ok (nvs.get_blob t ssid 32).0 ≡ false
    → (fetch_wifi_sta_config nvs size (some erased) w t).settings ≡ replicate size 0
unfolding fetch_wifi_sta_config
fetch-no_name nvs size w t o n = rw (o, n) refl

-- A fetch without a namespace changes nothing.
pub fetch-no_namespace :
    (nvs : Nvs) (size : ℕ) (w : List ℕ) (s : nvs.Store)
    → is_ok (nvs.open_for false s) ≡ false
    → fetch_wifi_sta_config nvs size (some erased) w s
      ≡ record { found = false; config = some erased; settings = w }
unfolding fetch_wifi_sta_config
fetch-no_namespace nvs size w s o = rw o refl

-- Saving a registration leaves the network's key alone.
pub save_reg_config-ssid :
    (nvs : Nvs) (info : RegInfo) (s t : nvs.Store)
    → save_reg_config nvs info s ≡ (pos 0, t)
    → nvs.get_blob t ssid 32 ≡ nvs.get_blob s ssid 32
unfolding save_reg_config
save_reg_config-ssid nvs info s t saved =
    let w1 : nvs.Store → ℤ × nvs.Store = λ s. nvs.set_blob s name info.name in
    let w2 : nvs.Store → ℤ × nvs.Store = λ s. nvs.set_blob s email info.email in
    let r1 : ℤ × nvs.Store = (nvs.open_for true s, s) >>> w1 in
    let r2 = r1 >>> w2 in
    let c4 = chained (r2 >>> nvs.commit) (λ s. (pos 0, s)) t saved in
    let c3 = chained r2 nvs.commit c4.between c4.first in
    let c2 = chained r1 w2 c3.between c3.first in
    let c1 = chained (nvs.open_for true s, s) w1 c2.between c2.first in
    ap (λ r. nvs.get_blob r.1 ssid 32) (sym c4.second)
    ∙ get-commit nvs c3.between c4.between ssid 32 c3.second
    ∙ get-set_ne nvs c2.between c3.between email ssid info.email 32 c2.second (ground arith)
    ∙ get-set_ne nvs c1.between c2.between name ssid info.name 32 c1.second (ground arith)
    ∙ ap (λ r. nvs.get_blob r.1 ssid 32) (sym c1.first)
