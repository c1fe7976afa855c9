-- ===== src/Wifi/Start/Runs.antt =====
-- main/wifi_manager.c: whole starts, on a new device, on one whose user has registered, and with a
-- driver that fails.
use airu_v2_fw.Base.{
  ℕ, ◌≤◌, if◌then◌else◌, ◌≡◌, Bool, true, false, List, [], ◌∷◌, ◌++◌, none, some, All, length, refl,
  sym, ap, ◌∙◌,
}
use airu_v2_fw.Base.Bytes.{c_string}
use airu_v2_fw.Nvs.{Nvs, is_ok}
use airu_v2_fw.Wifi.{World}
use airu_v2_fw.Wifi.Config.{Fetched, erased, fetch_wifi_sta_config}
use airu_v2_fw.Wifi.Manager.{started}
use airu_v2_fw.Wifi.Start.{
  Heap, WifiSettings, Layout, DriverCall, ap_name, prepare, start_calls, run_calls, Start, start,
  event_loop_init, dhcps_stop, dhcps_start, set_ip_info, access_point, ap_address, dhcpc_get_status,
  dhcpc_start, wifi_init, set_storage_ram, set_mode_apsta, set_bandwidth, set_ps,
}
use airu_v2_fw.Wifi.Start.Begins.{
  Gives, Blank, entered, fetch-no_namespace, prepare-c_string, known, start-Begins,
}

run_calls-all :
    (succeeds : DriverCall → Bool) (cs : List DriverCall)
    → ((c : DriverCall) → succeeds c ≡ true)
    → run_calls succeeds cs ≡ (cs, true)
unfolding run_calls
run_calls-all succeeds [] h = refl
run_calls-all succeeds (c ∷ cs) h = rw (h c, run_calls-all succeeds cs h) refl

run_calls-failure :
    (succeeds : DriverCall → Bool) (a b : List DriverCall) (c : DriverCall)
    → All (λ d. succeeds d ≡ true) a
    → succeeds c ≡ false
    → run_calls succeeds (a ++ (c ∷ b)) ≡ (a ++ (c ∷ []), false)
unfolding run_calls
run_calls-failure succeeds [] b c h f = rw f refl
run_calls-failure succeeds (d ∷ a) b c h f = rw (h.0, run_calls-failure succeeds a b c h.1 f) refl

-- The calls before the access point is configured, for settings of zeros.
abbrev pub calls_before : (dhcp_started : Bool) → List DriverCall
calls_before dhcp_started =
    event_loop_init
    ∷ dhcps_stop
    ∷ set_ip_info access_point ap_address
    ∷ dhcps_start
    ∷ ((if dhcp_started then dhcpc_get_status ∷ [] else dhcpc_get_status ∷ dhcpc_start ∷ [])
        ++ (wifi_init ∷ set_storage_ram ∷ set_mode_apsta ∷ set_bandwidth 0 ∷ set_ps 0 ∷ []))

abbrev settings_in : Fetched → List ℕ
settings_in r = r.settings

-- What the task fetches when there is no namespace.
abbrev unfetched : List ℕ → Fetched
unfetched w = record { found = false; config = some erased; settings = w }

started-unfetched :
    (nvs : Nvs) (size : ℕ) (w : List ℕ) (s : nvs.Store)
    → fetch_wifi_sta_config nvs size (some erased) w s ≡ unfetched w
    → ((started nvs size w s).config ≡ some erased)
      × ((started nvs size w s).bits.request_sta_connect ≡ false)
unfolding started
started-unfetched nvs size w s f = (ap (λ r. r.config) f, ap (λ r. r.found) f)

module _ (nvs : Nvs) (layout : Layout) (succeeds : DriverCall → Bool) (heap : Heap) (mac : List ℕ)
    (dhcp_started : Bool) (ws : WifiSettings) where
  -- With memory for its buffers, room for the name and settings that keep their values in the
  -- compiler's layout, on a device whose flash has no namespace yet and whose driver's calls succeed:
  -- the start makes all its calls, leaves empty documents, names the access point after the device's
  -- address, and enters the loop with a cleared configuration and no connection requested.
  pub start-new_device :
      (s : nvs.Store) (p : WifiSettings)
      → Gives heap
      → 10 ≤ length ws.ap_ssid
      → prepare mac ws ≡ some p
      → layout.settings_of (layout.bytes_of p) ≡ p
      → is_ok (nvs.open_for false s) ≡ false
      → ((c : DriverCall) → succeeds c ≡ true)
      → (r : Start nvs) × (start nvs layout succeeds heap mac dhcp_started ws s ≡ some r)
        × Blank r.texts
        × (c_string r.settings.ap_ssid ≡ ap_name mac)
        × (r.calls ≡ start_calls dhcp_started r.settings)
        × (w : World nvs) × (r.enters ≡ some w)
        × (w.config ≡ some erased)
        × (w.bits.request_sta_connect ≡ false)
  start-new_device s p g l e laid n ok =
      let b = start-Begins nvs layout succeeds heap mac dhcp_started p ws s g e in
      let f = fetch-no_namespace nvs layout.size (layout.bytes_of p) s n in
      let k = ap layout.settings_of (ap settings_in f) ∙ laid in
      (
        b.result,
        b.returns,
        b.texts,
        ap (λ q. c_string q.ap_ssid) (b.settings ∙ k) ∙ prepare-c_string mac ws p l e,
        b.calls
            ∙ ap (λ r. r.0)
                (run_calls-all succeeds (start_calls dhcp_started (known nvs layout p s)) ok)
            ∙ ap (start_calls dhcp_started) (sym b.settings),
        started nvs layout.size (layout.bytes_of p) s,
        b.enters
            ∙ ap (λ r. entered nvs layout r.1 p s)
                (run_calls-all succeeds (start_calls dhcp_started (known nvs layout p s)) ok),
        (started-unfetched nvs layout.size (layout.bytes_of p) s f).0,
        (started-unfetched nvs layout.size (layout.bytes_of p) s f).1,
      )

  -- With memory for its buffers, and whatever flash holds: a driver's call that fails where those
  -- before it succeed is the last that is made, and the task does not enter its loop.
  pub start-failure :
      (s : nvs.Store) (p : WifiSettings) (a b : List DriverCall) (c : DriverCall)
      → Gives heap
      → prepare mac ws ≡ some p
      → start_calls dhcp_started (known nvs layout p s) ≡ a ++ (c ∷ b)
      → All (λ d. succeeds d ≡ true) a
      → succeeds c ≡ false
      → (r : Start nvs) × (start nvs layout succeeds heap mac dhcp_started ws s ≡ some r)
        × (r.calls ≡ a ++ (c ∷ []))
        × (r.enters ≡ none)
  start-failure s p a b c g e k h f =
      let r = start-Begins nvs layout succeeds heap mac dhcp_started p ws s g e in
      (
        r.result,
        r.returns,
        r.calls ∙ rw (k, run_calls-failure succeeds a b c h f) refl,
        r.enters ∙ rw (k, run_calls-failure succeeds a b c h f) refl,
      )
