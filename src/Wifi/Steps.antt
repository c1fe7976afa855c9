-- ===== src/Wifi/Steps.antt =====
-- main/wifi_manager.c: the steps of the WiFi manager's task and of the tasks that call it, in any
-- order, and the states they reach.
use airu_v2_fw.Base.{ℕ, Bool, true, not, ◌||◌, ◌&&◌, arith, ◌⊎◌, inl, inr, refl, List, ◌≡◌}
use airu_v2_fw.Nvs.{Nvs}
use airu_v2_fw.Wifi.{Bits, StaConfig, World}
use airu_v2_fw.Wifi.Handlers.{
  Event, scan_async, disconnect_async, check_connection_async, connect_json, timer_callback,
  ping_results, event_handler,
}
use airu_v2_fw.Wifi.Registration.{RegInfo, save_reg_config}
use airu_v2_fw.Wifi.Manager.{Env, stepped, main_step, started}

-- The web server saves a registration in the flash that the manager's task uses.
unfoldable pub saved_registration : {nvs : Nvs} → RegInfo → World nvs → World nvs
unfolding save_reg_config
saved_registration {nvs = nvs} info w = record w { store = (save_reg_config nvs info w.store).1 }

module _ {nvs : Nvs} (settings_size : ℕ) where
  -- The timer's callback runs while the timer is active.
  pub data Step : World nvs → World nvs → Type 0 where
    task : (e : Env) (w w' : World nvs) → main_step settings_size e w ≡ stepped w' → Step w w'
    event : (ev : Event) (w : World nvs) → Step w (event_handler ev w)
    ask_scan : (w : World nvs) → Step w (scan_async w)
    ask_disconnect : (w : World nvs) → Step w (disconnect_async w)
    ask_check : (w : World nvs) → Step w (check_connection_async w)
    ask_connect : (w : World nvs) (c : StaConfig) → Step w (connect_json c w)
    ask_registration : (w : World nvs) (info : RegInfo) → Step w (saved_registration info w)
    timer : (w : World nvs) → w.timer_active ≡ true → Step w (timer_callback w)
    ping : (recv_count : ℕ) (w : World nvs) → Step w (ping_results recv_count w)

  pub data Reachable : World nvs → Type 0 where
    start :
        (wifi_settings : List ℕ) (s : nvs.Store)
        → Reachable (started nvs settings_size wifi_settings s)
    next : (w w' : World nvs) → Reachable w → Step w w' → Reachable w'

  -- A property of the start that every step keeps holds in every reachable state.
  pub Reachable-invariant :
      (P : World nvs → Type 0)
      → ((wifi_settings : List ℕ) (s : nvs.Store) → P (started nvs settings_size wifi_settings s))
      → ((w w' : World nvs) → Step w w' → P w → P w')
      → (w : World nvs) → Reachable w
      → P w
  Reachable-invariant P base keep w (start wifi_settings s) = base wifi_settings s
  Reachable-invariant P base keep w' (next w _ r st) =
      keep w w' st (Reachable-invariant P base keep w r)

abbrev pub implies : Bool → Bool → Bool
implies a b = not a || b

-- Requests of a connection, a disconnection and a check that are set stay set.
abbrev pub raised : Bits → Bits → Bool
raised b b' =
    implies b.request_wifi_disconnect b'.request_wifi_disconnect
    && implies b.request_sta_connect b'.request_sta_connect
    && implies b.request_ping_test b'.request_ping_test

-- What a step of another task does not touch; to flash it writes at most a registration.
pub record Outside {nvs : Nvs} (w w' : World nvs) : Type 0 where
  pub same_place : w'.place ≡ w.place
  pub registers : (w'.store ≡ w.store) ⊎ ((info : RegInfo) × (w' ≡ saved_registration info w))
  pub same_settings : w'.settings ≡ w.settings
  pub same_networks : w'.networks ≡ w.networks
  pub raises : raised w.bits w'.bits ≡ true

pub task_or_Outside :
    {nvs : Nvs} (settings_size : ℕ) (w w' : World nvs)
    → Step settings_size w w'
    → ((e : Env) × (main_step settings_size e w ≡ stepped w')) ⊎ Outside w w'
unfolding event_handler scan_async disconnect_async check_connection_async connect_json
    timer_callback ping_results saved_registration
task_or_Outside settings_size w w' (task e _ _ h) = inl (e, h)
task_or_Outside settings_size w w' (event ev _) = inr (record {
  same_place = ground arith;
  registers = inl (ground arith);
  same_settings = ground arith;
  same_networks = ground arith;
  raises = ground arith;
})
task_or_Outside settings_size w w' (ask_scan _) = inr (record {
  same_place = refl;
  registers = inl refl;
  same_settings = refl;
  same_networks = refl;
  raises = ground arith;
})
task_or_Outside settings_size w w' (ask_disconnect _) = inr (record {
  same_place = refl;
  registers = inl refl;
  same_settings = refl;
  same_networks = refl;
  raises = ground arith;
})
task_or_Outside settings_size w w' (ask_check _) = inr (record {
  same_place = refl;
  registers = inl refl;
  same_settings = refl;
  same_networks = refl;
  raises = ground arith;
})
task_or_Outside settings_size w w' (ask_connect _ c) = inr (record {
  same_place = refl;
  registers = inl refl;
  same_settings = refl;
  same_networks = refl;
  raises = ground arith;
})
task_or_Outside settings_size w w' (ask_registration _ info) = inr (record {
  same_place = refl;
  registers = inr (info, refl);
  same_settings = refl;
  same_networks = refl;
  raises = ground arith;
})
task_or_Outside settings_size w w' (timer _ a) = inr (record {
  same_place = refl;
  registers = inl refl;
  same_settings = refl;
  same_networks = refl;
  raises = ground arith;
})
task_or_Outside settings_size w w' (ping n _) = inr (record {
  same_place = ground arith;
  registers = inl (ground arith);
  same_settings = ground arith;
  same_networks = ground arith;
  raises = ground arith;
})
