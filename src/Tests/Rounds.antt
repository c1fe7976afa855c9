-- ===== src/Tests/Rounds.antt =====
-- Runs of main/wifi_manager.c.
use airu_v2_fw.Base.{◌<◌, true, false, [], ◌++◌, some, ◌≡◌, ◌⊎◌, refl, arith, codes, replicate}
use airu_v2_fw.Base.Int.{pos}
use airu_v2_fw.Wifi.{Bits, World, connecting, top, pinging, connect_branch, ping_branch, nothing}
use airu_v2_fw.Wifi.Config.{erased, save_sta_config, fetch_wifi_sta_config}
use airu_v2_fw.Wifi.Handlers.{event_handler, connect_json, sta_got_ip, sta_disconnected}
use airu_v2_fw.Wifi.Manager.{
  Env, stepped, main_step, started, save_connection, forget_network, erase,
}
use airu_v2_fw.Wifi.Registration.{RegInfo}
use airu_v2_fw.Wifi.Steps.{saved_registration, Reachable, start, next, task, event, ask_connect}
use airu_v2_fw.Wifi.Safety.{is_serving, Reachable-serving}
use airu_v2_fw.Wifi.Scans.{IsOffer, Reachable-IsOffer}
use airu_v2_fw.Wifi.Flash.{flash-changes, forgotten_at_start, restored_at_start}
use airu_v2_fw.Wifi.Rounds.{rank, main_step-rank, progress, is_answered, main_step-progress}
use airu_v2_fw.Wifi.Outcomes.{FailedAttempt, refused-FailedAttempt}
use airu_v2_fw.ApList.{filter_unique}
use airu_v2_fw.ApList.Networks.{IsFiltered, filter_unique-IsFiltered}
use airu_v2_fw.Tests.Network.{
  air, flash, home, defaults, blank, clear_air, boot, asked, trying, online, testing, after,
}

tries : main_step 3 clear_air asked ≡ stepped trying
unfolding main_step started connect_json
tries = refl

made : main_step 3 clear_air online ≡ stepped testing
unfolding main_step started connect_json event_handler save_connection
made = refl

trying-Reachable : Reachable 3 trying
trying-Reachable =
    next asked trying (next boot asked (start defaults blank) (ask_connect boot home))
      (task clear_air asked trying tries)

Reachable-serving_example : is_serving trying.place trying.bits ≡ true
Reachable-serving_example = Reachable-serving flash 3 trying trying-Reachable

hears : main_step 3 clear_air boot ≡ stepped (after clear_air boot)
unfolding main_step started fetch_wifi_sta_config
hears = refl

Reachable-IsOffer_example : IsOffer (after clear_air boot).networks
Reachable-IsOffer_example =
    Reachable-IsOffer flash 3 (after clear_air boot)
      (next boot (after clear_air boot) (start defaults blank) (task clear_air boot _ hears))

flash-changes_example :
    (testing.store ≡ online.store)
    ⊎ ((info : RegInfo) × (testing ≡ saved_registration info online))
    ⊎ ((e : Env) × (main_step 3 e online ≡ stepped testing)
        × (((online.place ≡ connecting)
              × (online.bits.wifi_connected ≡ true)
              × (testing.store
                  ≡ (save_sta_config flash 3 online.config online.settings online.store).1))
            ⊎ ((online.bits.request_wifi_disconnect ≡ true)
                × (testing.store
                    ≡ (save_sta_config flash 3
                        (erase online.config)
                        online.settings
                        online.store).1))))
flash-changes_example =
    flash-changes flash 3 online testing
      (next trying online trying-Reachable (event sta_got_ip trying))
      (task clear_air online testing made)

-- A state that is easy to vary.
abbrev pub no_bits : Bits
no_bits = record {
  wifi_connected = false;
  ap_sta_connected = false;
  ap_started = true;
  request_sta_connect = false;
  sta_disconnect = false;
  request_wifi_scan = false;
  request_wifi_disconnect = false;
  request_reconnect = false;
  have_internet = false;
  request_ping_test = false;
}

abbrev pub idle : World flash
idle = record {
  bits = no_bits;
  place = top;
  config = some home;
  settings = defaults;
  store = blank;
  ip_info = nothing;
  networks = [];
  timer_active = false;
  calls = [];
}

abbrev waiting : World flash
waiting = record idle { place = connecting; bits = record no_bits { request_sta_connect = true } }

abbrev reached : World flash
reached = record waiting {
  place = pinging connect_branch;
  bits = record no_bits { request_sta_connect = true; have_internet = true; wifi_connected = true };
}

abbrev unreached : World flash
unreached = record idle {
  place = pinging ping_branch;
  bits = record no_bits { request_ping_test = true; wifi_connected = true };
}

reached_steps : main_step 3 clear_air reached ≡ stepped (after clear_air reached)
unfolding main_step
reached_steps = refl

unreached_steps : main_step 3 clear_air unreached ≡ stepped (after clear_air unreached)
unfolding main_step
unreached_steps = refl

main_step-rank_example : rank (after clear_air reached).place < rank (pinging connect_branch)
main_step-rank_example =
    main_step-rank flash 3 clear_air reached (after clear_air reached) (ground arith) reached_steps

main_step-progress_example : progress (main_step 3 clear_air reached) ≡ some true
unfolding is_answered
main_step-progress_example = main_step-progress flash 3 clear_air reached refl refl

refused_steps :
    main_step 3 clear_air (event_handler (sta_disconnected 201) waiting)
    ≡ stepped (after clear_air (event_handler (sta_disconnected 201) waiting))
unfolding main_step event_handler
refused_steps = refl

refused-FailedAttempt_example :
    FailedAttempt
      (codes "home" ++ replicate 28 0)
      waiting
      (after clear_air (event_handler (sta_disconnected 201) waiting))
refused-FailedAttempt_example =
    refused-FailedAttempt flash 3 201 clear_air waiting _ home refl refl refused_steps

accepted_steps :
    main_step 3 clear_air (event_handler sta_got_ip waiting)
    ≡ stepped (after clear_air (event_handler sta_got_ip waiting))
unfolding main_step event_handler save_connection
accepted_steps = refl

abbrev accepted : World flash
accepted = after clear_air (event_handler sta_got_ip waiting)

abbrev kicked : World flash
kicked = after clear_air (event_handler (sta_disconnected 200) idle)

kicked_steps : main_step 3 clear_air (event_handler (sta_disconnected 200) idle) ≡ stepped kicked
unfolding main_step event_handler
kicked_steps = refl

-- Connected, with a disconnection and a connection requested.
abbrev torn : World flash
torn = record idle {
  bits = record no_bits {
    wifi_connected = true;
    request_sta_connect = true;
    request_wifi_disconnect = true;
  };
}

abbrev torn1 : World flash
torn1 = after clear_air torn

abbrev torn2 : World flash
torn2 = after clear_air (event_handler (sta_disconnected 8) torn1)

torn_steps : main_step 3 clear_air torn ≡ stepped torn1
unfolding main_step
torn_steps = refl

torn1_steps : main_step 3 clear_air (event_handler (sta_disconnected 8) torn1) ≡ stepped torn2
unfolding main_step event_handler forget_network
torn1_steps = refl

erased_saves :
    save_sta_config flash 3 (some erased) defaults blank
    ≡ (pos 0, (save_sta_config flash 3 (some erased) defaults blank).1)
unfolding save_sta_config
erased_saves = refl

home_saves :
    save_sta_config flash 3 (some home) defaults blank
    ≡ (pos 0, (save_sta_config flash 3 (some home) defaults blank).1)
unfolding save_sta_config
home_saves = refl

abbrev saved : flash.Store
saved = (save_sta_config flash 3 (some home) defaults blank).1

forgotten_at_start_example :
    ((forget_network 3 clear_air idle).store
      ≡ (save_sta_config flash 3 (some erased) defaults blank).1)
    × ((forget_network 3 clear_air idle).config ≡ some erased)
    × ((started flash 3 []
          (save_sta_config flash 3 (some erased) defaults blank).1).bits.request_sta_connect
        ≡ false)
forgotten_at_start_example =
    forgotten_at_start flash 3 clear_air idle home _ [] refl refl erased_saves refl

restored_at_start_example :
    ((save_connection 3 clear_air idle).store ≡ saved)
    × ((started flash 3 [] saved).config ≡ some home)
    × ((started flash 3 [] saved).settings ≡ defaults)
    × ((started flash 3 [] saved).bits.request_sta_connect ≡ true)
restored_at_start_example =
    restored_at_start flash 3 clear_air idle home saved [] refl refl refl refl home_saves refl

filter_unique-IsFiltered_example : IsFiltered air (filter_unique air).0 (filter_unique air).1
filter_unique-IsFiltered_example = filter_unique-IsFiltered air
