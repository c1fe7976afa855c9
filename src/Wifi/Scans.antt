-- ===== src/Wifi/Scans.antt =====
-- main/wifi_manager.c: the list of networks that the WiFi manager offers, over all its steps.
use airu_v2_fw.Base.{
  ℕ, true, false, List, ◌≡◌, ◌⊎◌, refl, sym, subst, inl, inr, arith, take, take-append,
}
use airu_v2_fw.Base.Int.{ℤ}
use airu_v2_fw.Nvs.{Nvs}
use airu_v2_fw.ApList.{Ap, filter_unique}
use airu_v2_fw.ApList.Compact.{AllNamed}
use airu_v2_fw.ApList.Merge.{Distinct}
use airu_v2_fw.ApList.Networks.{IsFiltered, filter_unique-IsFiltered}
use airu_v2_fw.Wifi.{
  Bits, World, Place, Caller, connect_branch, ping_branch, top, leaving, dropping, connecting,
  pinging, led_disconnected,
}
use airu_v2_fw.Wifi.Handlers.{call, connect_async, status_update}
use airu_v2_fw.Wifi.Manager.{
  offline, err_wifi_disconected, ret_of, start_timer, save_connection, Env, stepped, main_step,
  started, dispatch, finish_round, leave_network, start_connection, scan, check_connection,
  check_waited, check_finished, connect_finished, ping_finished, reconnect, ping_test,
  connection_made, connection_failed, connect_waited, forget_network, start_round,
}
use airu_v2_fw.Wifi.Steps.{Step, task_or_Outside, Reachable, Reachable-invariant}

-- What a scan lists.
unfoldable pub listed : List Ap → List Ap
listed found = take (filter_unique found).1 (filter_unique found).0

-- A list of networks with a name, no two of the same network.
pub record IsOffer (aps : List Ap) : Type 0 where
  pub named : AllNamed aps
  pub distinct : Distinct aps

listed-IsOffer : (found : List Ap) → IsOffer (listed found)
unfolding listed
listed-IsOffer found =
    subst IsOffer (sym front_listed) (record { named = f.all_named; distinct = f.distinct })
  where
    f : IsFiltered found (filter_unique found).0 (filter_unique found).1
    f = filter_unique-IsFiltered found

    front_listed : take (filter_unique found).1 (filter_unique found).0 ≡ f.front
    front_listed = rw (f.whole, f.counted) (take-append f.front f.gap)

module _ {nvs : Nvs} (settings_size : ℕ) (e : Env) where
  check_finished-networks :
      (c : Caller) (ret : ℤ) (w w' : World nvs)
      → check_finished settings_size e c ret w ≡ stepped w'
      → w'.networks ≡ w.networks
  unfolding check_finished connect_finished ping_finished reconnect finish_round connect_async
  check_finished-networks connect_branch ret w w' h = ground arith
  check_finished-networks ping_branch ret w w' h = ground arith

  check_connection-networks :
      (c : Caller) (w w' : World nvs)
      → check_connection settings_size e c w ≡ stepped w'
      → w'.networks ≡ w.networks
  unfolding check_connection ping_test
  check_connection-networks c w w' h =
      ground (arith, check_finished-networks c err_wifi_disconected w w')

  dispatch-networks :
      (ux : Bits) (w w' : World nvs)
      → dispatch settings_size e ux w ≡ stepped w'
      → (w'.networks ≡ w.networks) ⊎ (w'.networks ≡ listed e.found)
  unfolding dispatch scan start_connection leave_network finish_round listed
  dispatch-networks ux w w' h = ground (arith, check_connection-networks ping_branch w w')

  networks_at :
      (p : Place) (w w' : World nvs)
      → w.place ≡ p
      → main_step settings_size e w ≡ stepped w'
      → (w'.networks ≡ w.networks) ⊎ (w'.networks ≡ listed e.found)
  unfolding main_step start_round start_connection forget_network status_update leave_network
      connect_waited connection_made save_connection connection_failed check_waited finish_round
  networks_at top w w' pl h = ground (
    arith,
    dispatch-networks w.bits w w',
    dispatch-networks w.bits (forget_network settings_size e (offline w)) w',
  )
  networks_at (leaving ux) w w' pl h =
      ground (arith, dispatch-networks ux (forget_network settings_size e w) w')
  networks_at dropping w w' pl h = ground arith
  networks_at connecting w w' pl h =
      ground
        (arith, check_connection-networks connect_branch (save_connection settings_size e w) w')
  networks_at (pinging c) w w' pl h = ground (
    arith,
    check_finished-networks c (ret_of true) w w',
    check_finished-networks c (ret_of false) (start_timer (call led_disconnected w)) w',
  )

Step-IsOffer :
    {nvs : Nvs} (settings_size : ℕ) (w w' : World nvs)
    → Step settings_size w w'
    → IsOffer w.networks
    → IsOffer w'.networks
Step-IsOffer settings_size w w' st o = elim (task_or_Outside settings_size w w' st) [
  | inl (e, h) ↦ elim (networks_at settings_size e w.place w w' refl h) [
    | inl same ↦ subst IsOffer (sym same) o
    | inr new ↦ subst IsOffer (sym new) (listed-IsOffer e.found)
  ]
  | inr out ↦ subst IsOffer (sym out.same_networks) o
]

-- In every reachable state the list that the web page offers has only networks with a name, and no
-- two of the same network.
pub Reachable-IsOffer :
    (nvs : Nvs) (settings_size : ℕ) (w : World nvs) → Reachable settings_size w → IsOffer w.networks
unfolding started
Reachable-IsOffer nvs settings_size =
    Reachable-invariant settings_size (λ w. IsOffer w.networks)
      (λ wifi_settings s. record { named = tt; distinct = tt }) (Step-IsOffer settings_size)
