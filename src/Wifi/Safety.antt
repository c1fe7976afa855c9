-- ===== src/Wifi/Safety.antt =====
-- main/wifi_manager.c: invariants of the states that the WiFi manager reaches.
use airu_v2_fw.Base.{ℕ, Bool, true, ◌&&◌, ◌≡◌, refl, sym, subst, inl, inr, arith}
use airu_v2_fw.Nvs.{Nvs}
use airu_v2_fw.Wifi.{
  Bits, World, Place, Caller, connect_branch, ping_branch, top, leaving, dropping, connecting,
  pinging,
}
use airu_v2_fw.Wifi.Handlers.{status_update}
use airu_v2_fw.Wifi.Manager.{
  save_connection, Env, stepped, main_step, started, dispatch, finish_round, leave_network,
  start_connection, scan, check_connection, check_waited, check_finished, connect_finished,
  ping_finished, ping_test, connection_made, connection_failed, connect_waited, forget_network,
  start_round,
}
use airu_v2_fw.Wifi.Steps.{task_or_Outside, raised, implies, Step, Reachable, Reachable-invariant}

-- While the task waits in a branch, the request that the branch serves is set; behind a
-- disconnection it still serves what was requested.
unfoldable pub is_serving : Place → Bits → Bool
is_serving top b = true
is_serving (leaving ux) b =
    b.request_wifi_disconnect
    && implies ux.request_sta_connect b.request_sta_connect
    && implies ux.request_ping_test b.request_ping_test
is_serving dropping b = b.request_sta_connect
is_serving connecting b = b.request_sta_connect
is_serving (pinging connect_branch) b = b.request_sta_connect
is_serving (pinging ping_branch) b = b.request_ping_test

module _ {nvs : Nvs} (settings_size : ℕ) (e : Env) where
  check_connection-serving :
      (c : Caller) (w w' : World nvs)
      → is_serving (pinging c) w.bits ≡ true
      → check_connection settings_size e c w ≡ stepped w'
      → is_serving w'.place w'.bits ≡ true
  unfolding is_serving check_connection check_finished connect_finished ping_finished finish_round
      ping_test
  check_connection-serving connect_branch w w' s h = ground arith
  check_connection-serving ping_branch w w' s h = ground arith

  dispatch-serving :
      (ux : Bits) (w w' : World nvs)
      → implies ux.request_sta_connect w.bits.request_sta_connect ≡ true
      → implies ux.request_ping_test w.bits.request_ping_test ≡ true
      → dispatch settings_size e ux w ≡ stepped w'
      → is_serving w'.place w'.bits ≡ true
  unfolding is_serving dispatch scan start_connection leave_network finish_round
  dispatch-serving ux w w' s p h = ground (arith, check_connection-serving ping_branch w w')

  check_waited-serving :
      (c : Caller) (w w' : World nvs)
      → is_serving (pinging c) w.bits ≡ true
      → check_waited settings_size e c w ≡ stepped w'
      → is_serving w'.place w'.bits ≡ true
  unfolding is_serving check_waited check_finished connect_finished ping_finished finish_round
  check_waited-serving connect_branch w w' s h = ground arith
  check_waited-serving ping_branch w w' s h = ground arith

  connect_waited-serving :
      (w w' : World nvs)
      → w.bits.request_sta_connect ≡ true
      → connect_waited settings_size e w ≡ stepped w'
      → is_serving w'.place w'.bits ≡ true
  unfolding is_serving connect_waited connection_made save_connection connection_failed finish_round
      status_update
  connect_waited-serving w w' s h =
      ground (arith, check_connection-serving connect_branch (save_connection settings_size e w) w')

  start_round-serving :
      (w w' : World nvs)
      → start_round settings_size e w.bits w ≡ stepped w'
      → is_serving w'.place w'.bits ≡ true
  unfolding is_serving start_round leave_network forget_network status_update
  start_round-serving w w' h = ground (arith, dispatch-serving w.bits)

  at_place :
      (p : Place) (w w' : World nvs)
      → w.place ≡ p
      → is_serving p w.bits ≡ true
      → main_step settings_size e w ≡ stepped w'
      → is_serving w'.place w'.bits ≡ true
  unfolding is_serving main_step start_connection forget_network status_update
  at_place top w w' pl s h = ground (arith, start_round-serving w w')
  at_place (leaving ux) w w' pl s h = ground (arith, dispatch-serving ux)
  at_place dropping w w' pl s h = ground arith
  at_place connecting w w' pl s h = ground (arith, connect_waited-serving w w')
  at_place (pinging c) w w' pl s h = ground (arith, check_waited-serving c w w')

raised-serving :
    (p : Place) (b b' : Bits) → raised b b' ≡ true → is_serving p b ≡ true → is_serving p b' ≡ true
unfolding is_serving
raised-serving top b b' r s = ground arith
raised-serving (leaving ux) b b' r s = ground arith
raised-serving dropping b b' r s = ground arith
raised-serving connecting b b' r s = ground arith
raised-serving (pinging connect_branch) b b' r s = ground arith
raised-serving (pinging ping_branch) b b' r s = ground arith

Step-serving :
    {nvs : Nvs} (settings_size : ℕ) (w w' : World nvs)
    → Step settings_size w w'
    → is_serving w.place w.bits ≡ true
    → is_serving w'.place w'.bits ≡ true
Step-serving settings_size w w' st s = elim (task_or_Outside settings_size w w' st) [
  | inl (e, h) ↦ at_place settings_size e w.place w w' refl s h
  | inr o ↦
      subst (λ p. is_serving p w'.bits ≡ true) (sym o.same_place)
        (raised-serving w.place w.bits w'.bits o.raises s)
]

-- In every reachable state, the request that the task is serving is still set: no other task
-- takes a request back.
pub Reachable-serving :
    (nvs : Nvs) (settings_size : ℕ) (w : World nvs)
    → Reachable settings_size w
    → is_serving w.place w.bits ≡ true
unfolding is_serving started
Reachable-serving nvs settings_size =
    Reachable-invariant settings_size (λ w. is_serving w.place w.bits ≡ true)
      (λ wifi_settings s. refl) (Step-serving settings_size)
