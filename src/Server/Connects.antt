-- ===== src/Server/Connects.antt =====
-- main/http_server_if.c and main/wifi_manager.c: from a request of the web page to the driver.
use airu_v2_fw.Base.{
  ℕ, ◌≤◌, ◌≡◌, length, leb, true, false, List, [], ◌∷◌, Option, none, some, arith, ap, ◌∙◌,
  if◌then◌else◌, refl,
}
use airu_v2_fw.Nvs.{Nvs}
use airu_v2_fw.Server.{
  ServerEnv, answer, ok_json, not_found, connect_request, http_server_netconn_serve, first_line,
  route_of, post_connect, http_server_get_header, ssid_header, pwd_header, respond, respond_at,
  connect,
}
use airu_v2_fw.Base.Memory.{◌>>=◌}
use airu_v2_fw.Server.Requests.{asked_config, Web, ask, ask_all}
use airu_v2_fw.Wifi.{StaConfig, World, wifi_connect, set_config, top, connecting}
use airu_v2_fw.Wifi.Config.{erased}
use airu_v2_fw.Wifi.Handlers.{connect_json, connect_async, status_update}
use airu_v2_fw.Wifi.Manager.{
  Env, Outcome, stepped, main_step, start_round, dispatch, start_connection, forget_network,
}

-- The configuration that was just given to the driver, in a state that waits for its connection.
unfoldable pub tried : {nvs : Nvs} → Outcome (World nvs) → Option StaConfig
tried (stepped w) = elim w.place [
  | connecting ↦ elim w.calls [
    | wifi_connect ∷ rest ↦ elim rest [ set_config c ∷ _ ↦ c | _ ↦ none ]
    | _ ↦ none
  ]
  | _ ↦ none
]
tried _ = none

-- What the task does about a connection that is requested with the given configuration.
round_connects :
    (nvs : Nvs) (size : ℕ) (e : Env) (w : World nvs) (c : StaConfig)
    → w.place ≡ top
    → w.bits.wifi_connected ≡ false
    → tried (main_step size e (connect_json c w))
      ≡ some (if w.bits.request_wifi_disconnect then erased else c)
unfolding tried main_step start_round dispatch start_connection forget_network status_update
    connect_json connect_async
round_connects nvs size e w c p h = ground arith

leb_of : {m n : ℕ} → m ≤ n → leb m n ≡ true
leb_of h = ground arith

connect-fitting :
    (ssid password : List ℕ)
    → length ssid ≤ 32
    → length password ≤ 64
    → connect (some ssid) (some password) ≡ connect_request ssid password ∷ answer ok_json ∷ []
unfolding connect
connect-fitting ssid password a b = rw (leb_of a, leb_of b) refl

serve-connect_request :
    (env : ServerEnv) (request line headers ssid password : List ℕ)
    → first_line request ≡ some (line, some headers)
    → route_of line ≡ post_connect
    → http_server_get_header headers ssid_header ≡ some ssid
    → http_server_get_header headers pwd_header ≡ some password
    → length ssid ≤ 32
    → length password ≤ 64
    → http_server_netconn_serve env request
      ≡ some (connect_request ssid password ∷ answer ok_json ∷ [])
unfolding http_server_netconn_serve respond respond_at
serve-connect_request env request line headers ssid password f r s p a b =
    ap
      (λ o. elim o [
        | none ↦ some (answer not_found ∷ [])
        | some r ↦ respond_at env (route_of r.0) r.1
      ])
      f
    ∙ ap (λ k. respond env k headers) r
    ∙ ap (λ o. some (connect o (http_server_get_header headers pwd_header))) s
    ∙ ap (λ o. some (connect (some ssid) o)) p
    ∙ ap some (connect-fitting ssid password a b)

-- The request of a connection, with a name of at most 32 bytes and a password of at most 64 in its
-- headers, while the task is at the top and not connected: the request is served, and the next step
-- of the task gives a configuration to the driver and waits for its connection. It is the one that
-- was asked for, if no disconnection is requested; else it is the cleared one, and what was asked
-- for is lost.
pub http_server_netconn_serve-tried :
    (nvs : Nvs) (size : ℕ) (env : ServerEnv) (e : Env) (request line headers ssid password : List ℕ)
    (s : Web nvs)
    → first_line request ≡ some (line, some headers)
    → route_of line ≡ post_connect
    → http_server_get_header headers ssid_header ≡ some ssid
    → http_server_get_header headers pwd_header ≡ some password
    → length ssid ≤ 32
    → length password ≤ 64
    → s.world.place ≡ top
    → s.world.bits.wifi_connected ≡ false
    → (s' : Web nvs) × ((http_server_netconn_serve env request >>= λ es. ask_all es s) ≡ some s')
      × (tried (main_step size e s'.world)
          ≡ some
              (if s.world.bits.request_wifi_disconnect then erased else asked_config ssid password))
unfolding ask_all ask
http_server_netconn_serve-tried nvs size env e request line headers ssid password s f r i p a b t
      n =
    (
      record s { world = connect_json (asked_config ssid password) s.world },
      rw (serve-connect_request env request line headers ssid password f r i p a b) refl,
      round_connects nvs size e s.world (asked_config ssid password) t n,
    )
