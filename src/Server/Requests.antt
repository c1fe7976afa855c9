-- ===== src/Server/Requests.antt =====
-- main/http_server_if.c and main/wifi_manager.c: what the web server's effects do to the user's
-- registration and to the state of the WiFi manager.
use airu_v2_fw.Base.{
  ℕ, zero, suc, ◌≤◌, ◌≡◌, ◌==◌, Bool, true, false, List, [], ◌∷◌, Option, none, some, length, drop,
  replicate, get_or, if◌then◌else◌, arith, refl, ap, length-append, length-drop,
}
use airu_v2_fw.Base.Int.{pos}
use airu_v2_fw.Base.Memory.{◌>>=◌}
use airu_v2_fw.Nvs
use airu_v2_fw.Nvs.{Nvs}
use airu_v2_fw.Server.{
  ServerEnv, Effect, answer, ok_json, document, unlock, scan_request, disconnect_request,
  fetch_registration, save_registration, post_registration, connect_request, set_registration,
  first_line, route_of, post_register, get_register, http_server_get_header, name_header,
  email_header, hidden_header, register, respond, respond_at, http_server_netconn_serve,
}
use airu_v2_fw.Wifi.{StaConfig, World}
use airu_v2_fw.Wifi.Config.{over_zeros}
use airu_v2_fw.Wifi.Handlers.{scan_async, disconnect_async, connect_json}
use airu_v2_fw.Wifi.Registration.{
  RegInfo, save_reg_config, fetch_reg_config, get-saved_name, get-saved_email,
  fetch_reg_config-save_reg_config,
}
use airu_v2_fw.Wifi.Steps.{saved_registration}

-- What `POST /connect.json` copies into the configuration that it has zeroed.
unfoldable pub asked_config : (ssid password : List ℕ) → StaConfig
asked_config ssid password = record { ssid = over_zeros 32 ssid; password = over_zeros 64 password }

-- What `POST /register.json` copies into the arrays that it has zeroed; its third value is not saved.
unfoldable pub sent_info : (name email : List ℕ) → RegInfo
sent_info name email = record { name = over_zeros 64 name; email = over_zeros 254 email }

length-replicate_zero : (n : ℕ) → length (replicate {A = ℕ} n 0) ≡ n
length-replicate_zero zero = refl
length-replicate_zero (suc n) = ap suc (length-replicate_zero n)

length-over_zeros : (n : ℕ) (t : List ℕ) → length t ≤ n → length (over_zeros n t) ≡ n
length-over_zeros n t h = omega (
  arith,
  length-append t (drop (length t) (replicate n 0)),
  length-drop (length t) (replicate {A = ℕ} n 0),
  length-replicate_zero n,
)

module _ (nvs : Nvs) where
  -- `reg_info`, and the state of the WiFi manager.
  pub record Web : Type 0 where
    pub reg_info : RegInfo
    pub world : World nvs

module _ {nvs : Nvs} where
  -- One effect, on the state; `none` is a write behind an array.
  unfoldable pub ask : Effect → Web nvs → Option (Web nvs)
  unfolding asked_config sent_info fetch_reg_config saved_registration
  ask (connect_request ssid password) s =
      some (record s { world = connect_json (asked_config ssid password) s.world })
  ask scan_request s = some (record s { world = scan_async s.world })
  ask disconnect_request s = some (record s { world = disconnect_async s.world })
  ask fetch_registration s =
      fetch_reg_config nvs s.reg_info s.world.store >>= λ r. some (record s { reg_info = r.1 })
  ask save_registration s = some (record s { world = saved_registration s.reg_info s.world })
  ask (set_registration name email _) s = some (record s { reg_info = sent_info name email })
  ask (answer _) s = some s
  ask (document _) s = some s
  ask unlock s = some s
  ask post_registration s = some s

  -- The effects of a request, in their order.
  unfoldable pub ask_all : List Effect → Web nvs → Option (Web nvs)
  unfolding ask
  ask_all [] s = some s
  ask_all (e ∷ es) s = ask e s >>= ask_all es

-- What is asked of the manager for a registration that is sent, and for one that is fetched.
abbrev registration_effects : Bool → (name email hidden : List ℕ) → List Effect
registration_effects connected name email hidden =
    set_registration name email (get_or hidden 0 0 == b't')
    ∷ save_registration
    ∷ answer ok_json
    ∷ (if connected then post_registration ∷ [] else [])

register-fitting :
    (env : ServerEnv) (name email hidden : List ℕ)
    → length name ≤ 64
    → length email ≤ 254
    → register env (some name) (some email) (some hidden)
      ≡ some (registration_effects env.connected name email hidden)
unfolding register
register-fitting env name email hidden a b = ground arith

serve-registration :
    (env : ServerEnv) (request line headers name email hidden : List ℕ)
    → first_line request ≡ some (line, some headers)
    → route_of line ≡ post_register
    → http_server_get_header headers name_header ≡ some name
    → http_server_get_header headers email_header ≡ some email
    → http_server_get_header headers hidden_header ≡ some hidden
    → length name ≤ 64
    → length email ≤ 254
    → http_server_netconn_serve env request
      ≡ some (registration_effects env.connected name email hidden)
unfolding http_server_netconn_serve respond_at respond
serve-registration env request line headers name email hidden f r n e v a b =
    rw (http_server_netconn_serve, f, r, n, e, v) (register-fitting env name email hidden a b)

module _ {nvs : Nvs} where
  ask_all-registration :
      (connected : Bool) (name email hidden : List ℕ) (s : Web nvs)
      → ask_all (registration_effects connected name email hidden) s
        ≡ some (record s {
          reg_info = sent_info name email;
          world = saved_registration (sent_info name email) s.world;
        })
  unfolding ask_all ask
  ask_all-registration true name email hidden s = refl
  ask_all-registration false name email hidden s = refl

  -- A request of the registration, with the mutex free, starts with the fetch.
  respond-fetches :
      (env : ServerEnv) (headers : List ℕ) (s : Web nvs)
      → env.lockable ≡ true
      → fetch_reg_config nvs s.reg_info s.world.store ≡ none
      → (respond env get_register headers >>= λ es. ask_all es s) ≡ none
  unfolding respond ask_all ask
  respond-fetches env headers s l f = rw (l, f) refl

  -- A registration with a name of at most 64 bytes and an address of at most 254 in its headers is
  -- served; if its save succeeds, flash then holds both, filled up with NUL to the sizes of their
  -- arrays. The next request of the registration, with the mutex free and flash readable, writes
  -- behind an array.
  pub http_server_netconn_serve-registers :
      (env later : ServerEnv) (request line headers name email hidden others : List ℕ) (s : Web nvs)
      (t : nvs.Store)
      → first_line request ≡ some (line, some headers)
      → route_of line ≡ post_register
      → http_server_get_header headers name_header ≡ some name
      → http_server_get_header headers email_header ≡ some email
      → http_server_get_header headers hidden_header ≡ some hidden
      → length name ≤ 64
      → length email ≤ 254
      → save_reg_config nvs (sent_info name email) s.world.store ≡ (pos 0, t)
      → nvs.open_for false t ≡ pos 0
      → later.lockable ≡ true
      → (s' : Web nvs) × ((http_server_netconn_serve env request >>= λ es. ask_all es s) ≡ some s')
        × (nvs.get_blob s'.world.store Nvs.name 254 ≡ (pos 0, over_zeros 64 name))
        × (nvs.get_blob s'.world.store Nvs.email 254 ≡ (pos 0, over_zeros 254 email))
        × ((respond later get_register others >>= λ es. ask_all es s') ≡ none)
  unfolding saved_registration sent_info
  http_server_netconn_serve-registers env later request line headers name email hidden others s t f
        r n e v a b saved opens l =
      let info = sent_info name email in
      let k : (save_reg_config nvs info s.world.store).1 ≡ t = ap (λ r. r.1) saved in
      let hn = length-over_zeros 64 name a in
      let he = length-over_zeros 254 email b in
      (
        record s { reg_info = info; world = saved_registration info s.world },
        rw (serve-registration env request line headers name email hidden f r n e v a b)
            (ask_all-registration env.connected name email hidden s),
        rw k (get-saved_name nvs info s.world.store t hn saved),
        rw k (get-saved_email nvs info s.world.store t he saved),
        respond-fetches later others _ l (
            rw k
              (fetch_reg_config-save_reg_config nvs info info s.world.store t hn he saved opens)),
      )
