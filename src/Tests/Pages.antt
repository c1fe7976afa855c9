-- ===== src/Tests/Pages.antt =====
-- Runs of main/http_server_if.c.
use airu_v2_fw.Base.{
  arith, if◌then◌else◌, ℕ, true, false, List, [], ◌∷◌, ◌++◌, none, some, ◌≡◌, refl, codes,
  replicate,
}
use airu_v2_fw.Server.{
  ServerEnv, Effect, answer, ok_json, connect_request, http_server_netconn_serve,
  http_server_get_header, name_header, email_header, first_line, route_of, post_connect,
  post_register, get_register, hidden_header, respond, ssid_header, pwd_header,
}
use airu_v2_fw.Base.Memory.{◌>>=◌}
use airu_v2_fw.Base.Int.{pos}
use airu_v2_fw.Nvs
use airu_v2_fw.Server.Requests.{
  Web, asked_config, sent_info, ask_all, http_server_netconn_serve-registers,
}
use airu_v2_fw.Wifi.Registration.{save_reg_config}
use airu_v2_fw.Server.Connects.{tried, http_server_netconn_serve-tried}
use airu_v2_fw.Wifi.{top}
use airu_v2_fw.Wifi.Config.{erased, over_zeros}
use airu_v2_fw.Wifi.Manager.{main_step, started}
use airu_v2_fw.Tests.Network.{flash, boot, clear_air}

abbrev env : ServerEnv
env = record {
  lockable = true;
  ap_list = codes "[]";
  ip_info = none;
  reg_info = none;
  connected = false;
}

abbrev headers : List ℕ
headers = codes "Host: 192.168.4.1\r\nx-custom-ssid: home\r\nx-custom-pwd: secret\r\n\r\n"

abbrev request : List ℕ
request = codes "POST /connect.json HTTP/1.1\r\n" ++ headers

abbrev requested : List Effect
requested = connect_request (codes "home") (codes "secret") ∷ answer ok_json ∷ []

request_connects : http_server_netconn_serve env request ≡ some requested
unfolding http_server_netconn_serve
request_connects = refl

abbrev line : List ℕ
line = codes "POST /connect.json HTTP/1.1\r"

first_found : first_line request ≡ some (line, some headers)
unfolding first_line
first_found = refl

route_found : route_of line ≡ post_connect
unfolding route_of
route_found = refl

ssid_found : http_server_get_header headers ssid_header ≡ some (codes "home")
unfolding http_server_get_header
ssid_found = refl

password_found : http_server_get_header headers pwd_header ≡ some (codes "secret")
unfolding http_server_get_header
password_found = refl

boot-at_top : boot.place ≡ top
unfolding started
boot-at_top = refl

boot-offline : boot.bits.wifi_connected ≡ false
unfolding started
boot-offline = refl

abbrev page : Web flash
page = record { reg_info = record { name = replicate 64 0; email = replicate 254 0 }; world = boot }

http_server_netconn_serve-tried_example :
    (s' : Web flash) × ((http_server_netconn_serve env request >>= λ es. ask_all es page) ≡ some s')
    × (tried (main_step 3 clear_air s'.world)
        ≡ some (
            if boot.bits.request_wifi_disconnect
            then erased
            else asked_config (codes "home") (codes "secret")))
http_server_netconn_serve-tried_example =
    http_server_netconn_serve-tried flash 3 env clear_air request line headers (codes "home")
      (codes "secret") page first_found route_found ssid_found password_found (omega arith)
      (omega arith) boot-at_top boot-offline

abbrev form : List ℕ
form = codes "X-Custom-name: Ada\r\nX-Custom-email: a@b\r\nX-Custom-hidden: true\r\n\r\n"

abbrev sending : List ℕ
sending = codes "POST /register.json HTTP/1.1\r\n" ++ form

abbrev sending_line : List ℕ
sending_line = codes "POST /register.json HTTP/1.1\r"

form_found : first_line sending ≡ some (sending_line, some form)
unfolding first_line
form_found = refl

form-post_register : route_of sending_line ≡ post_register
unfolding route_of
form-post_register = refl

name_found : http_server_get_header form name_header ≡ some (codes "Ada")
unfolding http_server_get_header
name_found = refl

email_found : http_server_get_header form email_header ≡ some (codes "a@b")
unfolding http_server_get_header
email_found = refl

hidden_found : http_server_get_header form hidden_header ≡ some (codes "true")
unfolding http_server_get_header
hidden_found = refl

abbrev saved : flash.Store
saved = (save_reg_config flash (sent_info (codes "Ada") (codes "a@b")) page.world.store).1

form_saves :
    save_reg_config flash (sent_info (codes "Ada") (codes "a@b")) page.world.store ≡ (pos 0, saved)
unfolding save_reg_config
form_saves = refl

http_server_netconn_serve-registers_example :
    (s' : Web flash) × ((http_server_netconn_serve env sending >>= λ es. ask_all es page) ≡ some s')
    × (flash.get_blob s'.world.store Nvs.name 254 ≡ (pos 0, over_zeros 64 (codes "Ada")))
    × (flash.get_blob s'.world.store Nvs.email 254 ≡ (pos 0, over_zeros 254 (codes "a@b")))
    × ((respond env get_register headers >>= λ es. ask_all es s') ≡ none)
http_server_netconn_serve-registers_example =
    http_server_netconn_serve-registers env env sending sending_line form (codes "Ada")
      (codes "a@b") (codes "true") headers page saved form_found form-post_register name_found
      email_found hidden_found (omega arith) (omega arith) form_saves refl refl

abbrev filled : ServerEnv
filled = record env { ip_info = some (codes "{}"); reg_info = some (codes "{}") }
