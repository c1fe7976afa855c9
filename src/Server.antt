-- ===== src/Server.antt =====
-- main/http_server_if.c: the web server's answer to one request, `http_server_netconn_serve`. The
-- request is its bytes; what the server does is a list of effects, in order. An answer is the header
-- that is written and the document behind it. `none` is a write behind an array or a search in NULL.
pub mod Answers
pub mod Isp
pub mod Requests
pub mod Locking
pub mod Connects
pub mod Reads
pub mod Copies
pub mod Stamps
pub mod Provider
use airu_v2_fw.Base.{
  ℕ, zero, suc, ◌+◌, Bool, true, false, not, ◌&&◌, ◌||◌, List, [], ◌∷◌, ◌++◌, Option, none, some,
  ltb, leb, ◌==◌, if◌then◌else◌, length, get_or, codes,
}
use airu_v2_fw.Base.Memory.{◌>>=◌}

-- `strstr`, for a text with no NUL: what stands from the first place where the pattern starts.
abbrev pub starts_with : List ℕ → List ℕ → Bool
starts_with [] text = true
starts_with (_ ∷ _) [] = false
starts_with (p ∷ ps) (c ∷ cs) = p == c && starts_with ps cs

unfoldable pub strstr : List ℕ → List ℕ → Option (List ℕ)
strstr text [] = some text
strstr [] (_ ∷ _) = none
strstr (c ∷ cs) (p ∷ ps) =
    let rest = strstr cs (p ∷ ps) in if starts_with (p ∷ ps) (c ∷ cs) then some (c ∷ cs) else rest

abbrev pub is_some : {A : Type 0} → Option A → Bool
is_some none = false
is_some (some _) = true

-- `strstr(line, …)` as a condition.
abbrev pub contains : List ℕ → List ℕ → Bool
contains line pattern = is_some (strstr line pattern)

abbrev pub ends_value : ℕ → Bool
ends_value c = c == 0 || c == b'\n' || c == b'\r'

-- The loop of `http_server_get_header`.
pub header_value : List ℕ → List ℕ
header_value [] = []
header_value (c ∷ cs) = let rest = header_value cs in if ends_value c then [] else c ∷ rest

abbrev skip : ℕ → List ℕ → List ℕ
skip zero text = text
skip (suc n) [] = []
skip (suc n) (_ ∷ cs) = skip n cs

-- `http_server_get_header`: the first `len` bytes from the pointer that it returns.
unfoldable pub http_server_get_header : List ℕ → List ℕ → Option (List ℕ)
unfolding strstr header_value
http_server_get_header request header_name =
    strstr request header_name >>= λ found. some (header_value (skip (length header_name) found))

-- `strtok_r` at line ends: the first line, and what follows its end; the pointer to it is NULL where
-- the line has no end.
pub skip_newlines : List ℕ → List ℕ
skip_newlines [] = []
skip_newlines (c ∷ cs) = let rest = skip_newlines cs in if c == b'\n' then rest else c ∷ cs

pub split_line : List ℕ → List ℕ × Option (List ℕ)
split_line [] = ([], none)
split_line (c ∷ cs) =
    let rest = split_line cs in if c == b'\n' then ([], some cs) else (c ∷ rest.0, rest.1)

unfoldable pub first_line : List ℕ → Option (List ℕ × Option (List ℕ))
unfolding skip_newlines split_line
first_line text = elim (skip_newlines text) [ [] ↦ none | c ∷ cs ↦ some (split_line (c ∷ cs)) ]

-- The headers that the server writes, by their names in the source.
pub data Answer : Type 0 where
  html jquery js css ok_json unavailable bad_request not_found : Answer

-- What the server does for a request; `document` is the text of a JSON document.
pub data Effect : Type 0 where
  answer : Answer → Effect
  document : List ℕ → Effect
  unlock scan_request disconnect_request fetch_registration save_registration post_registration :
      Effect
  connect_request : (ssid password : List ℕ) → Effect
  set_registration : (name email : List ℕ) (hidden : Bool) → Effect

-- Whether the mutex is free, the documents, and whether the station is connected.
pub record ServerEnv : Type 0 where
  pub lockable : Bool
  pub ap_list : List ℕ
  pub ip_info : Option (List ℕ)
  pub reg_info : Option (List ℕ)
  pub connected : Bool

-- A document behind its answer, if the buffer is there.
abbrev send : Option (List ℕ) → List Effect
send none = answer unavailable ∷ []
send (some text) = answer ok_json ∷ document text ∷ unlock ∷ []

-- `POST /connect.json`, with the values of its two headers.
unfoldable pub connect : Option (List ℕ) → Option (List ℕ) → List Effect
connect none password = answer bad_request ∷ []
connect (some ssid) none = answer bad_request ∷ []
connect (some ssid) (some password) =
    if leb (length ssid) 32 && leb (length password) 64
    then connect_request ssid password ∷ answer ok_json ∷ []
    else answer bad_request ∷ []

-- A header's length, 0 without it.
abbrev pub length_of : Option (List ℕ) → ℕ
length_of none = 0
length_of (some value) = length value

abbrev pub is_too_long : Option (List ℕ) → Option (List ℕ) → Bool
is_too_long name email = ltb 64 (length_of name) || ltb 254 (length_of email)

-- The names of the headers that are read.
abbrev pub ssid_header : List ℕ
ssid_header = codes "x-custom-ssid: "

abbrev pub pwd_header : List ℕ
pwd_header = codes "x-custom-pwd: "

abbrev pub name_header : List ℕ
name_header = codes "X-Custom-name: "

abbrev pub email_header : List ℕ
email_header = codes "X-Custom-email: "

abbrev pub hidden_header : List ℕ
hidden_header = codes "X-Custom-hidden: "

-- Some of the three headers is missing.
abbrev incomplete : Option (List ℕ) → Option (List ℕ) → Option (List Effect)
incomplete name email =
    some (
      (if is_too_long name email then answer bad_request ∷ [] else []) ++ (answer bad_request ∷ []))

-- `POST /register.json`, with the values of its three headers; a value that is too long is answered,
-- and copied all the same.
unfoldable pub register :
    ServerEnv → Option (List ℕ) → Option (List ℕ) → Option (List ℕ) → Option (List Effect)
register e none email hidden = incomplete none email
register e (some name) none hidden = incomplete (some name) none
register e (some name) (some email) none = incomplete (some name) (some email)
register e (some name) (some email) (some hidden) =
    if is_too_long (some name) (some email)
    then none
    else some (
        set_registration name email (get_or hidden 0 0 == b't')
        ∷ save_registration
        ∷ answer ok_json
        ∷ (if e.connected then post_registration ∷ [] else []))

-- The requests that the server knows.
pub data Route : Type 0 where
  get_page get_jquery get_code get_ap get_style get_status get_register delete_connect : Route
  post_connect post_register unknown : Route

-- The chain of tests on the first line.
unfoldable pub route_of : List ℕ → Route
unfolding strstr
route_of line =
    if contains line (codes "GET / ")
    then get_page
    else if contains line (codes "GET /jquery.js ")
    then get_jquery
    else if contains line (codes "GET /code.js ")
    then get_code
    else if contains line (codes "GET /ap.json ")
    then get_ap
    else if contains line (codes "GET /style.css ")
    then get_style
    else if contains line (codes "GET /status.json ")
    then get_status
    else if contains line (codes "GET /register.json ")
    then get_register
    else if contains line (codes "DELETE /connect.json ")
    then delete_connect
    else if contains line (codes "POST /connect.json ")
    then post_connect
    else if contains line (codes "POST /register.json ")
    then post_register
    else unknown

-- The branches behind the tests.
unfoldable pub respond : ServerEnv → Route → List ℕ → Option (List Effect)
unfolding http_server_get_header connect register
respond e get_page headers = some (answer html ∷ [])
respond e get_jquery headers = some (answer jquery ∷ [])
respond e get_code headers = some (answer js ∷ [])
respond e get_ap headers = some (
    if e.lockable
    then answer ok_json ∷ document e.ap_list ∷ unlock ∷ scan_request ∷ []
    else answer unavailable ∷ scan_request ∷ [])
respond e get_style headers = some (answer css ∷ [])
respond e get_status headers = some (if e.lockable then send e.ip_info else answer unavailable ∷ [])
respond e get_register headers =
    some
      (if e.lockable then fetch_registration ∷ (send e.reg_info ++ (unlock ∷ [])) else unlock ∷ [])
respond e delete_connect headers = some (disconnect_request ∷ answer ok_json ∷ [])
respond e post_connect headers = some (
    connect (http_server_get_header headers ssid_header)
      (http_server_get_header headers pwd_header))
respond e post_register headers =
    register e (http_server_get_header headers name_header)
      (http_server_get_header headers email_header) (http_server_get_header headers hidden_header)
respond e unknown headers = some (answer bad_request ∷ [])

-- The branches that search the headers.
abbrev searches : Route → Bool
searches post_connect = true
searches post_register = true
searches _ = false

-- The branches, with the pointer to the headers.
unfoldable pub respond_at : ServerEnv → Route → Option (List ℕ) → Option (List Effect)
unfolding respond
respond_at e r (some headers) = respond e r headers
respond_at e r none = if searches r then none else respond e r []

-- `http_server_netconn_serve`, on the bytes that were received.
unfoldable pub http_server_netconn_serve : ServerEnv → List ℕ → Option (List Effect)
unfolding first_line route_of respond_at
http_server_netconn_serve e buf = elim (first_line buf) [
  | none ↦ some (answer not_found ∷ [])
  | some r ↦ respond_at e (route_of r.0) r.1
]
