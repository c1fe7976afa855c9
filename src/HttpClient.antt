-- ===== src/HttpClient.antt =====
-- main/http_client_if.c: the FTP session, and the POST requests of this file and of the web server's.
-- The peer is what its socket's next calls of `recv` give, where no byte stands for the end, an error
-- or a timeout; behind those it gives nothing.
pub mod Sessions
use airu_v2_fw.Base.{
  ℕ, ◌+◌, Bool, true, false, List, [], ◌∷◌, ◌++◌, Option, none, some, leb, if◌then◌else◌, codes,
}
use airu_v2_fw.Base.Int.{ℤ}
use airu_v2_fw.Upload.{esp_ok, esp_fail}

-- Calls of the HTTP client library.
pub data ClientCall : Type 0 where
  client_init : (url : List ℕ) → ClientCall
  set_method_post set_header perform cleanup : ClientCall
  set_post_field : List ℕ → ClientCall

-- `http_post_multipart`
abbrev http_post_multipart : List ClientCall
http_post_multipart =
    client_init (codes "http://httpbin.org/get")
    ∷ set_post_field (codes "field1=value1&field2=value2")
    ∷ perform
    ∷ cleanup
    ∷ []

-- `http_server_post_registration`, with the document of the registration if its buffer is there.
unfoldable pub http_server_post_registration : Option (List ℕ) → List ClientCall
http_server_post_registration none =
    client_init (codes "http://air.eng.utah.edu/dbapi/api/registerSensor") ∷ []
http_server_post_registration (some buff) =
    client_init (codes "http://air.eng.utah.edu/dbapi/api/registerSensor")
    ∷ set_method_post
    ∷ set_header
    ∷ set_post_field buff
    ∷ perform
    ∷ cleanup
    ∷ []

-- The command socket: what it will give, whether its next sends succeed (all, behind those), the
-- first byte of `rx_buffer`, what was sent, and how often it was closed. Newest sends first.
pub record Ftp : Type 0 where
  pub replies : List (List ℕ)
  pub sends : List Bool
  pub rx_first : ℕ
  pub sent : List (List ℕ)
  pub closes : ℕ

-- `send`, and whether it succeeds.
unfoldable pub send : List ℕ → Ftp → Bool × Ftp
send text s = elim s.sends [
  | [] ↦ (true, record s { sent = text ∷ s.sent })
  | ok ∷ rest ↦ (ok, record s { sends = rest; sent = if ok then text ∷ s.sent else s.sent })
]

-- `ftp_send_cmd`; its result is ignored.
unfoldable pub ftp_send_cmd : List ℕ → Ftp → Ftp
unfolding send
ftp_send_cmd cmd s = (send cmd s).1

-- The loops that receive until there is nothing: what the socket gives behind them.
unfoldable pub drained : List (List ℕ) → List (List ℕ)
drained [] = []
drained ([] ∷ rest) = rest
drained ((_ ∷ _) ∷ rest) = drained rest

-- The first byte of the last part that they receive.
unfoldable pub last_first : ℕ → List (List ℕ) → ℕ
last_first c [] = c
last_first c ([] ∷ rest) = c
last_first c ((d ∷ _) ∷ rest) = last_first d rest

-- `efail`
unfoldable pub efail : Ftp → Ftp
unfolding send drained
efail s =
    let r = send (codes "QUIT") s in
    if r.0 then record r.1 { replies = drained r.1.replies; closes = r.1.closes + 1 } else r.1

-- The code of a reply from its first byte.
unfoldable pub judged : ℕ → Ftp → ℤ × Ftp
unfolding efail
judged resp_code s = if leb b'4' resp_code then (esp_fail, efail s) else (esp_ok, s)

-- `rcv`: the first byte is looked at, and then all is received until there is nothing.
unfoldable pub rcv : Ftp → ℤ × Ftp
unfolding judged drained last_first
rcv s = elim s.replies [
  | [] ↦ judged s.rx_first s
  | r ∷ rest ↦ elim r [
    | [] ↦ judged s.rx_first (record s { replies = rest })
    | c ∷ _ ↦ judged c (record s { replies = drained s.replies; rx_first = last_first c s.replies })
  ]
]

-- `ftp_put`, with whether the socket is made and connects. The codes of the replies are only logged.
unfoldable pub ftp_put : (socket_given connected : Bool) → Ftp → ℤ × Ftp
unfolding ftp_send_cmd rcv
ftp_put false connected s = (esp_fail, s)
ftp_put true false s = (esp_fail, s)
ftp_put true true s =
    let user = (rcv (ftp_send_cmd (codes "USER becnel") s)).1 in
    let pass = (rcv (ftp_send_cmd (codes "PASS nitroT1") user)).1 in
    (esp_ok, record pass { closes = pass.closes + 1 })
