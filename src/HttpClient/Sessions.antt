-- ===== src/HttpClient/Sessions.antt =====
-- main/http_client_if.c: how often an FTP session closes its socket.
use airu_v2_fw.Base.{ℕ, ◌+◌, ◌≡◌, true, List, [], ◌∷◌, leb, if◌then◌else◌, arith, refl, codes}
use airu_v2_fw.Upload.{esp_ok}
use airu_v2_fw.HttpClient.{Ftp, send, ftp_send_cmd, efail, judged, rcv, ftp_put}

-- The first byte that a call of `rcv` judges.
unfoldable pub judged_byte : Ftp → ℕ
judged_byte s = elim s.replies [
  | [] ↦ s.rx_first
  | r ∷ rest ↦ elim r [ [] ↦ s.rx_first | c ∷ _ ↦ c ]
]

abbrev pub refused : Ftp → ℕ
refused s = if leb b'4' (judged_byte s) then 1 else 0

rcv-closes : (s : Ftp) → s.sends ≡ [] → (rcv s).1.closes ≡ s.closes + refused s
unfolding rcv judged judged_byte efail send
rcv-closes s w = ground arith

rcv-sends : (s : Ftp) → s.sends ≡ [] → (rcv s).1.sends ≡ []
unfolding rcv judged efail send
rcv-sends s w = ground arith

ftp_send_cmd-sends : (cmd : List ℕ) (s : Ftp) → s.sends ≡ [] → (ftp_send_cmd cmd s).sends ≡ []
unfolding ftp_send_cmd send
ftp_send_cmd-sends cmd s w = ground arith

ftp_send_cmd-closes :
    (cmd : List ℕ) (s : Ftp) → s.sends ≡ [] → (ftp_send_cmd cmd s).closes ≡ s.closes
unfolding ftp_send_cmd send
ftp_send_cmd-closes cmd s w = ground arith

-- The state before each of the two replies.
abbrev pub user_sent : Ftp → Ftp
user_sent s = ftp_send_cmd (codes "USER becnel") s

abbrev pub pass_sent : Ftp → Ftp
pass_sent s = ftp_send_cmd (codes "PASS nitroT1") (rcv (user_sent s)).1

-- A session that connects, over a socket that sends whatever it is given, returns ESP_OK whatever the
-- replies, and closes its socket once, and once more for each reply whose first byte is 4 or above.
pub ftp_put-closes :
    (s : Ftp)
    → s.sends ≡ []
    → ((ftp_put true true s).0 ≡ esp_ok)
      × ((ftp_put true true s).1.closes
          ≡ s.closes + refused (user_sent s) + refused (pass_sent s) + 1)
unfolding ftp_put
ftp_put-closes s w = (
  refl,
  omega (
    arith,
    ftp_send_cmd-closes (codes "USER becnel") s w,
    rcv-closes (user_sent s) user_willing,
    ftp_send_cmd-closes (codes "PASS nitroT1") (rcv (user_sent s)).1 reply_willing,
    rcv-closes (pass_sent s)
        (ftp_send_cmd-sends (codes "PASS nitroT1") (rcv (user_sent s)).1 reply_willing),
  ),
)
  where
    user_willing : (user_sent s).sends ≡ []
    user_willing = ftp_send_cmd-sends (codes "USER becnel") s w

    reply_willing : (rcv (user_sent s)).1.sends ≡ []
    reply_willing = rcv-sends (user_sent s) user_willing
