-- ===== src/Tests/Providers.antt =====
-- A run of `http_get_isp_info` of main/http_server_if.c: a response in three reads, and the message
-- about it.
use airu_v2_fw.Base.{
  ℕ, ◌≡◌, true, List, [], ◌∷◌, ◌++◌, some, codes, replicate, take, All, refl, arith,
}
use airu_v2_fw.Json.Buffer.{NoNul}
use airu_v2_fw.Upload.{esp_ok}
use airu_v2_fw.Server.Isp.{answered, http_get_isp_info, utc_text, digits}
use airu_v2_fw.Server.Reads.{joined, IsRead, NoBrace}
use airu_v2_fw.Server.Stamps.{provider_text}
use airu_v2_fw.Server.Provider.{Provides, whole, http_get_isp_info-Provides}
use airu_v2_fw.Mqtt.{publish, subscribe, below, ack_topic}
use airu_v2_fw.Mqtt.Provider.{connected_event, connected_event-provider_text}
use airu_v2_fw.Tests.Messages.{setup, fresh}

abbrev status_line : List ℕ
status_line = codes "HTTP/1.0 200 OK\r\nContent-Type: application/json; charset=utf-8"

abbrev rest_of_head : List ℕ
rest_of_head = codes "\r\nServer: ip-api\r\nContent-Length: 12\r\n\r\n"

abbrev body : List ℕ
body = codes "\"isp\":\"x\""

-- The last read has the end of the head too.
abbrev reads : List (List ℕ)
reads = status_line ∷ rest_of_head ∷ (b'{' ∷ take 4 body) ∷ codes "\":\"x\"}" ∷ []

reads-IsRead : All IsRead reads
reads-IsRead = ground arith

whole_response : joined reads ≡ (status_line ++ rest_of_head) ++ whole body b'}'
unfolding joined
whole_response = refl

head-NoBrace : NoBrace (status_line ++ rest_of_head)
head-NoBrace = ground arith

document-NoNul : NoNul (whole body b'}')
document-NoNul = ground arith

text_found : provider_text 7 64 (b'{' ∷ body) b'}' ≡ codes "{\"isp\":\"x\",\"utc\":\"7\"}"
unfolding provider_text utc_text digits
text_found = refl

http_get_isp_info-Provides_example :
    Provides esp_ok
      (provider_text 7 64 (b'{' ∷ body) b'}')
      (http_get_isp_info 7 64 (answered reads) (replicate 64 0xa5))
http_get_isp_info-Provides_example =
    http_get_isp_info-Provides 7 64 reads (status_line ++ rest_of_head) body b'}'
      (replicate 64 0xa5) reads-IsRead whole_response (omega arith) head-NoBrace document-NoNul
      (omega arith) refl

connected_event-provider_text_example :
    connected_event setup 7 (answered reads) (replicate 512 0xa5) fresh
    ≡ some (record fresh {
      client_connected = true;
      calls =
          publish fresh.client (ack_topic setup) (provider_text 7 512 (b'{' ∷ body) b'}')
          ∷ subscribe (below setup setup.device_mac)
          ∷ subscribe (below setup setup.all_topic)
          ∷ [];
    })
connected_event-provider_text_example =
    connected_event-provider_text setup 7 reads (status_line ++ rest_of_head) body b'}'
      (replicate 512 0xa5) fresh reads-IsRead whole_response (omega arith) head-NoBrace
      document-NoNul refl
