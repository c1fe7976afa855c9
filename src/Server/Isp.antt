-- ===== src/Server/Isp.antt =====
-- main/http_server_if.c, `http_get_isp_info`: the document about the internet provider that is read
-- from a socket. `none` is a write outside the caller's array.
use airu_v2_fw.Base.{
  ℕ, zero, suc, ◌+◌, ◌-◌, ◌/◌, ◌%◌, ◌&&◌, ◌++◌, Bool, true, false, not, List, [], ◌∷◌, Option, none,
  some, leb, ltb, ◌==◌, if◌then◌else◌, length, codes,
}
use airu_v2_fw.Base.Int.{ℤ}
use airu_v2_fw.Base.Memory.{◌>>=◌, copy, store}
use airu_v2_fw.Json.Buffer.{strlen}
use airu_v2_fw.Upload.{fitted, esp_ok, esp_fail}

-- What the loop changes: `ii`, `waiting_for_json` and the caller's array.
pub record Copying : Type 0 where
  pub ii : ℕ
  pub waiting_for_json : Bool
  pub json_buf : List ℕ

-- The loop goes on, or it gave up with `json_buf` full.
pub data Progress : Type 0 where
  reading : Copying → Progress
  overflowed : List ℕ → Progress

-- The body of the inner loop up to its test for room.
unfoldable pub take_char : ℕ → Copying → Option Copying
take_char c s =
    if s.waiting_for_json && not (c == b'{')
    then some s
    else (store s.json_buf s.ii c >>= λ m.
        some (record { ii = s.ii + 1; waiting_for_json = false; json_buf = m }))

-- `json_buf[ii - 1] = '\0'`, where `ii` may be 0
unfoldable pub cut : Copying → Option (List ℕ)
cut s = elim s.ii [ zero ↦ none | suc i ↦ store s.json_buf i 0 ]

-- The inner loop over the bytes of one read.
unfoldable pub read_chars : (len : ℕ) → List ℕ → Copying → Option Progress
unfolding take_char cut
read_chars len [] s = some (reading s)
read_chars len (c ∷ cs) s = take_char c s >>= λ t. elim (leb len t.ii) [
  | true ↦ cut t >>= λ m. some (overflowed m)
  | false ↦ read_chars len cs t
]

-- The inner loop for the bytes of the next read, unless fewer than 100 were read in all.
unfoldable pub take_read : (len total : ℕ) → List ℕ → Copying → Option Progress
unfolding read_chars
take_read len total r s = if ltb total 100 then some (reading s) else read_chars len r s

-- The outer loop. A read gives no byte at the end of the response, at an error or after 5 seconds.
unfoldable pub read_response : (len total : ℕ) → List (List ℕ) → Copying → Option Progress
unfolding take_read
read_response len total [] s = some (reading s)
read_response len total ([] ∷ rs) s = some (reading s)
read_response len total ((c ∷ r) ∷ rs) s = take_read len (total + length (c ∷ r)) (c ∷ r) s >>= λ p.
    elim p [
      | overflowed m ↦ some (overflowed m)
      | reading t ↦ read_response len (total + length (c ∷ r)) rs t
    ]

-- `%lu` of a number of at most that many digits
unfoldable pub digits : (most : ℕ) → ℕ → List ℕ
digits zero n = []
digits (suc most) n =
    let higher = digits most (n / 10) in
    if ltb n 10 then (b'0' + n) ∷ [] else higher ++ ((b'0' + n % 10) ∷ [])

-- `",\"utc\":\"%lu\"}"`, of 32 bits
unfoldable pub utc_text : (now : ℕ) → List ℕ
unfolding digits
utc_text now = codes ",\"utc\":\"" ++ (digits 10 now ++ codes "\"}")

-- What follows the loop: the NUL, and the time over the last byte.
unfoldable pub add_time : (len now : ℕ) → Copying → Option (List ℕ)
unfolding utc_text
add_time len now s = store s.json_buf s.ii 0 >>= λ m. elim s.ii [
  | zero ↦ none
  | suc i ↦ copy m i (fitted (len - strlen m) (utc_text now))
]

-- How far the network lets the function come.
pub data Session : Type 0 where
  unresolved : (err : ℤ) → Session
  no_socket not_connected not_sent no_timeout : Session
  answered : (reads : List (List ℕ)) → Session

-- The calls that hand out or take back a resource.
pub data NetCall : Type 0 where
  getaddrinfo freeaddrinfo socket close : NetCall

-- The function's result, the array, and those calls in their order.
pub record IspResult : Type 0 where
  pub err : ℤ
  pub json_buf : List ℕ
  pub calls : List NetCall

abbrev pub result : ℤ → List NetCall → List ℕ → Option IspResult
result err calls m = some (record { err = err; json_buf = m; calls = calls })

abbrev pub all_calls : List NetCall
all_calls = getaddrinfo ∷ socket ∷ freeaddrinfo ∷ close ∷ []

-- `http_get_isp_info`; `now` is what `time` gives.
unfoldable pub http_get_isp_info : (now len : ℕ) → Session → List ℕ → Option IspResult
unfolding read_response add_time
http_get_isp_info now len (unresolved err) m = result err [] m
http_get_isp_info now len no_socket m = result esp_ok (getaddrinfo ∷ freeaddrinfo ∷ []) m
http_get_isp_info now len not_connected m =
    result esp_ok (getaddrinfo ∷ socket ∷ close ∷ freeaddrinfo ∷ []) m
http_get_isp_info now len not_sent m = result esp_ok all_calls m
http_get_isp_info now len no_timeout m = result esp_ok all_calls m
http_get_isp_info now len (answered reads) m =
    read_response len 0 reads (record { ii = 0; waiting_for_json = true; json_buf = m }) >>= λ p.
    elim p [
      | overflowed t ↦ result esp_fail all_calls t
      | reading s ↦ add_time len now s >>= λ t. result esp_ok all_calls t
    ]
