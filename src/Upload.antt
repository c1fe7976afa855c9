-- ===== src/Upload.antt =====
-- main/http_file_upload.c: a file goes to the server as the body of a POST in chunks. The buffers
-- are Base.Memory's, so a result is `none` if a write leaves a buffer. The socket is the bytes it
-- took, and what its next calls of `write` return; behind those it takes all bytes it is given.
pub mod Hex
pub mod Chunk
pub mod Body
pub mod Request
pub mod Bounds
pub mod Session
pub mod Resources
pub mod Releases
use airu_v2_fw.Base.{
  ℕ, zero, suc, ◌+◌, ◌-◌, ◌/◌, ◌%◌, Bool, true, false, not, List, [], ◌∷◌, ◌++◌, Option, none, some,
  ltb, ◌==◌, if◌then◌else◌, length, take, drop, codes,
}
use airu_v2_fw.Base.Int.{ℤ, pos, negsuc, pos_part}
use airu_v2_fw.Base.Memory.{◌>>=◌, copy}
use airu_v2_fw.Json.{hex_digit}

abbrev pub esp_ok : ℤ
esp_ok = pos 0

abbrev pub esp_fail : ℤ
esp_fail = negsuc 0

-- `BOUNDARY`
abbrev pub boundary : List ℕ
boundary = codes "-----z9Y6ivbmznZNE23n-----"

abbrev pub crlf : List ℕ
crlf = b'\r' ∷ b'\n' ∷ []

-- `MULTIPART_BODY_HEADER_TEMPLATE` with the file's name.
unfoldable pub body_header : List ℕ → List ℕ
body_header fn_dst =
    codes "--"
    ++ boundary
    ++ (codes "\r\nContent-Disposition: form-data; name=\"file\"; filename=\""
        ++ (fn_dst ++ codes "\"\r\nContent-Type: text/csv\r\n\r\n"))

-- `"--%s--\n\r"`
unfoldable pub body_closer : List ℕ
body_closer = codes "--" ++ boundary ++ codes "--\n\r"

-- `SERVER_FILENAME_LEN`
abbrev pub server_filename_len : ℕ
server_filename_len = 64

-- `min_size`; the template has two bytes more, for `%s`.
unfoldable pub min_size : ℕ
unfolding body_header
min_size = length (body_header []) + 2 + server_filename_len - 2 - 2 - 1

-- `CHUNK_SZ` and `CHUNK_DATA_SZ`
pub record Sizes : Type 0 where
  pub chunk_sz : ℕ
  pub chunk_data_sz : ℕ

abbrev up_to : ℕ → ℕ → ℕ
up_to heap chunk_size = if ltb heap chunk_size then heap else chunk_size

abbrev at_least : ℕ → ℕ → ℕ
at_least least chunk_size = if ltb chunk_size least then least else chunk_size

-- `set_chunk_size`, with the largest free block of the heap.
unfoldable pub set_chunk_size : (heap chunk_size : ℕ) → Sizes → Sizes
unfolding min_size
set_chunk_size heap chunk_size old =
    let wanted = up_to heap (if chunk_size == 0 then heap else chunk_size) in
    let size = at_least min_size wanted in
    if ltb heap min_size then old else record { chunk_sz = size; chunk_data_sz = size - 3 }

-- The digits of `%x`, in front of a text; the fuel is more than the number.
pub hex_onto : ℕ → ℕ → List ℕ → List ℕ
hex_onto zero n text = text
hex_onto (suc fuel) n text =
    if ltb n 16 then hex_digit n ∷ text else hex_onto fuel (n / 16) (hex_digit (n % 16) ∷ text)

-- `"%x\r\n"`
unfoldable pub size_line : ℕ → List ℕ
unfolding hex_onto
size_line n = hex_onto (n + 1) n crlf

-- What `snprintf(buf, size, …)` stores of a text.
abbrev pub fitted : ℕ → List ℕ → List ℕ
fitted zero text = []
fitted (suc n) text = take n text ++ (0 ∷ [])

-- `http_poster_t`, with the socket and what is unread of the file.
pub record Poster : Type 0 where
  pub tx_buf : List ℕ
  pub sz_buf : List ℕ
  pub slen : ℕ
  pub file : List ℕ
  pub sent : List ℕ
  pub replies : List ℤ

-- `write`
pub write : Poster → List ℕ → ℤ × Poster
write p bytes = elim p.replies [
  | [] ↦ (pos (length bytes), record p { sent = p.sent ++ bytes })
  | r ∷ rs ↦ (r, record p { sent = p.sent ++ take (pos_part r) bytes; replies = rs })
]

abbrev pub chunk_sz_str_len : ℕ
chunk_sz_str_len = 16

-- `r == n`
abbrev pub is_all : ℤ → ℕ → Bool
is_all (pos r) n = r == n
is_all (negsuc _) n = false

abbrev pub is_negative : ℤ → Bool
is_negative (pos _) = false
is_negative (negsuc _) = true

-- `_http_write_chunk_size`
unfoldable pub http_write_chunk_size : Poster → Option (ℤ × Poster)
unfolding write
http_write_chunk_size p =
    let line = size_line p.slen in
    copy p.sz_buf 0 (fitted chunk_sz_str_len line) >>= λ m.
    let (r, p') = write (record p { sz_buf = m }) (take (length line) m) in
    some (if is_all r (length line) then esp_ok else esp_fail, p')

-- `_http_write_chunk_data`
unfoldable pub http_write_chunk_data : Poster → Option (ℤ × Poster)
unfolding write
http_write_chunk_data p = copy p.tx_buf p.slen (crlf ++ (0 ∷ [])) >>= λ m.
    let slen' = p.slen + 2 in
    let (r, p') = write (record p { tx_buf = m; slen = slen' }) (take slen' m) in
    some (if is_negative r then (esp_fail, p') else (esp_ok, record p' { slen = 0 }))

abbrev pub is_esp_ok : ℤ → Bool
is_esp_ok (pos n) = n == 0
is_esp_ok (negsuc _) = false

-- The next call, unless there was an error.
infixl 5 ◌>=>◌
abbrev pub ◌>=>◌ : Option (ℤ × Poster) → (Poster → Option (ℤ × Poster)) → Option (ℤ × Poster)
o >=> f = o >>= λ r. if is_esp_ok r.0 then f r.1 else some r

unfoldable pub http_write_chunk : Poster → Option (ℤ × Poster)
unfolding http_write_chunk_size http_write_chunk_data
http_write_chunk p = http_write_chunk_size p >=> http_write_chunk_data

module _ (chunk_data_sz : ℕ) where
  -- `fread` into the buffer, and the NUL behind it.
  unfoldable pub read_part : Poster → Option Poster
  read_part p =
      let part = take chunk_data_sz p.file in
      copy p.tx_buf 0 (part ++ (0 ∷ [])) >>= λ m.
      some (record p { tx_buf = m; slen = length part; file = drop chunk_data_sz p.file })

  -- The loop of `http_write_file_chunked`; `none` also if it takes more rounds than `fuel`.
  pub write_parts : ℕ → (flen : ℕ) → Poster → Option (ℤ × Poster)
  unfolding read_part http_write_chunk
  write_parts zero flen p = none
  write_parts (suc fuel) flen p = read_part p >>= λ p1. http_write_chunk p1 >=> λ p2.
      let left = flen - p1.slen in
      let rest = write_parts fuel left p2 in if ltb 0 left then rest else some (esp_ok, p2)

  -- `http_write_file_chunked`, on a file that opens; `flen` is `st_size`.
  unfoldable pub http_write_file_chunked : ℕ → ℕ → Poster → Option (ℤ × Poster)
  unfolding write_parts
  http_write_file_chunked fuel flen p =
      if flen == 0 then some (esp_fail, p) else write_parts fuel flen p

  -- A text printed into the buffer, as a chunk.
  unfoldable pub print_chunk : List ℕ → Poster → Option (ℤ × Poster)
  unfolding http_write_chunk
  print_chunk text p = copy p.tx_buf 0 (fitted chunk_data_sz text) >>= λ m.
      http_write_chunk (record p { tx_buf = m; slen = length text })

  -- `_http_write_body_closer`
  unfoldable pub http_write_body_closer : Poster → Option (ℤ × Poster)
  unfolding print_chunk http_write_chunk
  http_write_body_closer p = print_chunk body_closer p >=> λ p1.
      copy p1.tx_buf 0 (0 ∷ []) >>= λ m. http_write_chunk (record p1 { tx_buf = m; slen = 0 })

  unfoldable pub http_write_body : ℕ → ℕ → List ℕ → Poster → Option (ℤ × Poster)
  unfolding print_chunk http_write_file_chunked http_write_body_closer
  http_write_body fuel flen fn_dst p =
      print_chunk (body_header fn_dst) p
      >=> http_write_file_chunked fuel flen
      >=> http_write_body_closer
