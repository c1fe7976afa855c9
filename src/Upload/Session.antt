-- ===== src/Upload/Session.antt =====
-- main/http_file_upload.c: a whole upload, `http_upload_file_from_sd`, from the results of
-- `http_init` and `http_connect` to the server's response. The buffers and the socket are freed on an
-- error, which is not part of the state. The response is its bytes.
use airu_v2_fw.Base.{
  ℕ, ◌+◌, ◌-◌, ◌*◌, Bool, ◌&&◌, ◌||◌, ◌==◌, List, [], ◌∷◌, ◌++◌, Option, some, leb, if◌then◌else◌,
  length, take, drop, codes,
}
use airu_v2_fw.Base.Int.{ℤ, pos, negsuc}
use airu_v2_fw.Upload.{
  esp_ok, esp_fail, is_all, is_esp_ok, Poster, write, http_write_body, boundary, ◌>=>◌,
}

-- `MULTIPART_REQUEST`
abbrev pub multipart_request : List ℕ
multipart_request =
    codes
      "POST http://192.168.1.169:80/ HTTP/1.0\r\nHost:192.168.1.169\r\nUser-Agent: esp-idf/3.0 esp32\r\nContent-Type:multipart/form-data; boundary="
    ++ (boundary ++ codes "\r\nTransfer-Encoding:chunked\r\n\r\n")

-- `http_write_request`
unfoldable pub http_write_request : Poster → Option (ℤ × Poster)
unfolding write
http_write_request p =
    let (r, p') = write p multipart_request in
    some (if is_all r (length multipart_request) then esp_ok else esp_fail, p')

-- The number of the digits at the start of a text, behind a number that was read.
unfoldable pub digits_value : ℕ → List ℕ → ℕ
digits_value n [] = n
digits_value n (c ∷ cs) =
    let rest = digits_value (n * 10 + (c - b'0')) cs in if leb b'0' c && leb c b'9' then rest else n

-- `isspace`
abbrev is_space : ℕ → Bool
is_space c = c == b' ' || (leb 9 c && leb c 13)

-- `atoi`: spaces, a sign, digits.
unfoldable pub atoi : List ℕ → ℤ
unfolding digits_value
atoi [] = pos 0
atoi (c ∷ cs) =
    let rest = atoi cs in
    if is_space c
    then rest
    else if c == b'-'
    then negated (digits_value 0 cs)
    else if c == b'+'
    then pos (digits_value 0 cs)
    else pos (digits_value 0 (c ∷ cs))
  where
    negated : ℕ → ℤ
    negated n = if n == 0 then pos 0 else negsuc (n - 1)

-- `read_http_response`: the three bytes behind the first nine.
unfoldable pub read_http_response : (timeout_set : Bool) → List ℕ → ℤ
unfolding atoi
read_http_response timeout_set response =
    if timeout_set then atoi (take 3 (drop 9 response)) else esp_fail

-- The end of `http_upload_file_from_sd`: the response, compared with `ESP_OK`.
unfoldable pub finish_upload : Bool → List ℕ → Poster → Option (ℤ × Poster)
unfolding read_http_response
finish_upload timeout_set response p =
    some (if is_esp_ok (read_http_response timeout_set response) then esp_ok else esp_fail, p)

-- `http_upload_file_from_sd`; an error of `http_init` is returned as it is, any other as `ESP_FAIL`.
unfoldable pub http_upload_file_from_sd :
    (chunk_data_sz fuel : ℕ) (init connect : ℤ) (fn_dst : List ℕ) (timeout_set : Bool)
    (response : List ℕ)
    → Poster
    → Option (ℤ × Poster)
unfolding http_write_request finish_upload
http_upload_file_from_sd n fuel init connect fn_dst timeout_set response p =
    if is_esp_ok init
    then (if is_esp_ok connect
        then (http_write_request p
            >=> http_write_body n fuel (length p.file) fn_dst
            >=> finish_upload timeout_set response)
        else some (esp_fail, p))
    else some (init, p)
