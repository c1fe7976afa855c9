-- ===== src/Upload/Resources.antt =====
-- main/http_file_upload.c: what an upload allocates, opens and gives back: `http_init`,
-- `http_connect`, `http_post_cleanup` and the order in which `http_upload_file_from_sd` calls them.
-- The results of the calls of libraries are arguments; the bytes of the body are in Upload. `none` is
-- a second release of what was given back.
use airu_v2_fw.Base.{
  ℕ, Bool, true, false, ◌||◌, List, ◌++◌, Option, none, some, length, codes, ltb, ◌==◌,
  if◌then◌else◌,
}
use airu_v2_fw.Base.Int.{ℤ, pos, negsuc}
use airu_v2_fw.Base.Bytes.{c_string}
use airu_v2_fw.Base.Memory.{◌>>=◌}
use airu_v2_fw.Upload.{
  esp_ok, esp_fail, is_esp_ok, fitted, Sizes, set_chunk_size, server_filename_len,
}
use airu_v2_fw.Sd.{sd_filename_length}

abbrev pub no_sd_file_found : ℤ
no_sd_file_found = negsuc 1

abbrev pub zero_length_file : ℤ
zero_length_file = negsuc 2

-- One resource: its pointer or descriptor is still zero, or in use, or given back.
pub data Owned : Type 0 where
  unused in_use given_back : Owned

-- `tx_buf`, `sz_buf`, `sock`, `fp`, the texts `fn_src` and `fn_dst` and `st.st_size` of the poster.
pub record Resources : Type 0 where
  pub tx_buf : Owned
  pub sz_buf : Owned
  pub sock : Owned
  pub fp : Owned
  pub fn_src : List ℕ
  pub fn_dst : List ℕ
  pub st_size : ℤ

-- What the libraries answer: `stat` of a path, the largest free block and whether `malloc` gives the
-- memory, how far `http_connect` comes, and whether the parts of the exchange succeed.
pub record Answers : Type 0 where
  pub stat : List ℕ → Option ℤ
  pub heap : ℕ
  pub heap_later : ℕ
  pub tx_given : ℕ → Bool
  pub tx_given_later : ℕ → Bool
  pub sz_given : Bool
  pub resolved : Bool
  pub socket_given : Bool
  pub connected : Bool
  pub request_sent : Bool
  pub header_sent : Bool
  pub opened : Bool
  pub file_sent : Bool
  pub closer_sent : Bool
  pub response : ℤ

-- `free`, `close` or `fclose`
unfoldable pub release : Owned → Option Owned
release unused = some unused
release in_use = some given_back
release given_back = none

-- `http_post_cleanup`
unfoldable pub http_post_cleanup : Resources → Option Resources
unfolding release
http_post_cleanup p = release p.fp >>= λ f. release p.sock >>= λ s. release p.tx_buf >>= λ t.
    release p.sz_buf >>= λ z. some (record p { fp = f; sock = s; tx_buf = t; sz_buf = z })

abbrev pub source_path : List ℕ → List ℕ
source_path fn_base = codes "/sdcard/" ++ fn_base

abbrev pub server_name : List ℕ → List ℕ
server_name fn_base = codes "AABBCCDDEEFF_" ++ fn_base

-- The poster before `http_init`, and with the names set.
unfoldable pub named : List ℕ → Resources
named fn_base = record {
  tx_buf = unused;
  sz_buf = unused;
  sock = unused;
  fp = unused;
  fn_src = fitted sd_filename_length (source_path fn_base);
  fn_dst = fitted server_filename_len (server_name fn_base);
  st_size = pos 0;
}

-- The two attempts at the buffer for data, the second with all of the heap.
unfoldable pub tx_allocated : Answers → Sizes → Bool
tx_allocated a old =
    let sizes = set_chunk_size a.heap old.chunk_sz old in
    a.tx_given sizes.chunk_sz || a.tx_given_later (set_chunk_size a.heap_later 0 sizes).chunk_sz

-- The buffers.
unfoldable pub allocate_buffers : Answers → Sizes → Resources → ℤ × Resources
unfolding tx_allocated
allocate_buffers a old p =
    if tx_allocated a old
    then (if a.sz_given
        then (esp_ok, record p { tx_buf = in_use; sz_buf = in_use })
        else (esp_fail, record p { tx_buf = in_use }))
    else (esp_fail, p)

-- `st_size == 0`
abbrev is_zero : ℤ → Bool
is_zero (pos n) = n == 0
is_zero (negsuc _) = false

-- `flen <= 0`
abbrev is_bad_size : ℤ → Bool
is_bad_size (pos n) = n == 0
is_bad_size (negsuc _) = true

-- `http_init`: only a path that is longer than its array and its NUL is refused.
unfoldable pub http_init : Answers → Sizes → List ℕ → ℤ × Resources
unfolding named allocate_buffers
http_init a old fn_base =
    let p = named fn_base in
    if ltb sd_filename_length (length (source_path fn_base))
    then (esp_fail, p)
    else (elim (a.stat (c_string p.fn_src)) [
      | none ↦ (no_sd_file_found, p)
      | some size ↦
          let sized : Resources = record p { st_size = size } in
          if is_zero size then (zero_length_file, sized) else allocate_buffers a old sized
    ])

-- `http_connect`: a socket that does not connect is closed before the poster has it.
unfoldable pub http_connect : Answers → Resources → ℤ × Resources
http_connect a p =
    if a.resolved
    then (if a.socket_given
        then (if a.connected then (esp_ok, record p { sock = in_use }) else (esp_fail, p))
        else (esp_fail, p))
    else (esp_fail, p)

-- `http_write_body`, as far as it opens the file; `http_write_file_chunked` cleans up itself for a
-- size that is not positive.
unfoldable pub send_body : Answers → Resources → Option (ℤ × Resources)
unfolding http_post_cleanup
send_body a p =
    if a.header_sent
    then (if is_bad_size p.st_size
        then (http_post_cleanup p >>= λ q. some (esp_fail, q))
        else if a.opened
        then some (
          if a.file_sent then (if a.closer_sent then esp_ok else esp_fail) else esp_fail,
          record p { fp = in_use },
        )
        else some (esp_fail, p))
    else some (esp_fail, p)

-- An early return, with its code.
abbrev pub given_up : ℤ → Resources → Option (ℤ × Resources)
given_up err p = http_post_cleanup p >>= λ q. some (err, q)

-- A step of the upload: on an error it is given up.
unfoldable pub or_give_up :
    ℤ × Resources → (Resources → Option (ℤ × Resources)) → Option (ℤ × Resources)
or_give_up r next = if is_esp_ok r.0 then next r.1 else given_up esp_fail r.1

-- The end of the upload: the response.
unfoldable pub check_response : Answers → Resources → Option (ℤ × Resources)
unfolding or_give_up
check_response a p = or_give_up (a.response, p) λ q. some (esp_ok, q)

-- What follows `http_init`.
unfoldable pub exchange : Answers → Resources → Option (ℤ × Resources)
unfolding http_connect send_body or_give_up check_response
exchange a p = or_give_up (http_connect a p) λ q.
    or_give_up (if a.request_sent then esp_ok else esp_fail, q)
      λ q. send_body a q >>= λ r. or_give_up r (check_response a)

-- `http_upload_file_from_sd`
unfoldable pub http_upload_resources : Answers → Sizes → List ℕ → Option (ℤ × Resources)
unfolding http_init exchange
http_upload_resources a old fn_base =
    let r = http_init a old fn_base in if is_esp_ok r.0 then exchange a r.1 else given_up r.0 r.1
