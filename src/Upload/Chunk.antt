-- ===== src/Upload/Chunk.antt =====
-- `http_write_chunk` of main/http_file_upload.c puts one chunk of the standard's form on the socket.
use airu_v2_fw.Base.{
  ℕ, zero, suc, ◌+◌, ◌^◌, ◌<◌, ◌≤◌, ◌≡◌, List, [], ◌∷◌, ◌++◌, Option, some, refl, sym, ap, ◌∙◌,
  arith, ==_iff, length, take, drop, append_assoc, length-append, length-drop, take-append,
}
use airu_v2_fw.Base.Int.{ℤ}
use airu_v2_fw.Base.Memory.{copy, copy_append}
use airu_v2_fw.Upload.{
  esp_ok, crlf, size_line, Poster, write, fitted, http_write_chunk_size, http_write_chunk_data,
  http_write_chunk,
}
use airu_v2_fw.Upload.Hex.{length-size_line}

-- A chunk: its size in hexadecimal, its bytes.
unfoldable pub chunk : List ℕ → List ℕ
chunk bytes = size_line (length bytes) ++ (bytes ++ crlf)

-- What a call leaves: success, the bytes sent, and buffers of the same sizes.
pub record Sends (p : Poster) (bytes file : List ℕ) (o : Option (ℤ × Poster)) : Type 0 where
  pub after : Poster
  pub ok : o ≡ some (esp_ok, after)
  pub sent : after.sent ≡ p.sent ++ bytes
  pub same_tx : length after.tx_buf ≡ length p.tx_buf
  pub same_sz : length after.sz_buf ≡ length p.sz_buf
  pub willing : after.replies ≡ []
  pub file_left : after.file ≡ file

pub take_all : (n : ℕ) (xs : List ℕ) → length xs ≤ n → take n xs ≡ xs
take_all zero [] h = refl
take_all (suc n) [] h = refl
take_all zero (x ∷ xs) h = absurd (omega arith)
take_all (suc n) (x ∷ xs) h = ap (◌∷◌ x) (take_all n xs (omega arith))

pub fitted_lem :
    (size : ℕ) (text : List ℕ) → length text < size → fitted size text ≡ text ++ (0 ∷ [])
fitted_lem zero text h = absurd (omega arith)
fitted_lem (suc n) text h = ap (λ t. t ++ (0 ∷ [])) (take_all n text (omega arith))

-- A buffer that starts with a text and a NUL, of a given size.
pub record Holds (size : ℕ) (text m : List ℕ) : Type 0 where
  pub behind : List ℕ
  pub starts : m ≡ text ++ (0 ∷ behind)
  pub size_kept : length m ≡ size

-- Printing a text into a buffer that has room for it and its NUL.
pub copy-Holds :
    (text m : List ℕ)
    → length text < length m
    → (m' : List ℕ) × (copy m 0 (text ++ (0 ∷ [])) ≡ some m') × Holds (length m) text m'
copy-Holds text m h = (
  (text ++ (0 ∷ [])) ++ rest,
  copy_append (text ++ (0 ∷ [])) [] m 0 refl (omega (arith, length-append text (0 ∷ []))),
  record {
    behind = rest;
    starts = append_assoc text (0 ∷ []) rest;
    size_kept = omega (
      arith,
      length-append (text ++ (0 ∷ [])) rest,
      length-append text (0 ∷ []),
      length-drop (length (text ++ (0 ∷ []))) m,
    );
  },
)
  where
    rest : List ℕ
    rest = drop (length (text ++ (0 ∷ []))) m

pub take-Holds : (size : ℕ) (text m : List ℕ) → Holds size text m → take (length text) m ≡ text
take-Holds size text m h = rw h.starts (take-append text (0 ∷ h.behind))

size-Sends :
    (p : Poster)
    → p.replies ≡ []
    → length p.sz_buf ≡ 16
    → p.slen < 2 ^ 32
    → (z : List ℕ) × (length z ≡ 16)
      × (http_write_chunk_size p
          ≡ some (esp_ok, record p { sz_buf = z; sent = p.sent ++ size_line p.slen }))
unfolding http_write_chunk_size write
size-Sends p w hz hs =
    let line = size_line p.slen in
    let (z, printed, held) = copy-Holds line p.sz_buf (omega (arith, length-size_line p.slen hs)) in
    (
      z,
      omega (arith, held.size_kept),
      rw
          (
            fitted_lem 16 line (omega (arith, length-size_line p.slen hs)),
            printed,
            take-Holds (length p.sz_buf) line z held,
            w,
            (==_iff (length line) (length line)).1 refl,
          )
          refl,
    )

take-crlf :
    (bytes rest : List ℕ) → take (length bytes + 2) (bytes ++ (crlf ++ rest)) ≡ bytes ++ crlf
take-crlf [] rest = refl
take-crlf (b ∷ bytes) rest =
    ap (λ n. take n (b ∷ (bytes ++ (crlf ++ rest)))) {y = suc (length bytes + 2)} (omega arith)
    ∙ ap (◌∷◌ b) (take-crlf bytes rest)

data-Sends :
    (p : Poster) (bytes behind : List ℕ)
    → p.replies ≡ []
    → p.slen ≡ length bytes
    → p.tx_buf ≡ bytes ++ behind
    → 3 ≤ length behind
    → (t : List ℕ) × (length t ≡ length p.tx_buf)
      × (http_write_chunk_data p
          ≡ some (esp_ok, record p { tx_buf = t; slen = 0; sent = p.sent ++ (bytes ++ crlf) }))
unfolding http_write_chunk_data write
data-Sends p bytes behind w hs ht room = (
  bytes ++ (crlf ++ (0 ∷ drop 3 behind)),
  omega (
    arith,
    length-append bytes (crlf ++ (0 ∷ drop 3 behind)),
    length-append bytes behind,
    length-drop 3 behind,
    ap length ht,
  ),
  rw
      (
        ht,
        hs,
        copy_append (crlf ++ (0 ∷ [])) bytes behind (length bytes) refl room,
        take-crlf bytes (0 ∷ drop 3 behind),
        w,
      )
      refl,
)

-- A chunk whose text stands in the buffer goes out whole.
pub chunk-Sends :
    (p : Poster) (bytes behind : List ℕ)
    → p.replies ≡ []
    → length p.sz_buf ≡ 16
    → length bytes < 2 ^ 32
    → p.slen ≡ length bytes
    → p.tx_buf ≡ bytes ++ behind
    → 3 ≤ length behind
    → Sends p (chunk bytes) p.file (http_write_chunk p)
unfolding http_write_chunk chunk
chunk-Sends p bytes behind w hz hl hs ht room =
    let (z, zl, first) = size-Sends p w hz (omega arith) in
    let p1 : Poster = record p { sz_buf = z; sent = p.sent ++ size_line p.slen } in
    let (t, tl, second) = data-Sends p1 bytes behind w hs ht room in
    record {
      after = record p1 {
        tx_buf = t;
        slen = 0;
        sent = (p.sent ++ size_line p.slen) ++ (bytes ++ crlf);
      };
      ok = rw first second;
      sent =
          append_assoc p.sent (size_line p.slen) (bytes ++ crlf)
          ∙ ap (λ n. p.sent ++ (size_line n ++ (bytes ++ crlf))) hs;
      same_tx = tl;
      same_sz = zl ∙ sym hz;
      willing = w;
      file_left = refl;
    }
