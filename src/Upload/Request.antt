-- ===== src/Upload/Request.antt =====
-- `http_write_body` of main/http_file_upload.c: what the server reads of a whole upload.
use airu_v2_fw.Base.{
  ℕ, suc, ◌+◌, ◌^◌, ◌<◌, ◌≤◌, ◌≡◌, false, List, [], ◌++◌, Option, some, refl, sym, ap, subst, ◌∙◌,
  arith, ◌==◌, length, append_assoc, append-nil, length-append, codes,
}
use airu_v2_fw.Base.Int.{ℤ}
use airu_v2_fw.Upload.{
  esp_ok, Poster, write_parts, http_write_file_chunked, http_write_body_closer, http_write_body,
  body_header, body_closer,
}
use airu_v2_fw.Upload.Chunk.{chunk, Holds, copy-Holds}
use airu_v2_fw.Upload.Body.{
  dechunk, dechunk-chunk, dechunk-end, dechunk-parts, parts, Ready, Sent, held-Sent,
  print_chunk-Sent, write_parts-Sent,
}

closer-some : 0 < length body_closer
unfolding body_closer
closer-some = omega arith

header-some : (fn_dst : List ℕ) → 0 < length (body_header fn_dst)
unfolding body_header
header-some fn_dst = omega arith

-- The header alone is longer than the closing boundary.
closer-lt-header : (fn_dst : List ℕ) → length body_closer < length (body_header fn_dst)
unfolding body_closer body_header
closer-lt-header fn_dst =
    omega (arith, length-append fn_dst (codes "\"\r\nContent-Type: text/csv\r\n\r\n"))

module _ (n : ℕ) (n_fits : n + 3 < 2 ^ 32) where
  http_write_body_closer-Sent :
      (p : Poster)
      → Ready n p
      → length body_closer < n
      → Sent n (p.sent ++ (chunk body_closer ++ chunk [])) p.file (http_write_body_closer n p)
  unfolding http_write_body_closer
  http_write_body_closer-Sent p r h =
      let s = print_chunk-Sent n n_fits body_closer p r h in
      let (m, printed, held) = copy-Holds [] s.after.tx_buf (omega (arith, s.ready.size_tx)) in
      let p1 : Poster = record s.after { tx_buf = m; slen = 0 } in
      let e =
        held-Sent n n_fits [] p1
          (record {
            willing = s.ready.willing;
            size_sz = s.ready.size_sz;
            size_tx = held.size_kept ∙ s.ready.size_tx;
          })
          (omega arith) refl (subst (λ k. Holds k [] m) s.ready.size_tx held) in
      record {
        after = e.after;
        ok = rw (s.ok, printed) e.ok;
        all_sent =
            e.all_sent
            ∙ ap (λ t. t ++ chunk []) s.all_sent
            ∙ append_assoc p.sent (chunk body_closer) (chunk []);
        file_left = e.file_left ∙ s.file_left;
        ready = e.ready;
      }

  -- What the socket takes of an upload.
  wire : ℕ → List ℕ → List ℕ → List ℕ
  wire fuel fn_dst file =
      chunk (body_header fn_dst) ++ (parts fuel n file ++ (chunk body_closer ++ chunk []))

  dechunk-wire :
      (fuel : ℕ) (fn_dst file : List ℕ)
      → 0 < n
      → 0 < length file
      → length file ≤ fuel
      → (j : ℕ) × (dechunk j (wire fuel fn_dst file)
          ≡ some (body_header fn_dst ++ (file ++ body_closer), []))
  unfolding wire
  dechunk-wire fuel fn_dst file hn hf hk =
      let (j, e) =
        dechunk-parts fuel n 2 file (chunk body_closer ++ chunk []) body_closer [] hn hf hk (
          dechunk-chunk 1 body_closer (chunk []) [] [] closer-some
            (ap (dechunk 1) (sym (append-nil (chunk []))) ∙ dechunk-end [])
          ∙ ap (λ t. some (t, [])) (append-nil body_closer)) in
      (
        suc j,
        dechunk-chunk j (body_header fn_dst) _ (file ++ body_closer) [] (header-some fn_dst) e,
      )

  http_write_body-Sent :
      (fuel : ℕ) (fn_dst : List ℕ) (p : Poster)
      → Ready n p
      → length (body_header fn_dst) < n
      → length body_closer < n
      → 0 < length p.file
      → length p.file ≤ fuel
      → Sent n
          (p.sent ++ wire fuel fn_dst p.file)
          []
          (http_write_body n fuel (length p.file) fn_dst p)
  unfolding http_write_body http_write_file_chunked wire
  http_write_body-Sent fuel fn_dst p r hh hc hf hk =
      let s1 = print_chunk-Sent n n_fits (body_header fn_dst) p r hh in
      let s2 =
        write_parts-Sent n n_fits fuel s1.after s1.ready (omega arith)
          (omega (arith, ap length s1.file_left)) (omega (arith, ap length s1.file_left)) in
      let s3 = http_write_body_closer-Sent s2.after s2.ready hc in
      let parts_ok : write_parts n fuel (length p.file) s1.after ≡ some (esp_ok, s2.after) =
        ap (λ l. write_parts n fuel l s1.after) (sym (ap length s1.file_left)) ∙ s2.ok in
      let nonzero : (length p.file == 0) ≡ false = ground arith in
      let header = chunk (body_header fn_dst) in
      let body = parts fuel n p.file in
      let rest = chunk body_closer ++ chunk [] in
      record {
        after = s3.after;
        ok = rw (s1.ok, nonzero, parts_ok) s3.ok;
        all_sent =
            s3.all_sent
            ∙ rw (s2.all_sent, s1.all_sent, s1.file_left)
                (append_assoc (p.sent ++ header) body rest
                  ∙ append_assoc p.sent header (body ++ rest));
        file_left = s3.file_left ∙ s2.file_left;
        ready = s3.ready;
      }

-- The call succeeds, and the server reads the header, the file and the boundary.
pub record Delivers (p : Poster) (fn_dst : List ℕ) (o : Option (ℤ × Poster)) : Type 0 where
  pub after : Poster
  pub ok : o ≡ some (esp_ok, after)
  pub body : List ℕ
  pub all_sent : after.sent ≡ p.sent ++ body
  pub chunks : ℕ
  pub reads : dechunk chunks body ≡ some (body_header fn_dst ++ (p.file ++ body_closer), [])
  pub no_rest : after.file ≡ []

-- An upload, over buffers of the sizes that `http_init` allocates, to a socket that takes all, with
-- room for the header in a chunk: it succeeds, no write leaves a buffer, and what it sends reads
-- back, by the standard's chunked form, as the header, the whole file and the closing boundary, with
-- nothing behind them.
pub http_write_body-Delivers :
    (n fuel : ℕ) (fn_dst : List ℕ) (p : Poster)
    → n + 3 < 2 ^ 32
    → Ready n p
    → length (body_header fn_dst) < n
    → 0 < length p.file
    → length p.file ≤ fuel
    → Delivers p fn_dst (http_write_body n fuel (length p.file) fn_dst p)
http_write_body-Delivers n fuel fn_dst p n_fits r hh hf hk =
    let s =
      http_write_body-Sent n n_fits fuel fn_dst p r hh (omega (arith, closer-lt-header fn_dst)) hf
        hk in
    let (j, e) = dechunk-wire n n_fits fuel fn_dst p.file (omega arith) hf hk in
    record {
      after = s.after;
      ok = s.ok;
      body = wire n n_fits fuel fn_dst p.file;
      all_sent = s.all_sent;
      chunks = j;
      reads = e;
      no_rest = s.file_left;
    }
