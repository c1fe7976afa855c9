-- ===== src/Upload/Body.antt =====
-- The body that main/http_file_upload.c sends is the chunked form of the header, the file and the
-- closing boundary.
use airu_v2_fw.Base.{
  ℕ, zero, suc, ◌+◌, ◌-◌, ◌^◌, ◌<◌, ◌≤◌, ◌≡◌, true, false, List, [], ◌∷◌, ◌++◌, Option, none, some,
  refl, sym, ap, subst, ◌∙◌, arith, ◌==◌, ltb, leb, if◌then◌else◌, length, take, drop, append_assoc,
  append-nil, length-append, length-drop, take-append, drop-append, take-append-drop, Bool-cases,
  inl, inr,
}
use airu_v2_fw.Base.Int.{ℤ}
use airu_v2_fw.Base.Memory.{◌>>=◌}
use airu_v2_fw.Upload.{
  esp_ok, crlf, size_line, Poster, http_write_chunk, read_part, write_parts, print_chunk,
}
use airu_v2_fw.Upload.Hex.{read_size, read_size-size_line}
use airu_v2_fw.Upload.Chunk.{chunk, chunk-Sends, take_all, fitted_lem, Holds, copy-Holds}

-- A reader of chunked bodies, written from RFC 7230: the bytes, and what follows the body.
abbrev skip_crlf : List ℕ → Option (List ℕ)
skip_crlf [] = none
skip_crlf (_ ∷ []) = none
skip_crlf (a ∷ b ∷ rest) = if a == b'\r' then (if b == b'\n' then some rest else none) else none

pub dechunk : ℕ → List ℕ → Option (List ℕ × List ℕ)
dechunk zero text = none
dechunk (suc fuel) text =
    let line = read_size 0 text in
    skip_crlf line.1 >>= λ body.
    if line.0 == 0
    then (skip_crlf body >>= λ rest. some ([], rest))
    else if leb line.0 (length body)
    then (skip_crlf (drop line.0 body) >>= λ rest.
        dechunk fuel rest >>= λ d. some (take line.0 body ++ d.0, d.1))
    else none

chunk_append :
    (bytes rest : List ℕ)
    → chunk bytes ++ rest ≡ size_line (length bytes) ++ (bytes ++ (crlf ++ rest))
unfolding chunk
chunk_append bytes rest =
    append_assoc (size_line (length bytes)) (bytes ++ crlf) rest
    ∙ ap (λ t. size_line (length bytes) ++ t) (append_assoc bytes crlf rest)

pub dechunk-chunk :
    (fuel : ℕ) (bytes rest d tail : List ℕ)
    → 0 < length bytes
    → dechunk fuel rest ≡ some (d, tail)
    → dechunk (suc fuel) (chunk bytes ++ rest) ≡ some (bytes ++ d, tail)
unfolding dechunk
dechunk-chunk fuel bytes rest d tail h e =
    ap (dechunk (suc fuel)) (chunk_append bytes rest)
    ∙ rw
        (
          read_size-size_line (length bytes) (bytes ++ (crlf ++ rest)),
          nonzero,
          fits,
          drop-append bytes (crlf ++ rest),
          take-append bytes (crlf ++ rest),
          e,
        )
        refl
  where
    nonzero : (length bytes == 0) ≡ false
    nonzero = ground arith

    fits : leb (length bytes) (length (bytes ++ (crlf ++ rest))) ≡ true
    fits = ground (arith, length-append bytes (crlf ++ rest))

pub dechunk-end : (rest : List ℕ) → dechunk 1 (chunk [] ++ rest) ≡ some ([], rest)
unfolding dechunk
dechunk-end rest =
    ap (dechunk 1) (chunk_append [] rest) ∙ rw (read_size-size_line 0 (crlf ++ rest)) refl

-- The chunks of a file, in parts of that size.
pub parts : ℕ → ℕ → List ℕ → List ℕ
parts zero n file = []
parts (suc k) n file =
    let rest = parts k n (drop n file) in
    chunk (take n file) ++ (if ltb 0 (length file - n) then rest else [])

length-take_le : (n : ℕ) (xs : List ℕ) → length (take n xs) ≤ n
length-take_le zero xs = omega arith
length-take_le (suc n) [] = omega arith
length-take_le (suc n) (x ∷ xs) = omega (arith, length-take_le n xs)

length-take : (n : ℕ) (xs : List ℕ) → length xs - length (take n xs) ≡ length xs - n
length-take zero xs = refl
length-take (suc n) [] = omega arith
length-take (suc n) (x ∷ xs) = omega (arith, length-take n xs)

pub dechunk-parts :
    (k n fuel : ℕ) (file rest d tail : List ℕ)
    → 0 < n
    → 0 < length file
    → length file ≤ k
    → dechunk fuel rest ≡ some (d, tail)
    → (j : ℕ) × (dechunk j (parts k n file ++ rest) ≡ some (file ++ d, tail))
unfolding parts
dechunk-parts zero n fuel file rest d tail hn hf hk e = absurd (omega arith)
dechunk-parts (suc k) n fuel file rest d tail hn hf hk e =
    elim (Bool-cases (ltb 0 (length file - n))) [
      | inl more ↦
          let (j, ih) =
            dechunk-parts k n fuel (drop n file) rest d tail hn (ground (arith, length-drop n file))
              (ground (arith, length-drop n file)) e in
          (
            suc j,
            rw more (
                ap (dechunk (suc j))
                  (append_assoc (chunk (take n file)) (parts k n (drop n file)) rest)
                ∙ dechunk-chunk j (take n file) (parts k n (drop n file) ++ rest) (drop n file ++ d)
                    tail (omega (arith, length-take n file)) ih
                ∙ ap (λ t. some (t, tail))
                    (sym (append_assoc (take n file) (drop n file) d)
                      ∙ ap (λ t. t ++ d) (take-append-drop n file))),
          )
      | inr last ↦ (
        suc fuel,
        rw (last, take_all n file (ground arith), append-nil (chunk file))
            (dechunk-chunk fuel file rest d tail hf e),
      )
    ]

drop_all : (n : ℕ) (xs : List ℕ) → length xs ≤ n → drop n xs ≡ []
drop_all zero [] h = refl
drop_all zero (x ∷ xs) h = absurd (omega arith)
drop_all (suc n) [] h = refl
drop_all (suc n) (x ∷ xs) h = drop_all n xs (omega arith)

-- A socket that takes all, and buffers of the sizes that `http_init` allocates.
pub record Ready (n : ℕ) (p : Poster) : Type 0 where
  pub willing : p.replies ≡ []
  pub size_sz : length p.sz_buf ≡ 16
  pub size_tx : length p.tx_buf ≡ n + 3

-- A call that succeeds, with all that the socket then has taken and what is left of the file.
pub record Sent (n : ℕ) (sent file : List ℕ) (o : Option (ℤ × Poster)) : Type 0 where
  pub after : Poster
  pub ok : o ≡ some (esp_ok, after)
  pub all_sent : after.sent ≡ sent
  pub file_left : after.file ≡ file
  pub ready : Ready n after

module _ (n : ℕ) (n_fits : n + 3 < 2 ^ 32) where
  pub held-Sent :
      (text : List ℕ) (p : Poster)
      → Ready n p
      → length text ≤ n
      → p.slen ≡ length text
      → Holds (n + 3) text p.tx_buf
      → Sent n (p.sent ++ chunk text) p.file (http_write_chunk p)
  held-Sent text p r h hs m =
      let s =
        chunk-Sends p text (0 ∷ m.behind) r.willing r.size_sz (omega arith) hs m.starts
          (omega (arith, ap length m.starts, length-append text (0 ∷ m.behind), r.size_tx)) in
      record {
        after = s.after;
        ok = s.ok;
        all_sent = s.sent;
        file_left = s.file_left;
        ready = record {
          willing = s.willing;
          size_sz = s.same_sz ∙ r.size_sz;
          size_tx = s.same_tx ∙ r.size_tx;
        };
      }

  pub print_chunk-Sent :
      (text : List ℕ) (p : Poster)
      → Ready n p
      → length text < n
      → Sent n (p.sent ++ chunk text) p.file (print_chunk n text p)
  unfolding print_chunk
  print_chunk-Sent text p r h =
      let (m, printed, held) = copy-Holds text p.tx_buf (omega (arith, r.size_tx)) in
      let p1 : Poster = record p { tx_buf = m; slen = length text } in
      rw (fitted_lem n text h, printed)
        (held-Sent text p1
          (record {
            willing = r.willing;
            size_sz = r.size_sz;
            size_tx = held.size_kept ∙ r.size_tx;
          })
          (omega arith) refl (subst (λ k. Holds k text m) r.size_tx held))

  pub write_parts-Sent :
      (fuel : ℕ) (p : Poster)
      → Ready n p
      → 0 < n
      → 0 < length p.file
      → length p.file ≤ fuel
      → Sent n (p.sent ++ parts fuel n p.file) [] (write_parts n fuel (length p.file) p)
  unfolding write_parts parts read_part
  write_parts-Sent zero p r hn hf hk = absurd (omega arith)
  write_parts-Sent (suc fuel) p r hn hf hk =
      let part = take n p.file in
      let (m, printed, held) =
        copy-Holds part p.tx_buf (omega (arith, r.size_tx, length-take_le n p.file)) in
      let p1 : Poster = record p { tx_buf = m; slen = length part; file = drop n p.file } in
      let s =
        held-Sent part p1
          (record {
            willing = r.willing;
            size_sz = r.size_sz;
            size_tx = held.size_kept ∙ r.size_tx;
          })
          (length-take_le n p.file) refl (subst (λ k. Holds k part m) r.size_tx held) in
      elim (Bool-cases (ltb 0 (length p.file - n))) [
        | inl more ↦
            let again =
              write_parts-Sent fuel s.after s.ready hn
                (ground (arith, length-drop n p.file, ap length s.file_left))
                (ground (arith, length-drop n p.file, ap length s.file_left)) in
            record {
              after = again.after;
              ok =
                  rw (printed, s.ok, length-take n p.file, more)
                    (ap (λ l. write_parts n fuel l s.after)
                        (omega (arith, length-drop n p.file, ap length s.file_left))
                      ∙ again.ok);
              all_sent = rw more (
                  again.all_sent
                  ∙ rw (s.all_sent, s.file_left)
                      (append_assoc p.sent (chunk part) (parts fuel n (drop n p.file))));
              file_left = again.file_left;
              ready = again.ready;
            }
        | inr last ↦ record {
          after = s.after;
          ok = rw (printed, s.ok, length-take n p.file, last) refl;
          all_sent = rw (last, append-nil (chunk part)) s.all_sent;
          file_left = s.file_left ∙ drop_all n p.file (ground arith);
          ready = s.ready;
        }
      ]
