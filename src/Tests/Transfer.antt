-- ===== src/Tests/Transfer.antt =====
-- Runs of main/http_file_upload.c.
use airu_v2_fw.Base.{
  ℕ, ◌+◌, ◌<◌, ◌≤◌, ◌≡◌, ◌⊎◌, List, [], ◌∷◌, refl, arith, length, replicate, codes,
}
use airu_v2_fw.Upload.{
  Poster, Sizes, http_write_body, set_chunk_size, min_size, body_header, size_line,
}
use airu_v2_fw.Upload.Request.{Delivers, http_write_body-Delivers}
use airu_v2_fw.Upload.Bounds.{set_chunk_size-header}

line_ends : codes "\r\n" ≡ 13 ∷ 10 ∷ []
line_ends = refl

size_lines : size_line 4093 ≡ codes "ffd\r\n"
unfolding size_line
size_lines = refl

-- A file of 300 bytes, in chunks of 200.
abbrev poster : Poster
poster = record {
  tx_buf = replicate 203 0;
  sz_buf = replicate 16 0;
  slen = 0;
  file = replicate 300 b'x';
  sent = codes "POST ";
  replies = [];
}

abbrev target : List ℕ
target = codes "AABBCCDDEEFF_log.csv"

target_fits : length (body_header target) < 200
unfolding body_header
target_fits = omega arith

http_write_body-Delivers_example :
    Delivers poster target (http_write_body 200 300 300 target poster)
http_write_body-Delivers_example =
    http_write_body-Delivers 200 300 target poster (omega arith)
      (record { willing = refl; size_sz = refl; size_tx = refl }) target_fits (omega arith)
      (omega arith)

abbrev unset : Sizes
unset = record { chunk_sz = 4096; chunk_data_sz = 0 }

abbrev chosen : Sizes
chosen = set_chunk_size 10000 4096 unset

set_chunk_size-header_example :
    ((10000 < min_size) × (chosen ≡ unset))
    ⊎ ((chosen.chunk_sz ≤ 10000)
        × (chosen.chunk_data_sz + 3 ≡ chosen.chunk_sz)
        × (length (body_header target) < chosen.chunk_data_sz))
set_chunk_size-header_example = set_chunk_size-header 10000 4096 unset target (omega arith)

chosen_sizes : chosen ≡ record { chunk_sz = 4096; chunk_data_sz = 4093 }
unfolding set_chunk_size
chosen_sizes = refl
