-- ===== src/Upload/Bounds.antt =====
-- `set_chunk_size` of main/http_file_upload.c: the sizes it sets, and the file names they suffice for.
use airu_v2_fw.Base.{
  ℕ, ◌+◌, ◌<◌, ◌≤◌, ◌≡◌, ◌⊎◌, List, [], arith, refl, length, length-append, codes,
}
use airu_v2_fw.Upload.{Sizes, set_chunk_size, min_size, body_header}

length-body_header :
    (fn_dst : List ℕ) → length (body_header fn_dst) ≡ length (body_header []) + length fn_dst
unfolding body_header
length-body_header fn_dst =
    omega (arith, length-append fn_dst (codes "\"\r\nContent-Type: text/csv\r\n\r\n"))

min_size_lem : min_size ≡ length (body_header []) + 61
unfolding min_size
min_size_lem = refl

-- Whatever chunk size is asked for, the sizes stay as they are where the heap has no room for the
-- least chunk; otherwise the chunk fits the heap, three of its bytes are spare, and every file name
-- on the server of at most 57 bytes leaves the body's header shorter than a chunk's data.
pub set_chunk_size-header :
    (heap chunk_size : ℕ) (old : Sizes) (fn_dst : List ℕ)
    → length fn_dst ≤ 57
    → ((heap < min_size) × (set_chunk_size heap chunk_size old ≡ old))
      ⊎ (((set_chunk_size heap chunk_size old).chunk_sz ≤ heap)
          × ((set_chunk_size heap chunk_size old).chunk_data_sz + 3
              ≡ (set_chunk_size heap chunk_size old).chunk_sz)
          × (length (body_header fn_dst) < (set_chunk_size heap chunk_size old).chunk_data_sz))
unfolding set_chunk_size
set_chunk_size-header heap chunk_size old fn_dst h =
    ground (arith, min_size_lem, length-body_header fn_dst)
