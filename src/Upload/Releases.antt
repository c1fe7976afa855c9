-- ===== src/Upload/Releases.antt =====
-- main/http_file_upload.c: an upload gives back what it holds if it fails, and only then.
use airu_v2_fw.Base.{
  ℕ, suc, ◌≡◌, ◌≢◌, Bool, true, false, not, ◌&&◌, ◌||◌, List, Option, none, some, if◌then◌else◌,
  arith, refl, Bool-cases, ltb, ◌==◌, length, Option-cases, inl, inr,
}
use airu_v2_fw.Base.Int.{ℤ, pos, negsuc, neg_part}
use airu_v2_fw.Base.Bytes.{c_string}
use airu_v2_fw.Sd.{sd_filename_length}
use airu_v2_fw.Upload.{is_esp_ok, Sizes}
use airu_v2_fw.Upload.Resources.{
  Owned, unused, in_use, given_back, Resources, Answers, release, http_post_cleanup, named,
  allocate_buffers, http_init, http_connect, send_body, given_up, or_give_up, check_response,
  exchange, http_upload_resources, tx_allocated, source_path,
}

abbrev pub is_in_use : Owned → Bool
is_in_use unused = false
is_in_use in_use = true
is_in_use given_back = false

-- After an upload without undefined behaviour: if it succeeded all four resources are in use, and
-- otherwise none is.
unfoldable pub is_settled : Option (ℤ × Resources) → Bool
is_settled none = false
is_settled (some (err, p)) =
    if is_esp_ok err
    then is_in_use p.tx_buf && (is_in_use p.sz_buf && (is_in_use p.sock && is_in_use p.fp))
    else not (is_in_use p.tx_buf || (is_in_use p.sz_buf || (is_in_use p.sock || is_in_use p.fp)))

-- The resources behind each step.
abbrev held : (tx sz sock fp : Owned) (src dst : List ℕ) → ℤ → Resources
held tx sz sock fp src dst size = record {
  tx_buf = tx;
  sz_buf = sz;
  sock = sock;
  fp = fp;
  fn_src = src;
  fn_dst = dst;
  st_size = size;
}

-- A resource that was not given back yet.
abbrev IsFresh : Owned → Type 0
IsFresh o = o ≢ given_back

given_up-is_settled :
    (err : ℤ) (p : Resources)
    → is_esp_ok err ≡ false
    → IsFresh p.tx_buf
    → IsFresh p.sz_buf
    → IsFresh p.sock
    → IsFresh p.fp
    → is_settled (given_up err p) ≡ true
unfolding http_post_cleanup is_settled release
given_up-is_settled err p e t z s f = ground arith

-- The exchange, from buffers that are there.
exchange-is_settled :
    (a : Answers) (src dst : List ℕ) (n : ℕ)
    → n ≢ 0
    → is_settled (exchange a (held in_use in_use unused unused src dst (pos n))) ≡ true
unfolding exchange or_give_up http_connect send_body check_response http_post_cleanup is_settled
    release
exchange-is_settled a src dst n h = ground arith

no_file-is_settled :
    (a : Answers) (old : Sizes) (fn_base : List ℕ)
    → a.stat (c_string (named fn_base).fn_src) ≡ none
    → is_settled (http_upload_resources a old fn_base) ≡ true
unfolding http_upload_resources http_init named http_post_cleanup is_settled release
no_file-is_settled a old fn_base e =
    elim (Bool-cases (ltb sd_filename_length (length (source_path fn_base)))) [
      | inl long ↦ rw long refl
      | inr short ↦ rw (short, e) refl
    ]

-- The rest of the upload, from the result of `http_init`.
abbrev from_init : Answers → ℤ × Resources → Option (ℤ × Resources)
from_init a r = if is_esp_ok r.0 then exchange a r.1 else given_up r.0 r.1

buffers-is_settled :
    (a : Answers) (old : Sizes) (src dst : List ℕ) (n : ℕ)
    → n ≢ 0
    → is_settled
        (from_init a (allocate_buffers a old (held unused unused unused unused src dst (pos n))))
      ≡ true
unfolding allocate_buffers http_post_cleanup is_settled release exchange
buffers-is_settled a old src dst n h = elim (Bool-cases (tx_allocated a old)) [
  | inr no_tx ↦ rw no_tx refl
  | inl tx ↦ elim (Bool-cases a.sz_given) [
    | inl sz ↦ rw (tx, sz) (exchange-is_settled a src dst n h)
    | inr no_sz ↦ rw (tx, no_sz) refl
  ]
]

file-is_settled :
    (a : Answers) (old : Sizes) (fn_base : List ℕ) (n : ℕ)
    → a.stat (c_string (named fn_base).fn_src) ≡ some (pos n)
    → is_settled (http_upload_resources a old fn_base) ≡ true
unfolding http_upload_resources http_init named http_post_cleanup is_settled release
file-is_settled a old fn_base n e =
    elim (Bool-cases (ltb sd_filename_length (length (source_path fn_base)))) [
      | inl long ↦ rw long refl
      | inr short ↦ elim (Bool-cases (n == 0)) [
        | inl empty ↦ rw (short, e, empty) refl
        | inr some_bytes ↦
            rw (short, e, some_bytes)
              (buffers-is_settled a old (named fn_base).fn_src (named fn_base).fn_dst n
                (λ z. ground arith))
      ]
    ]

-- Whatever the libraries answer, but for a negative size of the file, an upload gives no resource back
-- twice. One that fails, at whatever
-- step, holds none of its two buffers, its socket and its file at its end; one that succeeds still
-- holds all four.
pub http_upload_resources-is_settled :
    (a : Answers) (old : Sizes) (fn_base : List ℕ)
    → ((path : List ℕ) (size : ℤ) → a.stat path ≡ some size → neg_part size ≡ 0)
    → is_settled (http_upload_resources a old fn_base) ≡ true
http_upload_resources-is_settled a old fn_base h =
    let path = c_string (named fn_base).fn_src in
    elim (Option-cases (a.stat path)) [
      | inl e ↦ no_file-is_settled a old fn_base e
      | inr (pos n, e) ↦ file-is_settled a old fn_base n e
      | inr (negsuc n, e) ↦ absurd (suc-ne-zero (h path (negsuc n) e))
    ]
  where
    suc-ne-zero : {n : ℕ} → suc n ≡ 0 → ⊥
    suc-ne-zero e = omega arith
