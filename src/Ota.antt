-- ===== src/Ota.antt =====
-- main/ota_if.c: the task that installs a firmware image. The partitions and the operations of
-- esp_ota_ops on them are a parameter, and so is what the HTTP client answers: the result of its
-- initialisation, of the connection, and what its reads return.
pub mod Writing
pub mod Install
use airu_v2_fw.Base.{
  ℕ, ◌≤◌, ◌≡◌, ◌≢◌, Bool, true, false, not, List, [], ◌++◌, length, codes, ltb, ◌==◌, if◌then◌else◌,
  Option, none, some,
}
use airu_v2_fw.Base.Int.{ℤ, pos, negsuc}
use airu_v2_fw.Nvs.{is_ok}

-- `esp_ota_ops.h`: an operation returns its code and the flash after it. Partitions and update
-- handles are numbers. The laws say what each operation leaves alone, what a write appends, and
-- which image is booted.
pub record OtaOps : Type 1 where
  pub Flash : Type 0
  pub boot_partition : Flash → ℕ
  pub running_partition : Flash → ℕ
  pub next_update_partition : Flash → ℕ
  pub image : Flash → ℕ → List ℕ
  pub ota_begin : ℕ → Flash → ℤ × ℕ × Flash
  pub ota_write : ℕ → List ℕ → Flash → ℤ × Flash
  pub ota_end : ℕ → Flash → ℤ × Flash
  pub check_identity : ℕ → ℕ → Flash → Bool
  pub set_boot_partition : ℕ → Flash → ℤ × Flash
  -- the partition that a handle writes to
  pub target : ℕ → Flash → ℕ
  pub begin-boot : (p : ℕ) (f : Flash) → boot_partition (ota_begin p f).2 ≡ boot_partition f
  pub write-boot :
      (h : ℕ) (b : List ℕ) (f : Flash) → boot_partition (ota_write h b f).1 ≡ boot_partition f
  pub end-boot : (h : ℕ) (f : Flash) → boot_partition (ota_end h f).1 ≡ boot_partition f
  pub set-boot :
      (p : ℕ) (f : Flash)
      → boot_partition (set_boot_partition p f).1
        ≡ (if is_ok (set_boot_partition p f).0 then p else boot_partition f)
  pub begin-target :
      (p : ℕ) (f : Flash)
      → is_ok (ota_begin p f).0 ≡ true
      → target (ota_begin p f).1 (ota_begin p f).2 ≡ p
  pub write-target : (h k : ℕ) (b : List ℕ) (f : Flash) → target k (ota_write h b f).1 ≡ target k f
  pub begin-image :
      (p : ℕ) (f : Flash) → is_ok (ota_begin p f).0 ≡ true → image (ota_begin p f).2 p ≡ []
  pub begin-image_ne : (p q : ℕ) (f : Flash) → p ≢ q → image (ota_begin p f).2 q ≡ image f q
  pub write-image :
      (h : ℕ) (b : List ℕ) (f : Flash)
      → is_ok (ota_write h b f).0 ≡ true
      → image (ota_write h b f).1 (target h f) ≡ image f (target h f) ++ b
  pub write-image_ne :
      (h q : ℕ) (b : List ℕ) (f : Flash) → target h f ≢ q → image (ota_write h b f).1 q ≡ image f q
  pub end-image : (h q : ℕ) (f : Flash) → image (ota_end h f).1 q ≡ image f q
  pub set-image : (p q : ℕ) (f : Flash) → image (set_boot_partition p f).1 q ≡ image f q

-- What successive calls of `esp_http_client_read` return: a part of the body; 0, when all is
-- received; or a negative number.
pub data Download : Type 0 where
  closed : Download
  lost : Download
  part : List ℕ → Download → Download

-- The answers of the HTTP client to one URL.
pub record HttpAnswers : Type 0 where
  pub initialised : Bool
  pub opened : ℤ
  pub body : Download

-- `OTA_FILE_BN_LEN`
abbrev pub ota_file_bn_len : ℕ
ota_file_bn_len = 64

abbrev pub esp_ok : ℤ
esp_ok = pos 0

abbrev pub esp_fail : ℤ
esp_fail = negsuc 0

-- The URL that is printed into `fn_path`.
unfoldable pub update_url : List ℕ → List ℕ
update_url basename = codes "http://air.eng.utah.edu:80/files/updates/" ++ basename

-- `ota_event_group` and `ota_file_basename`, up to its NUL
pub record Ota : Type 0 where
  pub triggered : Bool
  pub ota_file_basename : List ℕ

-- `ota_trigger`
unfoldable pub ota_trigger : Ota → Ota
ota_trigger o = record o { triggered = true }

-- `ota_set_filename`; the array holds 63 bytes and a NUL, and more than that is undefined
-- behaviour.
unfoldable pub ota_set_filename : List ℕ → Ota → Option Ota
ota_set_filename name o =
    if ltb (length name) ota_file_bn_len then some (record o { ota_file_basename = name }) else none

module _ (ops : OtaOps) where
  open ops use {
    Flash, running_partition, next_update_partition, ota_begin, ota_write, ota_end, check_identity,
    set_boot_partition,
  }

  -- How an update ended: the code, the flash, whether the client that was initialised has been
  -- cleaned up, and whether `esp_restart` is called.
  pub record Outcome : Type 0 where
    pub code : ℤ
    pub flash : Flash
    pub cleaned : Bool
    pub restarted : Bool

  abbrev pub failed : Bool → Flash → Outcome
  failed c f = record { code = esp_fail; flash = f; cleaned = c; restarted = false }

  -- The loop that writes what is received: whether it came to the end of the data.
  unfoldable pub write_received : ℕ → Download → Flash → Bool × Flash
  write_received h closed f = (true, f)
  write_received h lost f = (false, f)
  write_received h (part bytes rest) f =
      let w = ota_write h bytes f in
      let done = write_received h rest w.1 in
      if length bytes == 0 then (true, f) else (if is_ok w.0 then done else (false, w.1))

  -- From `esp_ota_end` to the restart.
  unfoldable pub finish_update : (handle partition : ℕ) → Flash → Outcome
  finish_update h p f =
      let e = ota_end h f in
      if is_ok e.0
      then (if check_identity (running_partition e.1) p e.1
          then failed false e.1
          else (let s = set_boot_partition p e.1 in
              if is_ok s.0
              then record { code = esp_ok; flash = s.1; cleaned = false; restarted = true }
              else failed true s.1))
      else failed true e.1

  -- From the result of `esp_ota_begin` on.
  unfoldable pub write_update : (partition : ℕ) → Download → ℤ × ℕ × Flash → Outcome
  unfolding write_received finish_update
  write_update p d b =
      if is_ok b.0
      then (let w = write_received b.1 d b.2 in
          if w.0 then finish_update b.1 p w.1 else failed true w.1)
      else failed true b.2

  -- `_ota_commence`, with what the HTTP client answers at each URL
  unfoldable pub ota_commence : List ℕ → (List ℕ → HttpAnswers) → Flash → Outcome
  unfolding write_update
  ota_commence basename server f =
      let answers = server (update_url basename) in
      if length basename == 0
      then failed true f
      else if not answers.initialised
      then failed true f
      else if not (is_ok answers.opened)
      then failed true f
      else (let p = next_update_partition f in write_update p answers.body (ota_begin p f))

  -- A round of `ota_task`: the wait takes the bit back; without the bit the task waits.
  unfoldable pub ota_round : (List ℕ → HttpAnswers) → Ota × Flash → Ota × Flash
  unfolding ota_commence
  ota_round server (o, f) =
      if o.triggered
      then (record o { triggered = false }, (ota_commence o.ota_file_basename server f).flash)
      else (o, f)
