-- ===== src/Sd.antt =====
-- main/sd_if.c: the files of the SD card. The file system is a parameter: what its operations
-- return, the card after them, and the contents that it then has for each path.
pub mod Dates
pub mod Packets
pub mod Logging
use airu_v2_fw.Base.{
  ℕ, ◌+◌, ◌/◌, ◌%◌, ◌<◌, ◌≡◌, ◌≢◌, Bool, true, false, not, ◌&&◌, List, [], ◌∷◌, ◌++◌, length, take,
  codes, ltb, ◌==◌, if◌then◌else◌, Option, none, some,
}
use airu_v2_fw.Base.Int.{ℤ, pos, negsuc}
use airu_v2_fw.Nvs.{is_ok}

abbrev pub is_some : Option (List ℕ) → Bool
is_some none = false
is_some (some _) = true

abbrev pub or_empty : Option (List ℕ) → List ℕ
or_empty none = []
or_empty (some b) = b

-- `stdio.h` and `sys/stat.h` on a mounted card: the contents of a path, or none if there is no such
-- file. Opening a path for appending creates the file; printing returns how many bytes were
-- written.
pub record FileSystem : Type 1 where
  pub Card : Type 0
  pub contents : Card → List ℕ → Option (List ℕ)
  pub open_append : List ℕ → Card → Option Card
  pub print : List ℕ → List ℕ → Card → ℕ × Card
  pub remove : List ℕ → Card → ℤ × Card
  pub rename : (old new : List ℕ) → Card → ℤ × Card
  pub open-contents :
      (n : List ℕ) (c d : Card)
      → open_append n c ≡ some d
      → contents d n ≡ some (or_empty (contents c n))
  pub open-contents_ne :
      (n k : List ℕ) (c d : Card) → open_append n c ≡ some d → n ≢ k → contents d k ≡ contents c k
  pub print-contents :
      (n b : List ℕ) (c : Card)
      → contents (print n b c).1 n ≡ some (or_empty (contents c n) ++ take (print n b c).0 b)
  pub print-contents_ne :
      (n k b : List ℕ) (c : Card) → n ≢ k → contents (print n b c).1 k ≡ contents c k

abbrev pub esp_ok : ℤ
esp_ok = pos 0

abbrev pub esp_fail : ℤ
esp_fail = negsuc 0

-- A date of three `uint8_t`.
pub record Date : Type 0 where
  pub year : ℕ
  pub month : ℕ
  pub day : ℕ

-- `%02d` of a number below 256
unfoldable pub two_digits : ℕ → List ℕ
two_digits n =
    (if ltb n 100 then [] else ((b'0' + n / 100) ∷ []))
    ++ ((b'0' + n / 10 % 10) ∷ (b'0' + n % 10) ∷ [])

-- The path that `sd_write_data` prints.
unfoldable pub file_name : Date → List ℕ
unfolding two_digits
file_name d =
    codes "/sdcard/"
    ++ (two_digits d.year
        ++ (b'-' ∷ (two_digits d.month ++ (b'-' ∷ (two_digits d.day ++ codes ".csv")))))

-- `SD_HDR`
unfoldable pub sd_hdr : List ℕ
sd_hdr =
    codes
      "time,ID,topic,SecActive,Altitude,Latitude,Longitude,PM1,PM2.5,PM10,Temperature,Humidity,CO,NO\n"

module _ (fs : FileSystem) where
  open fs use {Card, contents, open_append, print}

  -- `sd_write_data`
  unfoldable pub sd_write_data : (pkt : List ℕ) → Date → Card → ℤ × Card
  sd_write_data pkt date c =
      let filename = file_name date in
      let exists = is_some (contents c filename) in
      elim (open_append filename c) [
        | none ↦ (esp_fail, c)
        | some f ↦
            let headed = if exists then f else (print filename sd_hdr f).1 in
            (esp_ok, (print filename pkt headed).1)
      ]

-- `SD_FILENAME_LENGTH`
abbrev pub sd_filename_length : ℕ
sd_filename_length = 25

-- `sd_fopen`, with the result of `SD_Initialize` where the card is not mounted: the path that is
-- opened for reading. `snprintf` returns the length of the uncut path, and cuts what it writes.
unfoldable pub sd_fopen :
    (fs_mounted : Bool) (initialised : ℤ) (filename : List ℕ) → Option (List ℕ)
sd_fopen fs_mounted initialised filename =
    let path = codes "/sdcard/" ++ filename in
    if not fs_mounted && not (is_ok initialised)
    then none
    else if ltb sd_filename_length (length path)
    then none
    else some (take 24 path)
