-- ===== src/AppUtils.antt =====
-- main/app_utils.c: the device's name from its address, the text of a digest, and the start of flash.
pub mod Hexadecimal
use airu_v2_fw.Base.{
  ℕ, zero, suc, ◌+◌, ◌-◌, ◌*◌, ◌/◌, ◌%◌, Bool, true, false, ◌||◌, List, [], ◌∷◌, ◌++◌, Option, none,
  some, ltb, ◌==◌, if◌then◌else◌,
}
use airu_v2_fw.Base.Memory.{◌>>=◌, copy, store}

-- A digit of `%x`, with `a` the code of its letters' first.
unfoldable pub hex_digit : (a : ℕ) → ℕ → ℕ
hex_digit a d = if ltb d 10 then b'0' + d else a + (d - 10)

-- `%02X`, or `%02x`, of a byte
unfoldable pub hex_byte : (a : ℕ) → ℕ → List ℕ
unfolding hex_digit
hex_byte a n = hex_digit a (n / 16) ∷ hex_digit a (n % 16) ∷ []

unfoldable pub hex_text : (a : ℕ) → List ℕ → List ℕ
hex_text a [] = []
hex_text a (n ∷ bytes) = hex_byte a n ++ hex_text a bytes

-- `APP_Setmac`: what it prints into `DEVICE_MAC`, the address being six bytes.
unfoldable pub app_setmac : (mac device_mac : List ℕ) → Option (List ℕ)
unfolding hex_text
app_setmac mac device_mac = copy device_mac 0 (hex_text b'A' mac ++ (0 ∷ []))

-- The loop of `print_sha256` from its byte `i`.
unfoldable pub print_bytes : (i : ℕ) → List ℕ → List ℕ → Option (List ℕ)
print_bytes i [] m = some m
print_bytes i (n ∷ bytes) m =
    copy m (i * 2) (hex_byte b'a' n ++ (0 ∷ [])) >>= λ m'. print_bytes (i + 1) bytes m'

-- `SHA256_HASH_LEN`
abbrev pub sha256_hash_len : ℕ
sha256_hash_len = 32

-- `print_sha256`: what is in `hash_print` when it is logged.
unfoldable pub print_sha256 : (image_hash hash_print : List ℕ) → Option (List ℕ)
unfolding print_bytes
print_sha256 image_hash hash_print =
    store hash_print (sha256_hash_len * 2) 0 >>= λ m. print_bytes 0 image_hash m

-- The errors for which flash is erased; the others are numbers too.
abbrev pub esp_err_nvs_no_free_pages : ℕ
esp_err_nvs_no_free_pages = 0x110d

abbrev pub esp_err_nvs_new_version_found : ℕ
esp_err_nvs_new_version_found = 0x1110

-- `nvs_flash_init` and `nvs_flash_erase`: the error, 0 for none, and the flash behind it.
pub record FlashDriver : Type 1 where
  pub Flash : Type 0
  pub init : Flash → ℕ × Flash
  pub erase_all : Flash → ℕ × Flash

module _ (fd : FlashDriver) where
  open fd use {Flash, init, erase_all}

  -- `ESP_ERROR_CHECK`: `none` is a restart.
  abbrev checked : ℕ × Flash → Option Flash
  checked (err, f) = if err == 0 then some f else none

  -- `APP_Initialize`, as far as flash is concerned.
  unfoldable pub app_initialize : Flash → Option Flash
  app_initialize f =
      let (err, g) = init f in
      if err == esp_err_nvs_no_free_pages || err == esp_err_nvs_new_version_found
      then (checked (erase_all g) >>= λ h. checked (init h))
      else checked (err, g)
