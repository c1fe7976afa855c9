-- ===== src/Hdc.antt =====
-- main/hdc1080_if.c: the temperature and humidity sensor on the I2C bus, which is a parameter. The
-- values are doubles that the computation gets exactly: multiples of 2 ^ -16 below 2 ^ 24. They
-- stand here as whole numbers of 1 / 65536.
pub mod Readings
use airu_v2_fw.Base.{
  ℕ, ◌+◌, ◌-◌, ◌*◌, ◌/◌, ◌%◌, ◌≡◌, Bool, true, false, List, [], ◌∷◌, length, ltb, if◌then◌else◌,
  get_or,
}
use airu_v2_fw.Base.Int.{ℤ, pos, negsuc}
use airu_v2_fw.Nvs.{is_ok}

-- `HDC1080_DEV_ADDR`, `HDC1080_CONF_ADDR`, `HDC1080_TEMP_REG`, `HDC1080_CONF_COMB`
abbrev pub dev_addr : ℕ
dev_addr = 0x40

abbrev conf_addr : ℕ
conf_addr = 0x02

abbrev temp_reg : ℕ
temp_reg = 0x00

abbrev conf_comb : ℕ
conf_comb = 4096

-- What is put into a command link: `write_byte` has its acknowledgement checked, `read_byte` says
-- whether the master acknowledges.
pub data I2cCommand : Type 0 where
  start_bit stop_bit : I2cCommand
  write_byte : ℕ → I2cCommand
  read_byte : (acknowledged : Bool) → I2cCommand

-- `i2c_master_cmd_begin`: the error, and the bytes that were read, one for each `read_byte`.
pub record Bus : Type 1 where
  pub State : Type 0
  pub begin : List I2cCommand → State → ℤ × List ℕ × State

-- The address byte, with the bit for reading.
abbrev writing : ℕ
writing = dev_addr * 2

abbrev reading : ℕ
reading = dev_addr * 2 + 1

abbrev pub configuration : List I2cCommand
configuration =
    start_bit
    ∷ write_byte writing
    ∷ write_byte conf_addr
    ∷ write_byte (conf_comb / 256)
    ∷ write_byte (conf_comb % 256)
    ∷ stop_bit
    ∷ []

abbrev pub measurement : List I2cCommand
measurement = start_bit ∷ write_byte writing ∷ write_byte temp_reg ∷ stop_bit ∷ []

abbrev pub reading_out : List I2cCommand
reading_out =
    start_bit
    ∷ write_byte reading
    ∷ read_byte true
    ∷ read_byte true
    ∷ read_byte true
    ∷ read_byte false
    ∷ stop_bit
    ∷ []

-- `a - b` on whole numbers.
unfoldable pub minus : ℕ → ℕ → ℤ
minus a b = if ltb a b then negsuc (b - a - 1) else pos (a - b)

-- `((double)(data[0] * 256 + data[1]) / 0x10000) * 165 - 40`
unfoldable pub temperature : (high low : ℕ) → ℤ
unfolding minus
temperature high low = minus ((high * 256 + low) * 165) (40 * 65536)

-- `((double)(data[2] * 256 + data[3]) / 0x10000) * 100`
unfoldable pub humidity : (high low : ℕ) → ℕ
humidity high low = (high * 256 + low) * 100

module _ (i2c : Bus) where
  open i2c use {State, begin}

  -- The variables of the caller, the bus, and how many command links were made and not deleted.
  pub record Reading : Type 0 where
    pub temp : ℤ
    pub hum : ℕ
    pub links : ℕ
    pub state : State

  -- `HDC1080_Initialize`
  unfoldable pub hdc1080_initialize : Reading → ℤ × Reading
  hdc1080_initialize r =
      let (ret, _, s) = begin configuration r.state in (ret, record r { state = s })

  -- The second half of `HDC1080_Poll`.
  unfoldable pub read_out : Reading → ℤ × Reading
  read_out r =
      let (ret, data_bytes, s) = begin reading_out r.state in
      if is_ok ret
      then (
        ret,
        record r {
          state = s;
          temp = temperature (get_or data_bytes 0 0) (get_or data_bytes 1 0);
          hum = humidity (get_or data_bytes 2 0) (get_or data_bytes 3 0);
        },
      )
      else (ret, record r { state = s })

  -- `HDC1080_Poll`: a measurement that cannot be started returns before its link is deleted.
  unfoldable pub hdc1080_poll : Reading → ℤ × Reading
  hdc1080_poll r =
      let (ret, _, s) = begin measurement r.state in
      if is_ok ret
      then read_out (record r { state = s })
      else (ret, record r { links = r.links + 1; state = s })
