-- ===== src/Pm.antt =====
-- main/pm_if.c: the particulate matter sensor. A frame of 24 bytes comes over the UART, is checked
-- and added to an accumulator, which `PMS_Poll` averages and clears. The timer is modelled by
-- whether it runs; the UART and its queue by the events still waiting.
pub mod Checksum
pub mod Frames
pub mod Average
pub mod Corruption
use airu_v2_fw.Base.{
  ℕ, zero, suc, ◌+◌, ◌*◌, ◌%◌, ◌^◌, Bool, true, false, ◌&&◌, List, [], ◌∷◌, ◌++◌, ◌==◌,
  if◌then◌else◌, get_or, drop,
}
use airu_v2_fw.Base.Float.{Floats}
use airu_v2_fw.Base.Int.{ℤ, pos, negsuc}
use Prim.Native.Nat.{bit_or}

abbrev pub esp_ok : ℤ
esp_ok = pos 0

abbrev pub esp_fail : ℤ
esp_fail = negsuc 0

-- `pm_buf[i]`; the buffer has 144 bytes, and the frame is read from its first 24.
abbrev pub byte_at : List ℕ → ℕ → ℕ
byte_at buf i = get_or buf i 0

abbrev pub pm_pkt_len : ℕ
pm_pkt_len = 24

-- The loop of `pm_checksum`: `sum += pm_buf[i]` in `uint16_t`, over that many bytes.
pub sum_bytes : ℕ → ℕ → List ℕ → ℕ
sum_bytes zero sum buf = sum
sum_bytes (suc n) sum [] = sum
sum_bytes (suc n) sum (b ∷ buf) = sum_bytes n ((sum + b) % 2 ^ 16) buf

unfoldable pub pm_checksum : List ℕ → Bool
unfolding sum_bytes
pm_checksum buf = sum_bytes 22 0 buf == (byte_at buf 22 * 256 + byte_at buf 23) % 2 ^ 16

-- `(pm_buf[hi] << 8) | pm_buf[lo]`: the low byte fills bits that the shift left clear.
abbrev pub word_at : List ℕ → ℕ → ℕ
word_at buf hi = byte_at buf hi * 256 + byte_at buf (hi + 1)

-- `uart_event_t`. A data event tells its size; `bytes` is what `uart_read_bytes` then stores.
pub data UartEvent : Type 0 where
  data_ready : (size : ℕ) (bytes : List ℕ) → UartEvent
  fifo_ovf buffer_full line_break parity_err frame_err other : UartEvent

module _ (fl : Floats) where
  open fl use {Float, of_ℕ, minus_one, add, div_count}

  -- `pm_data_t`
  pub record PmData : Type 0 where
    pub sample_count : ℕ
    pub pm1 : Float
    pub pm2_5 : Float
    pub pm10 : Float

  -- The driver's variables.
  pub record Sensor : Type 0 where
    pub accum : PmData
    pub buf : List ℕ
    pub timer_runs : Bool

  -- `_pm_accum_rst`
  abbrev pub cleared : PmData
  cleared = record { sample_count = 0; pm1 = of_ℕ 0; pm2_5 = of_ℕ 0; pm10 = of_ℕ 0 }

  -- `vTimerCallback`: old samples are dropped.
  pub timer_callback : Sensor → Sensor
  timer_callback s = record s { timer_runs = false; accum = cleared }

  -- `PMS_Poll`: the averages, and the accumulator cleared; `-1` with no sample. The field
  -- `sample_count` of the caller's structure is not written.
  unfoldable pub pms_poll : Sensor → ℕ → (ℤ × PmData) × Sensor
  pms_poll s old_count =
      if s.accum.sample_count == 0
      then (
        (
          esp_fail,
          record { sample_count = old_count; pm1 = minus_one; pm2_5 = minus_one; pm10 = minus_one },
        ),
        s,
      )
      else (
        (
          esp_ok,
          record {
            sample_count = old_count;
            pm1 = div_count s.accum.pm1 s.accum.sample_count;
            pm2_5 = div_count s.accum.pm2_5 s.accum.sample_count;
            pm10 = div_count s.accum.pm10 s.accum.sample_count;
          },
        ),
        record s { accum = cleared },
      )

  -- `sample_count` is a `uint32_t`.
  abbrev pub add_sample : PmData → ℕ → ℕ → ℕ → PmData
  add_sample a x y z = record {
    sample_count = (a.sample_count + 1) % 2 ^ 32;
    pm1 = add a.pm1 (of_ℕ x);
    pm2_5 = add a.pm2_5 (of_ℕ y);
    pm10 = add a.pm10 (of_ℕ z);
  }

  -- `get_packet_from_buffer`: header, checksum, then the three words; the timer is restarted.
  unfoldable pub get_packet_from_buffer : Sensor → ℤ × Sensor
  get_packet_from_buffer s =
      if byte_at s.buf 0 == b'B' && byte_at s.buf 1 == b'M'
      then (if pm_checksum s.buf
          then (
            esp_ok,
            record s {
              accum = add_sample s.accum (word_at s.buf 4) (word_at s.buf 6) (word_at s.buf 8);
              timer_runs = true;
            },
          )
          else (esp_fail, s))
      else (esp_fail, s)

  -- `get_data_from_packet`, which nothing calls: it shifts by `sizeof(uint8_t)`, which is one bit.
  unfoldable pub get_data_from_packet : Sensor → List ℕ → ℤ × Sensor
  get_data_from_packet s packet = (
    esp_ok,
    record s {
      accum =
          add_sample s.accum (shifted (byte_at packet 4) (byte_at packet 5))
            (shifted (byte_at packet 6) (byte_at packet 7))
            (shifted (byte_at packet 8 * 256) (byte_at packet 9));
    },
  )
    where
      shifted : ℕ → ℕ → ℕ
      shifted high low = bit_or (high * 2 % 2 ^ 16) low

  -- One round of `uart_pm_event_mgr`: whether it empties the event queue, and the new variables.
  unfoldable pub handle_event : UartEvent → Sensor → Bool × Sensor
  handle_event (data_ready size bytes) s =
      if size == pm_pkt_len
      then (false, (get_packet_from_buffer (record s { buf = bytes ++ drop pm_pkt_len s.buf })).1)
      else (false, s)
  handle_event fifo_ovf s = (true, s)
  handle_event buffer_full s = (true, s)
  handle_event line_break s = (false, s)
  handle_event parity_err s = (false, s)
  handle_event frame_err s = (false, s)
  handle_event other s = (false, s)

  -- `uart_pm_event_mgr` on the events that are queued, until the queue is empty.
  unfoldable pub run_events : List UartEvent → Sensor → Sensor
  unfolding handle_event
  run_events [] s = s
  run_events (e ∷ queue) s =
      let (reset, s') = handle_event e s in
      let rest = run_events queue s' in if reset then s' else rest
