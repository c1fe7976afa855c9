-- ===== src/Pm/Frames.antt =====
-- What one data event of the UART task of main/pm_if.c does to the accumulator of the sensor.
use airu_v2_fw.Base.{
  ℕ, zero, suc, ◌+◌, ◌%◌, ◌^◌, ◌≤◌, ◌<◌, ◌≡◌, refl, arith, Bool, false, ◌&&◌, List, [], ◌∷◌, ◌++◌,
  if◌then◌else◌, ◌==◌, drop, length, Bool-cases, ==_iff, inl, inr,
}
use airu_v2_fw.Base.Float.{Floats}
use airu_v2_fw.Pm.{
  byte_at, word_at, sum_bytes, pm_checksum, Sensor, UartEvent, data_ready, get_packet_from_buffer,
  handle_event, run_events, add_sample,
}

-- The test of a frame on its own bytes.
abbrev pub is_frame : List ℕ → Bool
is_frame bytes = (byte_at bytes 0 == b'B' && byte_at bytes 1 == b'M') && pm_checksum bytes

byte_at_append :
    (bytes rest : List ℕ) (i : ℕ) → i < length bytes → byte_at (bytes ++ rest) i ≡ byte_at bytes i
byte_at_append [] rest i h = absurd (omega arith)
byte_at_append (b ∷ bytes) rest zero h = refl
byte_at_append (b ∷ bytes) rest (suc i) h = byte_at_append bytes rest i (omega arith)

sum_bytes_append :
    (n sum : ℕ) (bytes rest : List ℕ)
    → n ≤ length bytes
    → sum_bytes n sum (bytes ++ rest) ≡ sum_bytes n sum bytes
unfolding sum_bytes
sum_bytes_append zero sum bytes rest h = refl
sum_bytes_append (suc n) sum [] rest h = absurd (omega arith)
sum_bytes_append (suc n) sum (b ∷ bytes) rest h =
    sum_bytes_append n ((sum + b) % 2 ^ 16) bytes rest (omega arith)

pm_checksum_append :
    (bytes rest : List ℕ) → length bytes ≡ 24 → pm_checksum (bytes ++ rest) ≡ pm_checksum bytes
unfolding pm_checksum
pm_checksum_append bytes rest h =
    rw
      (
        sum_bytes_append 22 0 bytes rest (omega arith),
        byte_at_append bytes rest 22 (omega arith),
        byte_at_append bytes rest 23 (omega arith),
      )
      refl

module _ (fl : Floats) where
  frame_accum :
      (s : Sensor fl) (bytes rest : List ℕ)
      → length bytes ≡ 24
      → (get_packet_from_buffer fl (record s { buf = bytes ++ rest })).1.accum ≡ (
          if is_frame bytes
          then add_sample fl s.accum (word_at bytes 4) (word_at bytes 6) (word_at bytes 8)
          else s.accum)
  unfolding get_packet_from_buffer
  frame_accum s bytes rest h =
      rw
        (
          byte_at_append bytes rest 0 (omega arith),
          byte_at_append bytes rest 1 (omega arith),
          byte_at_append bytes rest 4 (omega arith),
          byte_at_append bytes rest 5 (omega arith),
          byte_at_append bytes rest 6 (omega arith),
          byte_at_append bytes rest 7 (omega arith),
          byte_at_append bytes rest 8 (omega arith),
          byte_at_append bytes rest 9 (omega arith),
          pm_checksum_append bytes rest h,
        )
        (ground arith)

  -- A data event takes one frame or nothing, and never empties the queue.
  pub data_accum :
      (s : Sensor fl) (size : ℕ) (bytes : List ℕ)
      → length bytes ≡ size
      → (handle_event fl (data_ready size bytes) s).1.accum ≡ (
          if size == 24 && is_frame bytes
          then add_sample fl s.accum (word_at bytes 4) (word_at bytes 6) (word_at bytes 8)
          else s.accum)
  unfolding handle_event
  data_accum s size bytes h = elim (Bool-cases (size == 24)) [
    | inl whole ↦
        rw whole (frame_accum s bytes (drop 24 s.buf) (omega (arith, (==_iff size 24).0 whole)))
    | inr short ↦ rw short refl
  ]

  data_keeps_queue :
      (s : Sensor fl) (size : ℕ) (bytes : List ℕ)
      → (handle_event fl (data_ready size bytes) s).0 ≡ false
  unfolding handle_event
  data_keeps_queue s size bytes = ground arith

  pub run_events-data :
      (es : List UartEvent) (s : Sensor fl) (size : ℕ) (bytes : List ℕ)
      → run_events fl (data_ready size bytes ∷ es) s
        ≡ run_events fl es (handle_event fl (data_ready size bytes) s).1
  unfolding run_events
  run_events-data es s size bytes = rw (data_keeps_queue s size bytes)
