-- ===== src/Tests/Sensors.antt =====
-- Runs of main/pm_if.c.
use airu_v2_fw.Base.{
  ℕ, ◌+◌, true, false, List, [], ◌∷◌, ◌++◌, ◌≡◌, ◌≢◌, refl, arith, replicate, set, All,
}
use airu_v2_fw.Base.Int.{ℤ, pos, negsuc, pos_part}
use airu_v2_fw.Base.Float.{Floats}
use airu_v2_fw.Pm.{
  UartEvent, data_ready, line_break, Sensor, cleared, pms_poll, run_events, pm_checksum,
}
use airu_v2_fw.Pm.Checksum.{AllBytes}
use airu_v2_fw.Pm.Corruption.{pm_checksum-set}
use airu_v2_fw.Pm.Average.{readings, FillsBuffer, Fits, pms_poll_average}

-- Floats as fractions.
abbrev pub fractions : Floats
fractions = record {
  Float = ℤ × ℕ;
  of_ℕ = λ n. (pos n, 1);
  minus_one = (negsuc 0, 1);
  add = λ a b. (pos (pos_part a.0 + pos_part b.0), 1);
  div_count = λ a n. (a.0, n);
  add_exact = λ a b h. refl;
}

-- A frame with the measurements 5, 9 and 12, and the same with its last byte changed.
abbrev pub frame : List ℕ
frame = (66 ∷ 77 ∷ 0 ∷ 20 ∷ 0 ∷ 5 ∷ 0 ∷ 9 ∷ 0 ∷ 12 ∷ []) ++ (replicate 13 0 ++ (189 ∷ []))

abbrev pub bad_frame : List ℕ
bad_frame = set frame 5 6

abbrev pub queue : List UartEvent
queue = data_ready 24 frame ∷ line_break ∷ data_ready 24 bad_frame ∷ data_ready 24 frame ∷ []

abbrev pub quiet : Sensor fractions
quiet = record { accum = cleared fractions; buf = replicate 144 0; timer_runs = false }

frame_passes : pm_checksum frame ≡ true
unfolding pm_checksum
frame_passes = refl

frame-AllBytes : AllBytes frame
frame-AllBytes = ground arith

pm_checksum-set_example : pm_checksum bad_frame ≡ false
pm_checksum-set_example =
    pm_checksum-set frame 5 6 frame-AllBytes (omega arith) (omega arith) (omega arith) (omega arith)
      frame_passes

pub queue_fills : All FillsBuffer queue
queue_fills = (refl, (tt, (refl, (refl, tt))))

pub queue-Fits : Fits fractions 0 0 0 0 (readings queue)
unfolding readings pm_checksum
queue-Fits = record {
  count = omega arith;
  pm1 = omega arith;
  pm2_5 = omega arith;
  pm10 = omega arith;
}

pub two_readings : readings queue ≢ []
unfolding readings pm_checksum
two_readings = ground arith

pms_poll_average_example : pms_poll fractions (run_events fractions queue quiet) 0 ≡ (
  (pos 0, record { sample_count = 0; pm1 = (pos 10, 2); pm2_5 = (pos 18, 2); pm10 = (pos 24, 2) }),
  record (run_events fractions queue quiet) { accum = cleared fractions },
)
unfolding readings pm_checksum
pms_poll_average_example =
    pms_poll_average fractions queue quiet 0 queue_fills refl two_readings queue-Fits
