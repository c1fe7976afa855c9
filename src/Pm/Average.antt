-- ===== src/Pm/Average.antt =====
-- What the UART task and `PMS_Poll` compute together: the mean of the frames that were accepted.
use airu_v2_fw.Base.{
  ℕ, ◌+◌, ◌^◌, ◌≤◌, ◌<◌, ◌≡◌, ◌≢◌, refl, ap, subst, ◌∙◌, sym, arith, ◌&&◌, List, [], ◌∷◌,
  if◌then◌else◌, ◌==◌, length, All, Bool-cases, inl, inr,
}
use airu_v2_fw.Base.Float.{Floats}
use airu_v2_fw.Pm.{
  word_at, PmData, Sensor, cleared, UartEvent, data_ready, fifo_ovf, buffer_full, handle_event,
  run_events, add_sample, pms_poll, esp_ok,
}
use airu_v2_fw.Pm.Frames.{is_frame, data_accum, run_events-data}

pub record Reading : Type 0 where
  pub pm1 : ℕ
  pub pm2_5 : ℕ
  pub pm10 : ℕ

-- What a frame says, on its own bytes.
abbrev pub reading : List ℕ → Reading
reading bytes = record { pm1 = word_at bytes 4; pm2_5 = word_at bytes 6; pm10 = word_at bytes 8 }

-- The readings of the events up to the first that empties the queue.
unfoldable pub readings : List UartEvent → List Reading
readings [] = []
readings (data_ready size bytes ∷ l) =
    if size == 24 && is_frame bytes then reading bytes ∷ readings l else readings l
readings (fifo_ovf ∷ l) = []
readings (buffer_full ∷ l) = []
readings (_ ∷ l) = readings l

-- `uart_read_bytes` stores as many bytes as were asked for.
abbrev pub FillsBuffer : UartEvent → Type 0
FillsBuffer (data_ready size bytes) = length bytes ≡ size
FillsBuffer _ = Unit

abbrev pub total : (Reading → ℕ) → List Reading → ℕ
total f [] = 0
total f (r ∷ l) = f r + total f l

module _ (fl : Floats) where
  open fl use {of_ℕ, add, div_count, add_exact}

  -- The accumulator holds these sums.
  record Holds (a : PmData fl) (n x y z : ℕ) : Type 0 where
    count : a.sample_count ≡ n
    pm1 : a.pm1 ≡ of_ℕ x
    pm2_5 : a.pm2_5 ≡ of_ℕ y
    pm10 : a.pm10 ≡ of_ℕ z

  Holds-add_sample :
      (a : PmData fl) (n x y z x' y' z' : ℕ)
      → Holds a n x y z
      → n + 1 < 2 ^ 32
      → x + x' ≤ 2 ^ 24
      → y + y' ≤ 2 ^ 24
      → z + z' ≤ 2 ^ 24
      → Holds (add_sample fl a x' y' z') (n + 1) (x + x') (y + y') (z + z')
  Holds-add_sample a n x y z x' y' z' h hn hx hy hz = record {
    count = omega (arith, h.count);
    pm1 = rw h.pm1 (add_exact x x' hx);
    pm2_5 = rw h.pm2_5 (add_exact y y' hy);
    pm10 = rw h.pm10 (add_exact z z' hz);
  }

  -- The totals that a run adds fit `float` and the counter.
  pub record Fits (n x y z : ℕ) (rs : List Reading) : Type 0 where
    pub count : n + length rs < 2 ^ 32
    pub pm1 : x + total (λ r. r.pm1) rs ≤ 2 ^ 24
    pub pm2_5 : y + total (λ r. r.pm2_5) rs ≤ 2 ^ 24
    pub pm10 : z + total (λ r. r.pm10) rs ≤ 2 ^ 24

  Holds-eq :
      {a : PmData fl} (n x y z n' x' y' z' : ℕ)
      → Holds a n x y z
      → n ≡ n'
      → x ≡ x'
      → y ≡ y'
      → z ≡ z'
      → Holds a n' x' y' z'
  Holds-eq n x y z n' x' y' z' h en ex ey ez = record {
    count = h.count ∙ en;
    pm1 = h.pm1 ∙ ap of_ℕ ex;
    pm2_5 = h.pm2_5 ∙ ap of_ℕ ey;
    pm10 = h.pm10 ∙ ap of_ℕ ez;
  }

  -- The sums after a run from a sensor that holds the first ones.
  abbrev Sums : PmData fl → ℕ → ℕ → ℕ → ℕ → List Reading → Type 0
  Sums a n x y z rs =
      Holds a (n + length rs) (x + total (λ r. r.pm1) rs) (y + total (λ r. r.pm2_5) rs)
        (z + total (λ r. r.pm10) rs)

  data_Sums :
      (s : Sensor fl) (size : ℕ) (bytes : List ℕ) (rs : List Reading) (a : PmData fl) (n x y z : ℕ)
      → length bytes ≡ size
      → Holds s.accum n x y z
      → ((n' x' y' z' : ℕ)
          → Holds (handle_event fl (data_ready size bytes) s).1.accum n' x' y' z'
          → Fits n' x' y' z' rs
          → Sums a n' x' y' z' rs)
      → Fits n x y z (if size == 24 && is_frame bytes then reading bytes ∷ rs else rs)
      → Sums a n x y z (if size == 24 && is_frame bytes then reading bytes ∷ rs else rs)
  data_Sums s size bytes rs a n x y z len h later f =
      elim (Bool-cases (size == 24 && is_frame bytes)) [
        | inl taken ↦ rw taken (accepted (rw taken at accum) (rw taken at f))
        | inr refused ↦ rw refused (
            later n x y z (subst (λ c. Holds c n x y z) (sym (rw refused at accum)) h)
              (rw refused at f))
      ]
    where
      accum : (handle_event fl (data_ready size bytes) s).1.accum ≡ (
          if size == 24 && is_frame bytes
          then add_sample fl s.accum (word_at bytes 4) (word_at bytes 6) (word_at bytes 8)
          else s.accum)
      accum = data_accum fl s size bytes len

      accepted :
          (handle_event fl (data_ready size bytes) s).1.accum
            ≡ add_sample fl s.accum (word_at bytes 4) (word_at bytes 6) (word_at bytes 8)
          → Fits n x y z (reading bytes ∷ rs)
          → Sums a n x y z (reading bytes ∷ rs)
      accepted e g =
          Holds-eq _ _ _ _ _ _ _ _
            (later (n + 1) (x + word_at bytes 4) (y + word_at bytes 6) (z + word_at bytes 8)
              (subst
                (λ c.
                  Holds c (n + 1) (x + word_at bytes 4) (y + word_at bytes 6) (z + word_at bytes 8))
                (sym e)
                (Holds-add_sample s.accum n x y z _ _ _ h (omega (arith, g.count))
                  (omega (arith, g.pm1)) (omega (arith, g.pm2_5)) (omega (arith, g.pm10))))
              (record {
                count = omega (arith, g.count);
                pm1 = omega (arith, g.pm1);
                pm2_5 = omega (arith, g.pm2_5);
                pm10 = omega (arith, g.pm10);
              }))
            (omega arith) (omega arith) (omega arith) (omega arith)

  data_step :
      (es : List UartEvent) (s : Sensor fl) (size : ℕ) (bytes : List ℕ) (n x y z : ℕ)
      → length bytes ≡ size
      → Holds s.accum n x y z
      → Fits n x y z (readings (data_ready size bytes ∷ es))
      → ((n' x' y' z' : ℕ)
          → Holds (handle_event fl (data_ready size bytes) s).1.accum n' x' y' z'
          → Fits n' x' y' z' (readings es)
          → Sums
              (run_events fl es (handle_event fl (data_ready size bytes) s).1).accum
              n'
              x'
              y'
              z'
              (readings es))
      → Sums
          (run_events fl (data_ready size bytes ∷ es) s).accum
          n
          x
          y
          z
          (readings (data_ready size bytes ∷ es))
  unfolding readings
  data_step es s size bytes n x y z len h f later =
      rw (run_events-data fl es s size bytes)
        (data_Sums s size bytes (readings es) _ n x y z len h later f)

  run_events-Sums :
      (es : List UartEvent) (s : Sensor fl) (n x y z : ℕ)
      → All FillsBuffer es
      → Holds s.accum n x y z
      → Fits n x y z (readings es)
      → Sums (run_events fl es s).accum n x y z (readings es)
  unfolding run_events handle_event readings
  run_events-Sums [] s n x y z w h f =
      Holds-eq n x y z _ _ _ _ h (omega arith) (omega arith) (omega arith) (omega arith)
  run_events-Sums (data_ready size bytes ∷ es) s n x y z w h f =
      data_step es s size bytes n x y z w.0 h f
        (λ n' x' y' z'. run_events-Sums es _ n' x' y' z' w.1)
  run_events-Sums (fifo_ovf ∷ es) s n x y z w h f =
      Holds-eq n x y z _ _ _ _ h (omega arith) (omega arith) (omega arith) (omega arith)
  run_events-Sums (buffer_full ∷ es) s n x y z w h f =
      Holds-eq n x y z _ _ _ _ h (omega arith) (omega arith) (omega arith) (omega arith)
  run_events-Sums (_ ∷ es) s n x y z w h f = run_events-Sums es s n x y z w.1 h f

  length-ne : (rs : List Reading) → rs ≢ [] → length rs ≢ 0
  length-ne [] h = absurd (h refl)
  length-ne (r ∷ rs) h = omega arith

  poll_Holds :
      (s : Sensor fl) (old_count n x y z : ℕ)
      → Holds s.accum n x y z
      → n ≢ 0
      → pms_poll fl s old_count ≡ (
        (
          esp_ok,
          record {
            sample_count = old_count;
            pm1 = div_count (of_ℕ x) n;
            pm2_5 = div_count (of_ℕ y) n;
            pm10 = div_count (of_ℕ z) n;
          },
        ),
        record s { accum = cleared fl },
      )
  unfolding pms_poll
  poll_Holds s old_count n x y z h ne = ground arith

  -- From a cleared accumulator, any run of events and then a poll: the poll succeeds if a frame was
  -- accepted, gives the sum of each measurement over the accepted frames divided by their number,
  -- and clears the accumulator. The sums must stay within what `float` holds exactly.
  pub pms_poll_average :
      (es : List UartEvent) (s : Sensor fl) (old_count : ℕ)
      → All FillsBuffer es
      → s.accum ≡ cleared fl
      → readings es ≢ []
      → Fits 0 0 0 0 (readings es)
      → (pms_poll fl (run_events fl es s) old_count ≡ (
        (
          esp_ok,
          record {
            sample_count = old_count;
            pm1 = div_count (of_ℕ (total (λ r. r.pm1) (readings es))) (length (readings es));
            pm2_5 = div_count (of_ℕ (total (λ r. r.pm2_5) (readings es))) (length (readings es));
            pm10 = div_count (of_ℕ (total (λ r. r.pm10) (readings es))) (length (readings es));
          },
        ),
        record (run_events fl es s) { accum = cleared fl },
      ))
  pms_poll_average es s old_count w c some_frame f =
      poll_Holds (run_events fl es s) old_count _ _ _ _
        (Holds-eq _ _ _ _ _ _ _ _ (run_events-Sums es s 0 0 0 0 w start f) (omega arith)
          (omega arith) (omega arith) (omega arith))
        (length-ne (readings es) some_frame)
    where
      start : Holds s.accum 0 0 0 0
      start = rw c (record { count = refl; pm1 = refl; pm2_5 = refl; pm10 = refl })
