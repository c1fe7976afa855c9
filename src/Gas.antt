-- ===== src/Gas.antt =====
-- main/mics4514_if.c: the gas sensor. What the converter returns is an argument, of 12 bits for each
-- channel; the two pins of the sensor are the state.
pub mod Samples
use airu_v2_fw.Base.{ℕ, ◌+◌, ◌/◌, Bool, true, false, List, [], ◌∷◌}

-- The levels of `GPIO_MICS_ENABLE` and `GPIO_MICS_HEATER`
pub record Pins : Type 0 where
  pub mics_enable : Bool
  pub mics_heater : Bool

-- `NO_OF_SAMPLES`
abbrev pub no_of_samples : ℕ
no_of_samples = 64

-- The loop over the samples of both channels.
pub sum_samples : ℕ × ℕ → List (ℕ × ℕ) → ℕ × ℕ
sum_samples sums [] = sums
sum_samples (ch6, ch7) ((a, b) ∷ rest) = sum_samples (ch6 + a, ch7 + b) rest

-- `MICS4514_Poll`: `ox_val` and `red_val`
unfoldable pub mics4514_poll : List (ℕ × ℕ) → ℕ × ℕ
unfolding sum_samples
mics4514_poll samples =
    let sums = sum_samples (0, 0) samples in (sums.0 / no_of_samples, sums.1 / no_of_samples)

-- The sensor is on while the level of its pin is low.
unfoldable pub mics4514_enable : Pins → Pins
mics4514_enable p = record p { mics_enable = false }

unfoldable pub mics4514_disable : Pins → Pins
mics4514_disable p = record p { mics_enable = true }

unfoldable pub mics4514_heater_enable : Pins → Pins
mics4514_heater_enable p = record p { mics_heater = true }

unfoldable pub mics4514_heater_disable : Pins → Pins
mics4514_heater_disable p = record p { mics_heater = false }
