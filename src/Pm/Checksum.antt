-- ===== src/Pm/Checksum.antt =====
-- The `uint16_t` sum of the checksum never wraps, so it is the sum that the sensor's documentation
-- gives in main/include/pm_if.h.
use airu_v2_fw.Base.{
  ℕ, zero, suc, ◌+◌, ◌*◌, ◌%◌, ◌^◌, ◌≤◌, ◌<◌, ◌≡◌, ◌↔◌, arith, true, List, [], ◌∷◌, ==_iff, take,
  All,
}
use airu_v2_fw.Pm.{byte_at, word_at, sum_bytes, pm_checksum}

abbrev pub AllBytes : List ℕ → Type 0
AllBytes = All (λ b. b < 256)

abbrev pub byte_sum : List ℕ → ℕ
byte_sum [] = 0
byte_sum (b ∷ bs) = b + byte_sum bs

byte_sum-take_le : (n : ℕ) (buf : List ℕ) → AllBytes buf → byte_sum (take n buf) ≤ n * 255
byte_sum-take_le zero buf h = omega arith
byte_sum-take_le (suc n) [] h = omega arith
byte_sum-take_le (suc n) (b ∷ buf) h = omega (arith, byte_sum-take_le n buf h.1)

pub sum_bytes_lem :
    (n sum : ℕ) (buf : List ℕ)
    → sum < 2 ^ 16
    → sum_bytes n sum buf ≡ (sum + byte_sum (take n buf)) % 2 ^ 16
unfolding sum_bytes
sum_bytes_lem zero sum buf h = omega arith
sum_bytes_lem (suc n) sum [] h = omega arith
sum_bytes_lem (suc n) sum (b ∷ buf) h =
    omega (arith, sum_bytes_lem n ((sum + b) % 2 ^ 16) buf (omega arith))

byte_at-lt : (buf : List ℕ) (i : ℕ) → AllBytes buf → byte_at buf i < 256
byte_at-lt [] i h = omega arith
byte_at-lt (b ∷ buf) zero h = h.0
byte_at-lt (b ∷ buf) (suc i) h = byte_at-lt buf i h.1

-- `pm_checksum` accepts a buffer of bytes exactly if the first 22 of them add up to the number in
-- the last two bytes of the frame, as whole numbers.
pub pm_checksum_iff :
    (buf : List ℕ)
    → AllBytes buf
    → (pm_checksum buf ≡ true) ↔ (byte_sum (take 22 buf) ≡ word_at buf 22)
unfolding pm_checksum
pm_checksum_iff buf h =
    (λ e. omega (arith, exact, (==_iff _ _).0 e), λ e. (==_iff _ _).1 (omega (arith, exact)))
  where
    exact :
        (sum_bytes 22 0 buf ≡ byte_sum (take 22 buf))
        × ((byte_at buf 22 * 256 + byte_at buf 23) % 2 ^ 16 ≡ word_at buf 22)
    exact = omega (
      arith,
      sum_bytes_lem 22 0 buf (omega arith),
      byte_sum-take_le 22 buf h,
      byte_at-lt buf 22 h,
      byte_at-lt buf 23 h,
    )
