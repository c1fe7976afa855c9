-- ===== src/Pm/Corruption.antt =====
-- What the checksum guards against.
use airu_v2_fw.Base.{
  ℕ, zero, suc, ◌+◌, ◌≤◌, ◌<◌, ◌≡◌, ◌≢◌, inl, inr, arith, true, false, List, [], ◌∷◌, if◌then◌else◌,
  ltb, ◌==◌, set, take, length, Bool-cases,
}
use airu_v2_fw.Pm.{byte_at, pm_checksum}
use airu_v2_fw.Pm.Checksum.{AllBytes, byte_sum, pm_checksum_iff}

set-AllBytes : (buf : List ℕ) (i v : ℕ) → v < 256 → AllBytes buf → AllBytes (set buf i v)
set-AllBytes [] i v h b = tt
set-AllBytes (x ∷ buf) zero v h b = (h, b.1)
set-AllBytes (x ∷ buf) (suc i) v h b = (b.0, set-AllBytes buf i v h b.1)

-- How a sum of the first bytes moves when one byte is changed.
byte_sum-set :
    (n i v : ℕ) (buf : List ℕ)
    → i < length buf
    → byte_sum (take n (set buf i v)) + (if ltb i n then byte_at buf i else 0)
      ≡ byte_sum (take n buf) + (if ltb i n then v else 0)
byte_sum-set zero i v buf h = ground arith
byte_sum-set (suc n) i v [] h = absurd (omega arith)
byte_sum-set (suc n) zero v (x ∷ buf) h = ground arith
byte_sum-set (suc n) (suc i) v (x ∷ buf) h = ground (arith, byte_sum-set n i v buf (omega arith))

byte_at-set :
    (i j v : ℕ) (buf : List ℕ)
    → i < length buf
    → byte_at (set buf i v) j ≡ (if i == j then v else byte_at buf j)
byte_at-set i j v [] h = absurd (omega arith)
byte_at-set zero zero v (x ∷ buf) h = ground arith
byte_at-set zero (suc j) v (x ∷ buf) h = ground arith
byte_at-set (suc i) zero v (x ∷ buf) h = ground arith
byte_at-set (suc i) (suc j) v (x ∷ buf) h = ground (arith, byte_at-set i j v buf (omega arith))

-- A frame that passes the checksum no longer does once any one of its 24 bytes is changed.
pub pm_checksum-set :
    (buf : List ℕ) (i v : ℕ)
    → AllBytes buf
    → 24 ≤ length buf
    → i < 24
    → v < 256
    → v ≢ byte_at buf i
    → pm_checksum buf ≡ true
    → pm_checksum (set buf i v) ≡ false
pm_checksum-set buf i v b l hi hv ne passes = elim (Bool-cases (pm_checksum (set buf i v))) [
  | inr fails ↦ fails
  | inl again ↦ absurd (
      ne (
        ground (
          arith,
          (pm_checksum_iff buf b).0 passes,
          (pm_checksum_iff (set buf i v) (set-AllBytes buf i v hv b)).0 again,
          byte_sum-set 22 i v buf (omega arith),
          byte_at-set i 22 v buf (omega arith),
          byte_at-set i 23 v buf (omega arith),
        )))
]
