-- ===== src/Gps/Checksums.antt =====
-- RMC sentences with a checksum and a line end, in main/gps_if.c.
use airu_v2_fw.Base.{ℕ, ◌≡◌, List, [], ◌∷◌, ◌++◌}
use airu_v2_fw.Gps.{Gps}

-- The end of a list.
record EndsWith (tail t : List ℕ) : Type 0 where
  front : List ℕ
  parts : t ≡ front ++ tail

-- The star, the checksum and the line end that close a sentence, behind the last fields.
unfoldable pub closing : (mag : List ℕ) (h l : ℕ) → List ℕ
closing mag h l = mag ++ (b'*' ∷ h ∷ l ∷ b'\r' ∷ b'\n' ∷ [])
