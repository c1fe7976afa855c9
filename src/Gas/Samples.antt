-- ===== src/Gas/Samples.antt =====
-- The averages of main/mics4514_if.c lie within the samples.
use airu_v2_fw.Base.{ℕ, ◌+◌, ◌*◌, ◌≤◌, ◌≡◌, List, [], ◌∷◌, length, All, ap, arith}
use airu_v2_fw.Gas.{sum_samples, mics4514_poll}

-- Both values of a sample lie between two bounds.
abbrev pub IsBetween : ℕ → ℕ → ℕ × ℕ → Type 0
IsBetween lo hi s = (lo ≤ s.0) × (s.0 ≤ hi) × (lo ≤ s.1) × (s.1 ≤ hi)

sum_samples_lem :
    (lo hi a b : ℕ) (xs : List (ℕ × ℕ))
    → All (IsBetween lo hi) xs
    → (a + lo * length xs ≤ (sum_samples (a, b) xs).0)
      × ((sum_samples (a, b) xs).0 ≤ a + hi * length xs)
      × (b + lo * length xs ≤ (sum_samples (a, b) xs).1)
      × ((sum_samples (a, b) xs).1 ≤ b + hi * length xs)
unfolding sum_samples
sum_samples_lem lo hi a b [] h = grind arith
sum_samples_lem lo hi a b ((x, y) ∷ xs) h =
    let ih = sum_samples_lem lo hi (a + x) (b + y) xs h.1 in
    let (p, q, r, s) = ih in grind (arith, p, q, r, s, h.0)

-- The averages of 64 samples lie between any bounds of the samples.
pub mics4514_poll-IsBetween :
    (lo hi : ℕ) (xs : List (ℕ × ℕ))
    → length xs ≡ 64
    → All (IsBetween lo hi) xs
    → IsBetween lo hi (mics4514_poll xs)
unfolding mics4514_poll
mics4514_poll-IsBetween lo hi xs l h =
    let (p, q, r, s) = sum_samples_lem lo hi 0 0 xs h in
    let low = ap (λ n. lo * n) l in
    let high = ap (λ n. hi * n) l in
    (omega (arith, p, low), omega (arith, q, high), omega (arith, r, low), omega (arith, s, high))
