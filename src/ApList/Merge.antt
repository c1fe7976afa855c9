-- ===== src/ApList/Merge.antt =====
-- The first loop leaves each network once.
use airu_v2_fw.Base.{
  ℕ, zero, suc, ◌+◌, ◌≡◌, ◌≤◌, refl, arith, true, false, List, [], ◌∷◌, length, All, ◌⊎◌,
}
use airu_v2_fw.ApList.{Ap, is_blank, same_network, take_rssi, absorb, merge}
use airu_v2_fw.ApList.Compact.{named}

-- The record is blank, or of another network.
abbrev pub Apart : Ap → Ap → Type 0
Apart a b = (is_blank b ≡ true) ⊎ (same_network a b ≡ false)

-- No network twice.
abbrev pub Distinct : List Ap → Type 0
Distinct [] = Unit {0}
Distinct (a ∷ l) = All (λ b. same_network a b ≡ false) l × Distinct l

pub length-absorb : (a : Ap) (l : List Ap) → length (absorb a l).1 ≡ length l
unfolding absorb
length-absorb a [] = refl
length-absorb a (b ∷ l) = omega (arith, length-absorb (take_rssi a b) l)

-- The name and the mode of the absorbing record stay.
pub absorb_same :
    (a : Ap) (l : List Ap) → ((absorb a l).0.ssid ≡ a.ssid) × ((absorb a l).0.authmode ≡ a.authmode)
unfolding absorb
absorb_same a [] = (refl, refl)
absorb_same a (b ∷ l) = ground (arith, absorb_same (take_rssi a b) l)

-- Nothing of its network is left behind it.
absorb-Apart :
    (l : List Ap) (a a' : Ap)
    → a'.ssid ≡ a.ssid
    → a'.authmode ≡ a.authmode
    → All (Apart a') (absorb a l).1
unfolding absorb same_network
absorb-Apart [] a a' e f = tt
absorb-Apart (b ∷ l) a a' e f =
    (ground arith, absorb-Apart l (take_rssi a b) a' (ground arith) (ground arith))

-- What is apart from a record stays so.
absorb_keeps-Apart : (l : List Ap) (a x : Ap) → All (Apart x) l → All (Apart x) (absorb a l).1
unfolding absorb
absorb_keeps-Apart [] a x h = tt
absorb_keeps-Apart (b ∷ l) a x h = (ground arith, absorb_keeps-Apart l (take_rssi a b) x h.1)

absorbing-Apart : (l : List Ap) (a x : Ap) → Apart x a → Apart x (absorb a l).0
unfolding same_network
absorbing-Apart l a x h = ground (arith, absorb_same a l)

merge_keeps-Apart : (n : ℕ) (l : List Ap) (x : Ap) → All (Apart x) l → All (Apart x) (merge n l)
unfolding merge
merge_keeps-Apart zero l x h = h
merge_keeps-Apart (suc n) [] x h = tt
merge_keeps-Apart (suc n) (a ∷ l) x h = ground (
  arith,
  merge_keeps-Apart n l x h.1,
  merge_keeps-Apart n (absorb a l).1 x (absorb_keeps-Apart l a x h.1),
  absorbing-Apart l a x h.0,
)

named-Apart :
    (l : List Ap) (x : Ap) → All (Apart x) l → All (λ b. same_network x b ≡ false) (named l)
named-Apart [] x h = tt
named-Apart (a ∷ l) x h = ground (arith, named-Apart l x h.1)

-- The rounds that the loop makes leave no network twice.
pub merge-Distinct : (n : ℕ) (l : List Ap) → length l ≤ n + 1 → Distinct (named (merge n l))
unfolding merge
merge-Distinct zero [] h = tt
merge-Distinct zero (a ∷ []) h = ground arith
merge-Distinct zero (a ∷ b ∷ l) h = absurd (omega arith)
merge-Distinct (suc n) [] h = tt
merge-Distinct (suc n) (a ∷ l) h = ground (
  arith,
  merge-Distinct n l (omega arith),
  merge-Distinct n (absorb a l).1 (omega (arith, length-absorb a l)),
  named-Apart (merge n (absorb a l).1) (absorb a l).0 (
      merge_keeps-Apart n (absorb a l).1 (absorb a l).0
        (absorb-Apart l a (absorb a l).0 (absorb_same a l).0 (absorb_same a l).1)),
  absorb_same a l,
)
