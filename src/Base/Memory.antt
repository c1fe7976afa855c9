-- ===== src/Base/Memory.antt =====
-- A C buffer: the bytes from a pointer to the end of its allocation. A write behind the end is
-- undefined behaviour in C, and is `none` here.
use Prim.Native.Nat.{ℕ, zero, suc, ◌+◌, ◌≤◌}
use mathlib.Core.Path.{◌≡◌, refl, ap, subst, ◌∙◌}
use mathlib.Core.List.{List, [], ◌∷◌, ◌++◌, append_assoc}
use mathlib.Core.Option.{Option, none, some}
use native.Mathlib.Omega.{arith}
use airu_v2_fw.Base.Lists.{length, length-append, drop}

infixl 5 ◌>>=◌
abbrev pub ◌>>=◌ {ℓ κ} : {A : Type ℓ} {B : Type κ} → Option A → (A → Option B) → Option B
none >>= f = none
some a >>= f = f a

pub >>=-assoc :
    {A B C : Type 0} (o : Option A) (f : A → Option B) (g : B → Option C)
    → ((o >>= f) >>= g) ≡ (o >>= λ x. f x >>= g)
>>=-assoc none f g = refl
>>=-assoc (some a) f g = refl

pub >>=-some : {A : Type 0} (o : Option A) → (o >>= some) ≡ o
>>=-some none = refl
>>=-some (some a) = refl

pub >>=-assoc_three :
    {A B C D : Type 0} (o : Option A) (f : A → Option B) (g : B → Option C) (h : C → Option D)
    → (((o >>= f) >>= g) >>= h) ≡ (o >>= λ x. f x >>= λ y. g y >>= h)
>>=-assoc_three none f g h = refl
>>=-assoc_three (some a) f g h = >>=-assoc (f a) g h

pub >>=-assoc_four :
    {A B C D E : Type 0} (o : Option A) (f : A → Option B) (g : B → Option C) (h : C → Option D)
    (k : D → Option E)
    → ((((o >>= f) >>= g) >>= h) >>= k) ≡ (o >>= λ x. f x >>= λ y. g y >>= λ z. h z >>= k)
>>=-assoc_four none f g h k = refl
>>=-assoc_four (some a) f g h k = >>=-assoc_three (f a) g h k

-- `m[i] = v`
unfoldable pub store : List ℕ → ℕ → ℕ → Option (List ℕ)
store [] i v = none
store (x ∷ xs) zero v = some (v ∷ xs)
store (x ∷ xs) (suc i) v = store xs i v >>= λ ys. some (x ∷ ys)

-- `memcpy(m + i, bytes, …)`, one byte after the other
unfoldable pub copy : List ℕ → ℕ → List ℕ → Option (List ℕ)
copy m i [] = some m
copy m i (b ∷ bs) = store m i b >>= λ m'. copy m' (i + 1) bs

pub store_append :
    (xs ys : List ℕ) (y v : ℕ) (i : ℕ)
    → i ≡ length xs
    → store (xs ++ (y ∷ ys)) i v ≡ some (xs ++ (v ∷ ys))
unfolding store
store_append [] ys y v zero e = refl
store_append [] ys y v (suc i) e = absurd (omega arith)
store_append (x ∷ xs) ys y v zero e = absurd (omega arith)
store_append (x ∷ xs) ys y v (suc i) e = rw (store_append xs ys y v i (omega arith))

pub store_outside : (m : List ℕ) (i v : ℕ) → length m ≤ i → store m i v ≡ none
unfolding store
store_outside [] i v h = refl
store_outside (x ∷ xs) zero v h = absurd (omega arith)
store_outside (x ∷ xs) (suc i) v h = rw (store_outside xs i v (omega arith))

-- A buffer keeps its size, whatever is written to it.
abbrev pub HasSize : ℕ → Option (List ℕ) → Type 0
HasSize n none = Unit
HasSize n (some m) = length m ≡ n

pub >>=-HasSize :
    (n : ℕ) (o : Option (List ℕ)) (f : List ℕ → Option (List ℕ))
    → HasSize n o
    → ((m : List ℕ) → length m ≡ n → HasSize n (f m))
    → HasSize n (o >>= f)
>>=-HasSize n none f h k = tt
>>=-HasSize n (some m) f h k = k m h

pub store-HasSize : (m : List ℕ) (i v : ℕ) → HasSize (length m) (store m i v)
unfolding store
store-HasSize [] i v = tt
store-HasSize (x ∷ xs) zero v = refl
store-HasSize (x ∷ xs) (suc i) v = ground (arith, store-HasSize xs i v)

pub store-HasSize_of : (n : ℕ) (m : List ℕ) (i v : ℕ) → length m ≡ n → HasSize n (store m i v)
store-HasSize_of n m i v e = subst (λ k. HasSize k (store m i v)) e (store-HasSize m i v)

pub copy-HasSize : (n : ℕ) (bs m : List ℕ) (i : ℕ) → length m ≡ n → HasSize n (copy m i bs)
unfolding copy
copy-HasSize n [] m i e = e
copy-HasSize n (b ∷ bs) m i e =
    >>=-HasSize n (store m i b) _ (store-HasSize_of n m i b e)
      λ m' e'. copy-HasSize n bs m' (i + 1) e'

-- A copy behind a prefix, where there is room for it.
pub copy_append :
    (bs xs ys : List ℕ) (i : ℕ)
    → i ≡ length xs
    → length bs ≤ length ys
    → copy (xs ++ ys) i bs ≡ some (xs ++ (bs ++ drop (length bs) ys))
unfolding copy
copy_append [] xs ys i e h = refl
copy_append (b ∷ bs) xs [] i e h = absurd (omega arith)
copy_append (b ∷ bs) xs (y ∷ ys) i e h = rw (store_append xs ys y b i e) (
    rw (← append_assoc xs (b ∷ []) ys) (
      copy_append bs (xs ++ (b ∷ [])) ys (i + 1) (omega (arith, length-append xs (b ∷ [])))
        (omega arith)
      ∙ ap some (append_assoc xs (b ∷ []) (bs ++ drop (length bs) ys))))
