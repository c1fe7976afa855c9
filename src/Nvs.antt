-- ===== src/Nvs.antt =====
-- The non-volatile storage library of ESP-IDF, which is not part of the repository: a parameter,
-- with what its documentation says of a key that was set. Results are error codes, `ESP_OK` is 0.
use airu_v2_fw.Base.{
  ℕ, ◌≤◌, ◌≡◌, ◌≢◌, sym, ap, ◌∙◌, arith, Bool, true, false, List, length, ◌==◌, if◌then◌else◌,
  Bool-cases, inl, inr,
}
use airu_v2_fw.Base.Int.{ℤ, pos, negsuc}

-- The keys that the firmware uses.
pub data Key : Type 0 where
  name email ssid password settings : Key

pub record Nvs : Type 1 where
  pub Store : Type 0
  -- `nvs_open`, for writing or for reading
  pub open_for : Bool → Store → ℤ
  pub set_blob : Store → Key → List ℕ → ℤ × Store
  pub commit : Store → ℤ × Store
  -- `nvs_get_blob` into a buffer of that size: the code, and the bytes that it copied
  pub get_blob : Store → Key → ℕ → ℤ × List ℕ
  pub get_blob-set_blob :
      (s : Store) (k : Key) (v : List ℕ) (n : ℕ)
      → (set_blob s k v).0 ≡ pos 0
      → length v ≤ n
      → get_blob (set_blob s k v).1 k n ≡ (pos 0, v)
  pub get_blob-set_blob_ne :
      (s : Store) (k j : Key) (v : List ℕ) (n : ℕ)
      → k ≢ j
      → get_blob (set_blob s k v).1 j n ≡ get_blob s j n
  pub get_blob-commit : (s : Store) (j : Key) (n : ℕ) → get_blob (commit s).1 j n ≡ get_blob s j n

-- `err == ESP_OK`
abbrev pub is_ok : ℤ → Bool
is_ok (pos n) = n == 0
is_ok (negsuc _) = false

-- `if (esp_err != ESP_OK) return esp_err;`
infixl 5 ◌>>>◌
abbrev pub ◌>>>◌ : {S : Type 0} → ℤ × S → (S → ℤ × S) → ℤ × S
r >>> f = if is_ok r.0 then f r.1 else r

-- A chain that succeeds has a successful first part.
pub record Chained {S : Type 0} (r : ℤ × S) (f : S → ℤ × S) (t : S) : Type 0 where
  pub between : S
  pub first : r ≡ (pos 0, between)
  pub second : f between ≡ (pos 0, t)

is_ok-true : (e : ℤ) → is_ok e ≡ true → e ≡ pos 0
is_ok-true (pos n) h = ground arith
is_ok-true (negsuc n) h = ground arith

pub chained :
    {S : Type 0} (r : ℤ × S) (f : S → ℤ × S) (t : S) → r >>> f ≡ (pos 0, t) → Chained r f t
chained r f t h = elim (Bool-cases (is_ok r.0)) [
  | inl ok ↦ record {
    between = r.1;
    first = ap (λ e. (e, r.1)) (is_ok-true r.0 ok);
    second = ground arith;
  }
  | inr bad ↦ ground arith
]

module _ (nvs : Nvs) where
  open nvs use {
    Store, set_blob, commit, get_blob, get_blob-set_blob, get_blob-set_blob_ne, get_blob-commit,
  }

  pub get-set :
      (s u : Store) (k : Key) (v : List ℕ) (n : ℕ)
      → set_blob s k v ≡ (pos 0, u)
      → length v ≤ n
      → get_blob u k n ≡ (pos 0, v)
  get-set s u k v n h l =
      ap (λ r. get_blob r.1 k n) (sym h) ∙ get_blob-set_blob s k v n (ap (λ r. r.0) h) l

  pub get-set_ne :
      (s u : Store) (k j : Key) (v : List ℕ) (n : ℕ)
      → set_blob s k v ≡ (pos 0, u)
      → k ≢ j
      → get_blob u j n ≡ get_blob s j n
  get-set_ne s u k j v n h d = ap (λ r. get_blob r.1 j n) (sym h) ∙ get_blob-set_blob_ne s k j v n d

  pub get-commit :
      (s u : Store) (j : Key) (n : ℕ) → commit s ≡ (pos 0, u) → get_blob u j n ≡ get_blob s j n
  get-commit s u j n h = ap (λ r. get_blob r.1 j n) (sym h) ∙ get_blob-commit s j n
